-- ===== src/Log/VirtualLog/Consistency.antt =====
-- The state of a virtual log between two calls, and one round of `append` and `reconfigure` on it.
use relos.Prelude.{
  ℕ, suc, ◌+◌, ◌-◌, ◌<◌, ◌≤◌, ◌^◌, ◌≡◌, refl, ap, true, false, List, [], ◌∷◌, ◌++◌, arith, length,
  ==_iff,
}
use relos.Prelude.Words.{add64}
use relos.Prelude.Bytes.{Text, text}
use relos.Prelude.Dict.{insert, lookup-insert_self}
use relos.Core.{LogPos, log_pos_begin, Result, ok}
use relos.Log.Decimal.{decimal-injective}
use relos.Log.MetaStore
use relos.Log.MetaStore.{MetaStore}
use relos.Log.Loglet.{Loglet, LogletLaws}
use relos.Log.Chain.{ChainSegment, open_segment, seal_last, active_segment, extend}
use relos.Log.Chain.Extension.{last_start}
use relos.Log.VirtualLog.{
  VirtualLog, generate_loglet_id, loglet_name, get_active_loglet, adopt, install,
}
use relos.Log.VirtualLog.Backing.{
  Absent, Backed, Active, active_of, last_id, Absent-seal_last, Backed-insert_last, Backed-extend,
}

pub loglet_name-injective : (a b : ℕ) → loglet_name a ≡ loglet_name b → a ≡ b
unfolding loglet_name text
loglet_name-injective a b e = decimal-injective a b cc

pub length-seal_last :
    (p : LogPos) (x : ChainSegment) (ss : List ChainSegment)
    → length (seal_last p ss ++ x ∷ []) ≡ suc (length ss)
unfolding seal_last
length-seal_last p x [] = refl
length-seal_last p x (s ∷ []) = refl
length-seal_last p x (s ∷ t ∷ ss) = ap suc (length-seal_last p x (t ∷ ss))

module _ {L : Type 0} {ops : Loglet L} (laws : LogletLaws ops) (factory : Text → Result L) where
  open laws use {Valid, tail, horizon, is_sealed}

  -- The local copy of the chain is the stored one, every segment is backed, and the names that
  -- `generate_loglet_id` is yet to give are free.
  pub record IsConsistent (v : VirtualLog L) : Type 0 where
    pub chain_stored : v.meta_store.chain ≡ v.chain
    pub version_stored : v.meta_store.version ≡ v.chain_version
    pub backed : Backed laws log_pos_begin v.chain.segments v.loglets
    pub names_free : (k : ℕ) → length v.chain.segments ≤ k → Absent (loglet_name k) v.chain.segments

  -- What the factory returns: a new loglet, empty and open.
  pub record IsNew (l : L) : Type 0 where
    pub valid : Valid l
    pub empty : tail l ≡ 1
    pub opened : is_sealed l ≡ false
    pub untrimmed : horizon l ≡ 1

  unfoldable pub active :
      (v : VirtualLog L) → IsConsistent v → Active laws v.chain.segments v.loglets
  active v c = active_of laws log_pos_begin v.chain.segments v.loglets c.backed

  unfoldable pub global_tail : (v : VirtualLog L) → IsConsistent v → LogPos
  unfolding active
  global_tail v c = last_start v.chain.segments + tail (active v c).loglet - 1

  pub get_active_loglet-eq :
      (v : VirtualLog L) (c : IsConsistent v)
      → get_active_loglet ops factory v
        ≡ ok (last_id v.chain.segments, (active v c).loglet, last_start v.chain.segments)
  unfolding get_active_loglet active_segment
  get_active_loglet-eq v c =
      let a = active v c in rw a.last (ground (arith, a.opened, a.backs.found, a.id, a.start))

  -- The state with the active loglet replaced.
  abbrev pub with_active : VirtualLog L → L → VirtualLog L
  with_active v l = record v { loglets = insert (last_id v.chain.segments) l v.loglets }

  pub active_bound :
      (v : VirtualLog L) (c : IsConsistent v)
      → last_start v.chain.segments + tail (active v c).loglet < 2 ^ 64
  active_bound v c = let a = active v c in rw (← a.start) a.backs.bound

  pub with_active-IsConsistent :
      (v : VirtualLog L) (c : IsConsistent v) (l : L)
      → Valid l
      → last_start v.chain.segments + tail l < 2 ^ 64
      → horizon l ≤ tail l
      → IsConsistent (with_active v l)
  with_active-IsConsistent v c l h b r = record {
    chain_stored = c.chain_stored;
    version_stored = c.version_stored;
    backed = Backed-insert_last laws log_pos_begin v.chain.segments v.loglets l c.backed h b r;
    names_free = c.names_free;
  }

  pub active-with_active :
      (v : VirtualLog L) (c : IsConsistent v) (l : L) (c' : IsConsistent (with_active v l))
      → (active (with_active v l) c').loglet ≡ l
  active-with_active v c l c' =
      let a = active (with_active v l) c' in
      cc (a.backs.found, a.id, lookup-insert_self (last_id v.chain.segments) l v.loglets)

  -- The state after a new segment is installed at `p`, backed by the new loglet `l`.
  abbrev pub installed : VirtualLog L → LogPos → L → VirtualLog L
  installed v p l =
      let id = generate_loglet_id v.chain in
      record {
        meta_store = record { chain = extend v.chain p id; version = add64 v.meta_store.version 1 };
        chain = extend v.chain p id;
        chain_version = add64 v.chain_version 1;
        loglets = insert id l v.loglets;
      }

  pub install-eq :
      (v : VirtualLog L) (p : LogPos) (l : L)
      → IsConsistent v
      → factory (generate_loglet_id v.chain) ≡ ok l
      → install ops factory p v ≡ (ok tt, installed v p l)
  unfolding install adopt MetaStore.write
  install-eq v p l c made =
      rw ((==_iff v.meta_store.version v.chain_version).1 c.version_stored) (rw made)

  pub installed-IsConsistent :
      (v : VirtualLog L) (p : LogPos) (l : L) (c : IsConsistent v)
      → is_sealed (active v c).loglet ≡ true
      → last_start v.chain.segments + tail (active v c).loglet ≡ p + 1
      → IsNew l
      → p + 1 < 2 ^ 64
      → IsConsistent (installed v p l)
  unfolding extend generate_loglet_id active
  installed-IsConsistent v p l c s at n b =
      let ss = v.chain.segments in
      let id = loglet_name (length ss) in
      record {
        chain_stored = refl;
        version_stored = rw c.version_stored;
        backed =
            Backed-extend laws log_pos_begin p id ss v.loglets l c.backed
              (c.names_free (length ss) (omega arith)) s at n.valid (omega (arith, n.empty))
              (omega (arith, n.empty, n.untrimmed));
        names_free = λ k more.
            let more' : suc (length ss) ≤ k =
              rw (← length-seal_last p (open_segment p id) ss) more in
            Absent-seal_last laws (loglet_name k) p id ss (c.names_free k (omega arith))
              (λ e. absurd (omega (arith, loglet_name-injective k (length ss) e)));
      }
