-- ===== src/Engine/Base/Replication/Invariant.antt =====
-- The invariant of a system of engines over one log.
use relos.Prelude.{ℕ, ◌<◌, ◌^◌, ◌≡◌, arith, refl, sym, subst, ◌==◌, Bool-cases, inl, inr}
use relos.Prelude.Words.{add64}
use relos.Core.{ok_inj, LogPos, ok}
use relos.Log.Loglet.{Loglet}
use relos.Store.Map
use relos.Store.Memory.{begin_read_txn, read_get}
use relos.Engine.Interface.{Applicator}
use relos.Engine.Base.{BaseEngine, cursor_from, new}
use relos.Engine.Base.Invariants.{requested}
use relos.Engine.Base.Cursor.{CursorStored}
use relos.Engine.Base.Playback.{Machine, machine_of}
use relos.Engine.Base.Replication.{
  Keeps, Played, begin, after, Replicas, engine, with_engine, Turn, handled, restarted,
  other_client, fresh, Turns, here, next,
}
use relos.Engine.Base.Replication.Following.{IsFollower, handle-IsFollower}

module _ {L : Type 0} (log : Loglet L) (applicator : Applicator (Unit {0})) where
  -- A cursor is a word.
  pub Played-word :
      (l : L) (c : LogPos) (m : Machine log applicator) → Played log applicator l c m → c < 2 ^ 64
  unfolding add64
  Played-word l c m (begin at is) = omega (arith, at)
  Played-word l c m (after p n e rv played found acc at) = omega (arith, at)

  pub Played-Keeps :
      (l l' : L) (c : LogPos) (m : Machine log applicator)
      → Keeps log applicator l l'
      → Played log applicator l c m
      → Played log applicator l' c m
  Played-Keeps l l' c m k (begin at is) = begin at is
  Played-Keeps l l' c m k (after p n e rv played found acc at) =
      after p n e rv (Played-Keeps l l' p n k played) (k p e (Played-word l p n played) found) acc
        at

  pub IsFollower-Keeps :
      (l l' : L) (s : BaseEngine L (Unit {0}))
      → Keeps log applicator l l'
      → IsFollower log applicator l (record s { loglet = l })
      → IsFollower log applicator l' (record s { loglet = l' })
  IsFollower-Keeps l l' s k f = record {
    follows = Played-Keeps l l' s.cursor (machine_of log applicator s) k f.follows;
    cursor_stored = f.cursor_stored;
    on_log = refl;
  }

  abbrev pub AllFollow : Replicas log applicator → Type 0
  AllFollow s = (i : ℕ) → IsFollower log applicator s.shared (engine log applicator i s)

  -- An engine of the system that changed, with the log, among those that did not.
  with_engine-AllFollow :
      (i : ℕ) (u : BaseEngine L (Unit {0})) (s : Replicas log applicator)
      → Keeps log applicator s.shared u.loglet
      → IsFollower log applicator u.loglet u
      → AllFollow s
      → AllFollow (with_engine log applicator i u s)
  with_engine-AllFollow i u s k f all j = elim (Bool-cases (i == j)) [
    | inl same ↦ simp same f
    | inr other ↦ simp other (IsFollower-Keeps s.shared u.loglet (s.engines j) k (all j))
  ]

  turned-AllFollow :
      (i : ℕ) (l : L) (u : BaseEngine L (Unit {0})) (s t : Replicas log applicator)
      → Keeps log applicator s.shared l
      → IsFollower log applicator l u
      → t ≡ with_engine log applicator i u s
      → AllFollow s
      → AllFollow t
  turned-AllFollow i l u s t k f is all =
      let k' = subst (λ (m : L). Keeps log applicator s.shared m) (sym f.on_log) k in
      let f' = subst (λ (m : L). IsFollower log applicator m u) (sym f.on_log) f in
      rw is (with_engine-AllFollow i u s k' f' all)

  -- A restart finds the cursor where the engine was.
  pub new-same :
      (l : L) (s u : BaseEngine L (Unit {0}))
      → CursorStored log applicator s
      → new log applicator l s.local_store tt ≡ ok u
      → record s { loglet = l } ≡ u
  unfolding new begin_read_txn read_get
  new-same l s u c e = elim (Bool-cases s.local_store.poisoned) [
    | inl bad ↦ cc (rw bad at e)
    | inr fine ↦ ok_inj (rw c at (simp fine at e))
  ]

  pub Turn-AllFollow :
      {s t : Replicas log applicator} → Turn log applicator s t → AllFollow s → AllFollow t
  Turn-AllFollow {s} {t} (handled i fuel q x u k ran is) all =
      turned-AllFollow i (requested log q s.shared) u s t k
        (handle-IsFollower log applicator (requested log q s.shared) fuel q
          (engine log applicator i s) u x
          (IsFollower-Keeps s.shared (requested log q s.shared) (s.engines i) k (all i)) ran)
        is all
  Turn-AllFollow {s} {t} (restarted i u made is) all =
      turned-AllFollow i s.shared u s t (λ p e b h. h)
        (subst (λ (v : BaseEngine L (Unit {0})). IsFollower log applicator s.shared v)
          (new-same s.shared (s.engines i) u (all i).cursor_stored made) (all i))
        is all
  Turn-AllFollow {s} (other_client l k is) all =
      rw is (λ i. IsFollower-Keeps s.shared l (s.engines i) k (all i))

  pub Turns-AllFollow :
      (l : L) {s : Replicas log applicator}
      → Turns log applicator (fresh log applicator l) s
      → AllFollow s
  unfolding cursor_from Map.get
  Turns-AllFollow l here i = record {
    follows = begin refl refl;
    cursor_stored = refl;
    on_log = refl;
  }
  Turns-AllFollow l (next r st) i = Turn-AllFollow st (Turns-AllFollow l r) i

  Turn-Keeps :
      {s t : Replicas log applicator}
      → Turn log applicator s t
      → AllFollow s
      → Keeps log applicator s.shared t.shared
  Turn-Keeps {s} {t} (handled i fuel q x u k ran is) all =
      let f =
        handle-IsFollower log applicator (requested log q s.shared) fuel q
          (engine log applicator i s) u x
          (IsFollower-Keeps s.shared (requested log q s.shared) (s.engines i) k (all i)) ran in
      rw (is, f.on_log) k
  Turn-Keeps {s} {t} (restarted i u made is) all =
      let same = new-same s.shared (s.engines i) u (all i).cursor_stored made in
      rw (is, ← same) (λ p e b h. h)
  Turn-Keeps {s} (other_client l k is) all = rw is k

  -- What the log has shown it shows after any turns.
  pub Turns-Keeps :
      {s t : Replicas log applicator}
      → AllFollow s
      → Turns log applicator s t
      → AllFollow t × Keeps log applicator s.shared t.shared
  Turns-Keeps all here = (all, λ p e b h. h)
  Turns-Keeps all (next r st) =
      let (all', k) = Turns-Keeps all r in
      (Turn-AllFollow st all', λ p e b h. Turn-Keeps st all' p e b (k p e b h))
