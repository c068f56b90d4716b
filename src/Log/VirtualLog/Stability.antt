-- ===== src/Log/VirtualLog/Stability.antt =====
-- What the virtual log reads after its active loglet is replaced, and after a segment is installed.
use relos.Prelude.{
  ◌+◌, ◌-◌, ◌<◌, ◌≤◌, ◌^◌, ◌≡◌, refl, sym, ◌∙◌, ap, Option, some, List, [], ◌∷◌, ◌++◌, arith,
  length, ltb, Bool-cases, inl, inr,
}
use relos.Prelude.Bytes.{Text}
use relos.Prelude.Dict.{lookup, insert, lookup-insert_self}
use relos.Core.{LogPos, log_pos_begin, Result}
use relos.Log.Loglet.{Loglet, LogletLaws}
use relos.Log.Chain.{ChainSegment, open_segment, seal_last, find_in, find_segment, extend}
use relos.Log.Chain.Extension.{last_start, start-le-last_start, target, target-find_in-extend}
use relos.Log.VirtualLog.{VirtualLog, generate_loglet_id, loglet_name, read}
use relos.Log.VirtualLog.Backing.{last_id, Backed-EndToEnd}
use relos.Log.VirtualLog.Reading.{
  global_to_local-eq, read_at, read-eq-read_at, read_in-insert_last, read_in_last,
  read_in-insert_new,
}
use relos.Log.VirtualLog.Consistency.{
  IsConsistent, active, global_tail, with_active, active_bound, installed,
}

pub last_start-seal_last :
    (p : LogPos) (id : Text) (ss : List ChainSegment)
    → last_start (seal_last p ss ++ open_segment p id ∷ []) ≡ p
unfolding seal_last
last_start-seal_last p id [] = refl
last_start-seal_last p id (s ∷ []) = refl
last_start-seal_last p id (s ∷ t ∷ []) = refl
last_start-seal_last p id (s ∷ t ∷ u ∷ ss) = last_start-seal_last p id (t ∷ u ∷ ss)

pub last_id-seal_last :
    (p : LogPos) (id : Text) (ss : List ChainSegment)
    → last_id (seal_last p ss ++ open_segment p id ∷ []) ≡ id
unfolding seal_last
last_id-seal_last p id [] = refl
last_id-seal_last p id (s ∷ []) = refl
last_id-seal_last p id (s ∷ t ∷ []) = refl
last_id-seal_last p id (s ∷ t ∷ u ∷ ss) = last_id-seal_last p id (t ∷ u ∷ ss)

module _ {L : Type 0} {ops : Loglet L} (laws : LogletLaws ops) (factory : Text → Result L) where
  open laws use {Valid, tail, horizon, is_sealed}

  pub active_found :
      (v : VirtualLog L) (c : IsConsistent laws factory v)
      → lookup (last_id v.chain.segments) v.loglets ≡ some (active laws factory v c).loglet
  active_found v c = let a = active laws factory v c in rw (← a.id) a.backs.found

  pub active-installed :
      (v : VirtualLog L) (p : LogPos) (l : L)
      (c : IsConsistent laws factory (installed laws factory v p l))
      → (active laws factory (installed laws factory v p l) c).loglet ≡ l
  unfolding extend
  active-installed v p l c = cc (
    active_found (installed laws factory v p l) c,
    last_id-seal_last p (generate_loglet_id v.chain) v.chain.segments,
    lookup-insert_self (generate_loglet_id v.chain) l v.loglets,
  )

  -- A position of the last segment is read from the active loglet.
  pub read_active :
      (v : VirtualLog L) (c : IsConsistent laws factory v) (q : LogPos)
      → last_start v.chain.segments ≤ q
      → q < 2 ^ 64
      → read ops factory q v
        ≡ ops.read (q - last_start v.chain.segments + 1) (active laws factory v c).loglet
  unfolding find_segment
  read_active v c q le b =
      let ss = v.chain.segments in
      read-eq-read_at laws factory q v
      ∙ read_in_last laws log_pos_begin q ss v.loglets (active laws factory v c).loglet
          (Backed-EndToEnd laws log_pos_begin ss v.loglets c.backed) le (active_found v c)
      ∙ ap (λ (i : LogPos). ops.read i (active laws factory v c).loglet)
          (global_to_local-eq (last_start ss) q
            (start-le-last_start log_pos_begin ss
              (Backed-EndToEnd laws log_pos_begin ss v.loglets c.backed))
            le b)

  read-with_active_earlier :
      (v : VirtualLog L) (c : IsConsistent laws factory v) (l : L) (q : LogPos)
      → 1 ≤ q
      → q < last_start v.chain.segments
      → read ops factory q (with_active laws factory v l) ≡ read ops factory q v
  unfolding find_segment
  read-with_active_earlier v c l q le lt =
      read-eq-read_at laws factory q (with_active laws factory v l)
      ∙ read_in-insert_last laws log_pos_begin q v.chain.segments v.loglets l c.backed le lt
      ∙ sym (read-eq-read_at laws factory q v)

  -- Replacing the active loglet by one that reads the same changes no read below the tail.
  pub read-with_active :
      (v : VirtualLog L) (c : IsConsistent laws factory v) (l : L)
      (c' : IsConsistent laws factory (with_active laws factory v l))
      → (active laws factory (with_active laws factory v l) c').loglet ≡ l
      → ((i : LogPos)
          → i < tail (active laws factory v c).loglet
          → ops.read i l ≡ ops.read i (active laws factory v c).loglet)
      → (q : LogPos) → 1 ≤ q
      → q < global_tail laws factory v c
      → read ops factory q (with_active laws factory v l) ≡ read ops factory q v
  unfolding global_tail
  read-with_active v c l c' is same q pos below =
      elim (Bool-cases (ltb q (last_start v.chain.segments))) [
        | inl earlier ↦ read-with_active_earlier v c l q pos (ground arith)
        | inr last ↦
            let le : last_start v.chain.segments ≤ q = ground arith in
            let b : q < 2 ^ 64 = omega (arith, active_bound laws factory v c) in
            read_active (with_active laws factory v l) c' q le b
            ∙ ap (λ (x : L). ops.read (q - last_start v.chain.segments + 1) x) is
            ∙ same (q - last_start v.chain.segments + 1) (omega arith)
            ∙ sym (read_active v c q le b)
      ]

  -- Installing a new segment changes no read below it.
  pub read-installed :
      (v : VirtualLog L) (c : IsConsistent laws factory v) (p : LogPos) (l : L) (q : LogPos)
      → last_start v.chain.segments ≤ p
      → q < p
      → read ops factory q (installed laws factory v p l) ≡ read ops factory q v
  unfolding find_segment extend generate_loglet_id
  read-installed v c p l q le lt =
      let ss = v.chain.segments in
      let id = loglet_name (length ss) in
      let routed : target (find_in (seal_last p ss ++ open_segment p id ∷ []) q)
          ≡ target (find_in ss q) =
        ground (
          arith,
          target-find_in-extend log_pos_begin p q id ss
              (Backed-EndToEnd laws log_pos_begin ss v.loglets c.backed) le,
        ) in
      read-eq-read_at laws factory q (installed laws factory v p l)
      ∙ ap (λ (t : Option (Text × LogPos)). read_at laws t q (insert id l v.loglets)) routed
      ∙ read_in-insert_new laws id q ss v.loglets l (c.names_free (length ss) (omega arith))
      ∙ sym (read-eq-read_at laws factory q v)
