-- ===== src/Log/VirtualLog/Visibility.antt =====
-- Which positions of a consistent virtual log show an entry.
use relos.Prelude.{
  ◌+◌, ◌-◌, ◌<◌, ◌≤◌, ◌^◌, ◌≡◌, sym, ◌∙◌, none, some, List, [], ◌∷◌, arith, ltb, Bool-cases, inl,
  inr,
}
use relos.Prelude.Bytes.{Text}
use relos.Core.{LogPos, log_pos_begin, Entry, Result, ok}
use relos.Log.Loglet.{Loglet, LogletLaws}
use relos.Log.Chain.{ChainSegment, find_in, find_segment}
use relos.Log.Chain.Routing.{EndToEnd}
use relos.Log.Chain.Extension.{last_start, target}
use relos.Log.VirtualLog.{VirtualLog, read}
use relos.Log.VirtualLog.Backing.{Backed-EndToEnd}
use relos.Log.VirtualLog.Consistency.{IsConsistent, active, global_tail}
use relos.Log.VirtualLog.Reading.{read-eq-read_at}
use relos.Log.VirtualLog.Stability.{read_active}

find_in-before :
    (start q : LogPos) (ss : List ChainSegment)
    → EndToEnd start ss
    → q < start
    → target (find_in ss q) ≡ none
unfolding find_in
find_in-before start q [] h lt = ground arith
find_in-before start q (s ∷ []) h lt = ground (arith, h.0)
find_in-before start q (s ∷ t ∷ ss) h lt =
    let later = find_in-before h.1.0 q (t ∷ ss) h.1.3 (omega (arith, h.1.2)) in
    ground (arith, h.0, later)

module _ {L : Type 0} {ops : Loglet L} (laws : LogletLaws ops) (factory : Text → Result L) where
  open laws use {tail}

  -- A position before the first is held by no segment.
  shown-from_first :
      (v : VirtualLog L) (q : LogPos) (e : Entry)
      → IsConsistent laws factory v
      → read ops factory q v ≡ ok (some e)
      → 1 ≤ q
  unfolding find_segment
  shown-from_first v q e c found = elim (Bool-cases (ltb q 1)) [
    | inr from ↦ ground (arith, from)
    | inl before ↦
        let nowhere =
          find_in-before log_pos_begin q v.chain.segments
            (Backed-EndToEnd laws log_pos_begin v.chain.segments v.loglets c.backed)
            (ground (arith, before)) in
        let shown = sym (read-eq-read_at laws factory q v) ∙ found in
        absurd (cc (rw nowhere at shown))
  ]

  -- A position at which an entry is read is one of the log: from the first up to the tail.
  pub shown-within :
      (v : VirtualLog L) (c : IsConsistent laws factory v) (q : LogPos) (e : Entry)
      → q < 2 ^ 64
      → read ops factory q v ≡ ok (some e)
      → (1 ≤ q) × (q < global_tail laws factory v c)
  unfolding global_tail
  shown-within v c q e word found =
      let a = active laws factory v c in
      elim (Bool-cases (ltb q (last_start v.chain.segments))) [
        | inl earlier ↦ (
          shown-from_first v q e c found,
          ground (arith, earlier, laws.tail_pos a.loglet a.backs.valid),
        )
        | inr last ↦
            let le : last_start v.chain.segments ≤ q = ground (arith, last) in
            let below =
              laws.read_shown a.loglet (q - last_start v.chain.segments + 1) e a.backs.valid
                (sym (read_active laws factory v c q le word) ∙ found) in
            (shown-from_first v q e c found, omega (arith, below, le))
      ]
