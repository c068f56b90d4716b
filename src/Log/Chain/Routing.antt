-- ===== src/Log/Chain/Routing.antt =====
-- The invariant of a chain, and that each position belongs to exactly one segment.
use relos.Prelude.{
  ℕ, ◌+◌, ◌≤◌, ◌<◌, ◌≡◌, true, false, none, some, List, [], ◌∷◌, arith, ltb, inl, inr, sym, ◌∙◌,
  Bool-cases, if◌then◌else◌,
}
use relos.Core.{LogPos, log_pos_begin}
use relos.Log.Chain.{ChainSegment, LogChain, contains, find_in, find_segment}

-- The segments lie end to end from `start`, and exactly the last is open.
abbrev pub EndToEnd : LogPos → List ChainSegment → Type 0
EndToEnd start [] = ⊥
EndToEnd start (s ∷ []) = (s.start_pos ≡ start) × (s.end_pos ≡ none)
EndToEnd start (s ∷ t ∷ ss) =
    (s.start_pos ≡ start)
    × ((e : LogPos) × (s.end_pos ≡ some e) × (start ≤ e) × EndToEnd e (t ∷ ss))

abbrev pub IsWellFormed : LogChain → Type 0
IsWellFormed c = EndToEnd log_pos_begin c.segments

-- How many segments hold a position.
unfoldable pub holders : List ChainSegment → LogPos → ℕ
holders [] p = 0
holders (s ∷ ss) p = (if contains s p then 1 else 0) + holders ss p

pub holders_below :
    (start p : LogPos) (ss : List ChainSegment) → EndToEnd start ss → p < start → holders ss p ≡ 0
unfolding holders
holders_below start p [] h lt = absurd h
holders_below start p (s ∷ []) h lt = ground arith
holders_below start p (s ∷ t ∷ ss) h lt = ground (arith, holders_below h.1.0 p (t ∷ ss) h.1.3)

holders_once :
    (start p : LogPos) (ss : List ChainSegment) → EndToEnd start ss → start ≤ p → holders ss p ≡ 1
unfolding holders
holders_once start p [] h le = absurd h
holders_once start p (s ∷ []) h le = ground arith
holders_once start p (s ∷ t ∷ ss) h le = elim (Bool-cases (ltb p h.1.0)) [
  | inl below ↦ ground (arith, holders_below h.1.0 p (t ∷ ss) h.1.3)
  | inr above ↦ ground (arith, holders_once h.1.0 p (t ∷ ss) h.1.3)
]

holders-cons_skip :
    (s : ChainSegment) (ss : List ChainSegment) (p : LogPos)
    → contains s p ≡ false
    → holders (s ∷ ss) p ≡ holders ss p
unfolding holders
holders-cons_skip s ss p h = rw h (omega arith)

find_in-cons_skip :
    (s : ChainSegment) (ss : List ChainSegment) (p : LogPos)
    → contains s p ≡ false
    → find_in (s ∷ ss) p ≡ find_in ss p
unfolding find_in
find_in-cons_skip s ss p h = rw h

find_in-contains :
    (ss : List ChainSegment) (p : LogPos)
    → holders ss p ≡ 1
    → (s : ChainSegment) × (find_in ss p ≡ some s) × (contains s p ≡ true)
unfolding holders find_in
find_in-contains [] p h = absurd (omega arith)
find_in-contains (s ∷ ss) p h = elim (Bool-cases (contains s p)) [
  | inl held ↦ (s, rw held, held)
  | inr skipped ↦
      let (t, found, held) = find_in-contains ss p (sym (holders-cons_skip s ss p skipped) ∙ h) in
      (t, find_in-cons_skip s ss p skipped ∙ found, held)
]

-- In a well-formed chain every position from the first on is held by exactly one segment, and
-- `find_segment` returns a segment that holds it.
pub find_segment_unique :
    (c : LogChain) (p : LogPos)
    → IsWellFormed c
    → log_pos_begin ≤ p
    → (holders c.segments p ≡ 1)
      × ((s : ChainSegment) × (find_segment c p ≡ some s) × (contains s p ≡ true))
unfolding find_segment
find_segment_unique c p h le =
    let one : holders c.segments p ≡ 1 = holders_once log_pos_begin p c.segments h le in
    (one, find_in-contains c.segments p one)
