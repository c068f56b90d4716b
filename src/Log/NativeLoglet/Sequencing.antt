-- ===== src/Log/NativeLoglet/Sequencing.antt =====
-- The positions that a sequencer gives out.
use relos.Prelude.{
  ℕ, zero, suc, ◌+◌, ◌<◌, ◌^◌, ◌≡◌, refl, ap, ◌∙◌, true, false, none, some, List, [], ◌∷◌, arith,
  length,
}
use relos.Prelude.Words.{add64-eq}
use relos.Core.{LogPos}
use relos.Log.NativeLoglet.{
  SequencerRequest, next_pos, seal, check_tail, SequencerReply, assigned, tail_at, sequence,
  sequence_all,
}

-- The positions among the replies.
unfoldable pub positions : List SequencerReply → List LogPos
positions [] = []
positions (assigned none ∷ rs) = positions rs
positions (assigned (some p) ∷ rs) = p ∷ positions rs
positions (tail_at p ∷ rs) = positions rs

-- How many positions are asked for before the first seal.
unfoldable pub asked : List SequencerRequest → ℕ
asked [] = 0
asked (next_pos ∷ qs) = suc (asked qs)
asked (seal ∷ qs) = 0
asked (check_tail ∷ qs) = asked qs

-- `n` positions from `p` on.
unfoldable pub consecutive : LogPos → ℕ → List LogPos
consecutive p zero = []
consecutive p (suc n) = p ∷ consecutive (p + 1) n

sealed_for_good :
    (qs : List SequencerRequest) (p : LogPos)
    → (positions (sequence_all qs (record { next_pos = p; is_sealed = true })).0 ≡ [])
      × ((sequence_all qs (record { next_pos = p; is_sealed = true })).1
          ≡ record { next_pos = p; is_sealed = true })
unfolding sequence_all sequence positions
sealed_for_good [] p = (refl, refl)
sealed_for_good (next_pos ∷ qs) p = sealed_for_good qs p
sealed_for_good (seal ∷ qs) p = sealed_for_good qs p
sealed_for_good (check_tail ∷ qs) p = sealed_for_good qs p

-- Whatever the requests, an open sequencer gives out the consecutive positions from its next one,
-- one for each position asked for before the first seal and none after it, and its next position
-- is then the one after the last. (The positions fit in a word.)
pub sequence_all_lem :
    (qs : List SequencerRequest) (p : LogPos)
    → p + length qs < 2 ^ 64
    → (positions (sequence_all qs (record { next_pos = p; is_sealed = false })).0
        ≡ consecutive p (asked qs))
      × ((sequence_all qs (record { next_pos = p; is_sealed = false })).1.next_pos ≡ p + asked qs)
unfolding sequence_all sequence positions consecutive asked
sequence_all_lem [] p b = (refl, omega arith)
sequence_all_lem (next_pos ∷ qs) p b =
    let h = sequence_all_lem qs (p + 1) (omega arith) in
    rw (add64-eq p 1 (omega arith)) (ap (λ r. p ∷ r) h.0, h.1 ∙ omega arith)
sequence_all_lem (seal ∷ qs) p b =
    let h = sealed_for_good qs p in (h.0, ap (λ s. s.next_pos) h.1 ∙ omega arith)
sequence_all_lem (check_tail ∷ qs) p b = sequence_all_lem qs p (omega arith)
