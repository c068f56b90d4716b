-- ===== src/Log/Chain.antt =====
-- crates/relos-log/src/chain.rs: the chain of segments, each a range of global positions.
pub mod Routing
pub mod Extension
use relos.Prelude.{
  ℕ, ◌≡◌, Bool, true, false, ◌&&◌, Option, none, some, List, [], ◌∷◌, ◌++◌, leb, ltb, last?,
  if◌then◌else◌,
}
use relos.Prelude.Bytes.{Text}
use relos.Core.{LogPos, log_pos_begin}

pub record ChainSegment : Type 0 where
  pub loglet_id : Text
  pub start_pos : LogPos
  pub end_pos : Option LogPos

pub record LogChain : Type 0 where
  pub segments : List ChainSegment

abbrev pub open_segment : LogPos → Text → ChainSegment
open_segment start id = record { loglet_id = id; start_pos = start; end_pos = none }

-- `LogChain::new`
unfoldable pub new : Text → LogChain
new initial_loglet_id = record { segments = open_segment log_pos_begin initial_loglet_id ∷ [] }

-- `Option::is_none`, and `Option::filter` on the last segment
abbrev pub is_open : ChainSegment → Bool
is_open s = elim s.end_pos [ none ↦ true | some _ ↦ false ]

abbrev pub filter_open : Option ChainSegment → Option ChainSegment
filter_open none = none
filter_open (some s) = if is_open s then some s else none

unfoldable pub active_segment : LogChain → Option ChainSegment
active_segment c = filter_open (last? c.segments)

abbrev pub before_end : LogPos → Option LogPos → Bool
before_end p none = true
before_end p (some e) = ltb p e

abbrev pub contains : ChainSegment → LogPos → Bool
contains s p = leb s.start_pos p && before_end p s.end_pos

unfoldable pub find_in : List ChainSegment → LogPos → Option ChainSegment
find_in [] p = none
find_in (s ∷ ss) p = if contains s p then some s else find_in ss p

unfoldable pub find_segment : LogChain → LogPos → Option ChainSegment
find_segment c p = find_in c.segments p

-- `last.end_pos = Some(seal_pos)` on the last segment, if that is open
unfoldable pub seal_last : LogPos → List ChainSegment → List ChainSegment
seal_last p [] = []
seal_last p (s ∷ []) = (if is_open s then record s { end_pos = some p } else s) ∷ []
seal_last p (s ∷ t ∷ ss) = s ∷ seal_last p (t ∷ ss)

unfoldable pub extend : LogChain → LogPos → Text → LogChain
unfolding seal_last
extend c seal_pos new_loglet_id = record {
  segments = seal_last seal_pos c.segments ++ open_segment seal_pos new_loglet_id ∷ [];
}
