-- ===== src/Conformance/Chain.antt =====
-- The tests of crates/relos-log/src/chain.rs.
use relos.Prelude.{Bool, true, false, Option, none, some, ◌≡◌, refl, ◌==◌, length, get_elem?}
use relos.Prelude.Bytes.{Text, text, bytes_eq}
use relos.Core.{LogPos, log_pos_begin, Result, ok, modify, ◌>>=◌, ◌>>◌}
use relos.Log.Chain
use relos.Log.Chain.{ChainSegment, active_segment, find_segment, find_in, extend, seal_last}
use relos.Conformance.{run_on, observe, assert_that}

-- What the tests assert of a segment that is there.
abbrev has_id : Text → Option ChainSegment → Bool
has_id id none = false
has_id id (some s) = bytes_eq s.loglet_id id

abbrev starts_at : LogPos → Option ChainSegment → Bool
starts_at p none = false
starts_at p (some s) = s.start_pos == p

abbrev same_end : Option LogPos → Option LogPos → Bool
same_end none none = true
same_end none (some e) = false
same_end (some e) none = false
same_end (some e) (some e') = e == e'

abbrev ends_at : Option LogPos → Option ChainSegment → Bool
ends_at p none = false
ends_at p (some s) = same_end s.end_pos p

abbrev pub test_new_chain : Result (Unit {0})
test_new_chain = run_on (ok (Chain.new (text "loglet-0"))) do
  segments ← observe (λ c. length c.segments)
  assert_that (segments == 1)
  segment ← observe (λ c. get_elem? c.segments 0)
  assert_that (has_id (text "loglet-0") segment)
  assert_that (starts_at log_pos_begin segment)
  assert_that (ends_at none segment)

abbrev pub test_active_segment : Result (Unit {0})
test_active_segment =
    run_on (ok (Chain.new (text "loglet-0")))
      do active ← observe active_segment; assert_that (has_id (text "loglet-0") active)

abbrev pub test_find_segment_single : Result (Unit {0})
test_find_segment_single = run_on (ok (Chain.new (text "loglet-0"))) do
  seg1 ← observe (λ c. find_segment c 1)
  assert_that (has_id (text "loglet-0") seg1)
  seg100 ← observe (λ c. find_segment c 100)
  assert_that (has_id (text "loglet-0") seg100)

abbrev pub test_extend : Result (Unit {0})
test_extend = run_on (ok (Chain.new (text "loglet-0"))) do
  modify (λ c. extend c 5 (text "loglet-1"))
  segments ← observe (λ c. length c.segments)
  assert_that (segments == 2)
  first ← observe (λ c. get_elem? c.segments 0)
  second ← observe (λ c. get_elem? c.segments 1)
  assert_that (ends_at (some 5) first)
  assert_that (starts_at 5 second)
  assert_that (ends_at none second)

abbrev pub test_find_segment_after_extend : Result (Unit {0})
test_find_segment_after_extend = run_on (ok (Chain.new (text "loglet-0"))) do
  modify (λ c. extend c 5 (text "loglet-1"))
  seg1 ← observe (λ c. find_segment c 1)
  assert_that (has_id (text "loglet-0") seg1)
  seg4 ← observe (λ c. find_segment c 4)
  assert_that (has_id (text "loglet-0") seg4)
  seg5 ← observe (λ c. find_segment c 5)
  assert_that (has_id (text "loglet-1") seg5)
  seg100 ← observe (λ c. find_segment c 100)
  assert_that (has_id (text "loglet-1") seg100)

abbrev pub test_active_segment_after_extend : Result (Unit {0})
test_active_segment_after_extend = run_on (ok (Chain.new (text "loglet-0"))) do
  modify (λ c. extend c 5 (text "loglet-1"))
  active ← observe active_segment
  assert_that (has_id (text "loglet-1") active)

abbrev pub test_multiple_extends : Result (Unit {0})
test_multiple_extends = run_on (ok (Chain.new (text "loglet-0"))) do
  modify (λ c. extend c 5 (text "loglet-1"))
  modify (λ c. extend c 10 (text "loglet-2"))
  segments ← observe (λ c. length c.segments)
  assert_that (segments == 3)
  seg3 ← observe (λ c. find_segment c 3)
  assert_that (has_id (text "loglet-0") seg3)
  seg7 ← observe (λ c. find_segment c 7)
  assert_that (has_id (text "loglet-1") seg7)
  seg15 ← observe (λ c. find_segment c 15)
  assert_that (has_id (text "loglet-2") seg15)

tests_pass :
    (test_new_chain ≡ ok tt)
    × (test_active_segment ≡ ok tt)
    × (test_find_segment_single ≡ ok tt)
    × (test_extend ≡ ok tt)
    × (test_find_segment_after_extend ≡ ok tt)
    × (test_active_segment_after_extend ≡ ok tt)
    × (test_multiple_extends ≡ ok tt)
unfolding Chain.new active_segment find_segment find_in extend seal_last text bytes_eq
tests_pass = (refl, refl, refl, refl, refl, refl, refl)
