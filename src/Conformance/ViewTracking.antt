-- ===== src/Conformance/ViewTracking.antt =====
-- A test of crates/relos-engine/src/view_tracking.rs; the others decode what bincode has written.
use relos.Prelude.{Option, none, some, List, [], ◌≡◌, refl, false, ◌==◌, Bool}
use relos.Core.{LogPos, ServerId, Result, ok, ◌>>=◌}
use relos.Engine.ViewTracking.{Views, set_view, least, trim_prefix}
use relos.Conformance.{run_on, observe, assert_that}

abbrev is_position : LogPos → Option LogPos → Bool
is_position p none = false
is_position p (some q) = q == p

abbrev views : List (ServerId × LogPos)
views = set_view 3 15 (set_view 2 5 (set_view 1 10 []))

abbrev pub test_view_tracking_computes_min_trim_prefix : Result (Unit {0})
test_view_tracking_computes_min_trim_prefix =
    run_on {S = Views} (ok (record { positions = views; locked = false }))
      do prefix ← observe trim_prefix; assert_that (is_position 5 prefix)

tests_pass : test_view_tracking_computes_min_trim_prefix ≡ ok tt
unfolding set_view least trim_prefix
tests_pass = refl
