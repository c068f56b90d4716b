-- ===== src/Conformance/MetaStore.antt =====
-- The tests of crates/relos-log/src/metastore.rs.
use relos.Prelude.{Bool, true, false, List, [], ◌∷◌, ◌≡◌, refl, ◌==◌, length}
use relos.Prelude.Words.{add64}
use relos.Prelude.Bytes.{Text, text, bytes_eq}
use relos.Core.{Result, ok, ◌>>=◌, ◌>>◌}
use relos.Log.Chain
use relos.Log.Chain.{ChainSegment, extend, seal_last}
use relos.Log.MetaStore
use relos.Conformance.{run_on, unwrap, look, assert_that}

abbrev not : Bool → Bool
not true = false
not false = true

abbrev first_is : Text → List ChainSegment → Bool
first_is id [] = false
first_is id (s ∷ ss) = bytes_eq s.loglet_id id

abbrev pub test_read_initial : Result (Unit {0})
test_read_initial = run_on (ok (MetaStore.new (Chain.new (text "loglet-0")))) do
  stored ← look MetaStore.read
  assert_that (stored.1 == 0)
  assert_that (length stored.0.segments == 1)
  assert_that (first_is (text "loglet-0") stored.0.segments)

abbrev pub test_write_success : Result (Unit {0})
test_write_success = run_on (ok (MetaStore.new (Chain.new (text "loglet-0")))) do
  success ← unwrap (MetaStore.write (extend (Chain.new (text "loglet-0")) 5 (text "loglet-1")) 0)
  assert_that success
  stored ← look MetaStore.read
  assert_that (stored.1 == 1)
  assert_that (length stored.0.segments == 2)

abbrev pub test_write_cas_failure : Result (Unit {0})
test_write_cas_failure = run_on (ok (MetaStore.new (Chain.new (text "loglet-0")))) do
  first ← unwrap (MetaStore.write (extend (Chain.new (text "loglet-0")) 5 (text "loglet-1")) 0)
  assert_that first
  success ← unwrap (MetaStore.write (extend (Chain.new (text "loglet-0")) 3 (text "loglet-2")) 0)
  assert_that (not success)
  stored ← look MetaStore.read
  assert_that (stored.1 == 1)

abbrev pub test_sequential_writes : Result (Unit {0})
test_sequential_writes = run_on (ok (MetaStore.new (Chain.new (text "loglet-0")))) do
  first ← unwrap (MetaStore.write (extend (Chain.new (text "loglet-0")) 5 (text "loglet-1")) 0)
  assert_that first
  second ← unwrap (
      MetaStore.write
        (extend (extend (Chain.new (text "loglet-0")) 5 (text "loglet-1")) 10 (text "loglet-2")) 1)
  assert_that second
  stored ← look MetaStore.read
  assert_that (stored.1 == 2)
  assert_that (length stored.0.segments == 3)

tests_pass :
    (test_read_initial ≡ ok tt)
    × (test_write_success ≡ ok tt)
    × (test_write_cas_failure ≡ ok tt)
    × (test_sequential_writes ≡ ok tt)
unfolding MetaStore.new MetaStore.read MetaStore.write Chain.new extend seal_last text bytes_eq
    add64
tests_pass = (refl, refl, refl, refl)
