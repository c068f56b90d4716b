-- ===== src/Conformance/NativeLoglet.antt =====
-- The tests of crates/relos-log/src/native_loglet.rs but those that need several tasks at once or two loglets.
use relos.Prelude.{◌≡◌, refl, ◌==◌}
use relos.Prelude.Bytes.{text, bytes_eq}
use relos.Prelude.Words.{add64}
use relos.Prelude.Dict.{lookup, insert}
use relos.Core
use relos.Core.{Result, ok, with_header, get_header, Exec, ◌>>=◌, ◌>>◌}
use relos.Conformance.{
  run_on, unwrap, attempt, observe, look, assert_that, is_none, has_payload, has_header,
  is_sealed_at, is_trimmed_at,
}
use relos.Log.NativeLoglet.{sequence, serve, entry_at, read_at, remove_below}
use relos.Log.NativeLoglet.Operations.{
  new, with_defaults, append, append_at, check_tail, read, read_from, seal, trim, fan_out,
  fan_out_store, fan_out_seal, fan_out_trim, count_acks, count_sealed, acknowledge, conclude,
  all_done,
}

abbrev pub test_append_and_read : Result (Unit {0})
test_append_and_read = run_on (with_defaults) do
  pos ← unwrap (append (Core.new (text "hello")))
  assert_that (pos == 1)
  read_entry ← look (read pos)
  assert_that (has_payload (text "hello") read_entry)

abbrev pub test_append_multiple : Result (Unit {0})
test_append_multiple = run_on (with_defaults) do
  pos1 ← unwrap (append (Core.new (text "a")))
  pos2 ← unwrap (append (Core.new (text "b")))
  pos3 ← unwrap (append (Core.new (text "c")))
  assert_that (pos1 == 1)
  assert_that (pos2 == 2)
  assert_that (pos3 == 3)
  e1 ← look (read 1)
  assert_that (has_payload (text "a") e1)
  e2 ← look (read 2)
  assert_that (has_payload (text "b") e2)
  e3 ← look (read 3)
  assert_that (has_payload (text "c") e3)

abbrev pub test_seal_blocks_appends : Result (Unit {0})
test_seal_blocks_appends = run_on (with_defaults) do
  unwrap (append (Core.new (text "a")))
  seal_pos ← unwrap seal
  assert_that (seal_pos == 2)
  result ← attempt (append (Core.new (text "b")))
  assert_that (is_sealed_at 2 result)

abbrev pub test_seal_returns_correct_tail : Result (Unit {0})
test_seal_returns_correct_tail = run_on (with_defaults) do
  unwrap (append (Core.new (text "x")))
  unwrap (append (Core.new (text "y")))
  tail ← unwrap seal
  assert_that (tail == 3)

abbrev pub test_read_after_seal : Result (Unit {0})
test_read_after_seal = run_on (with_defaults) do
  unwrap (append (Core.new (text "a")))
  unwrap seal
  e1 ← look (read 1)
  assert_that (has_payload (text "a") e1)

abbrev pub test_quorum_write : Result (Unit {0})
test_quorum_write = run_on (new 3) do
  pos ← unwrap (append (Core.new (text "quorum")))
  assert_that (pos == 1)
  entry ← look (read pos)
  assert_that (has_payload (text "quorum") entry)

abbrev pub test_trim : Result (Unit {0})
test_trim = run_on (with_defaults) do
  unwrap (append (Core.new (text "a")))
  unwrap (append (Core.new (text "b")))
  unwrap (append (Core.new (text "c")))
  unwrap (trim 3)
  r1 ← observe (read 1)
  assert_that (is_trimmed_at 1 r1)
  r2 ← observe (read 2)
  assert_that (is_trimmed_at 2 r2)
  e3 ← look (read 3)
  assert_that (has_payload (text "c") e3)

abbrev pub test_check_tail : Result (Unit {0})
test_check_tail = run_on (with_defaults) do
  tail1 ← look check_tail
  assert_that (tail1 == 1)
  unwrap (append (Core.new (text "a")))
  tail2 ← look check_tail
  assert_that (tail2 == 2)
  unwrap (append (Core.new (text "b")))
  tail3 ← look check_tail
  assert_that (tail3 == 3)

abbrev pub test_read_beyond_tail_returns_none : Result (Unit {0})
test_read_beyond_tail_returns_none = run_on (with_defaults) do
  e1 ← look (read 1)
  assert_that (is_none e1)
  e100 ← look (read 100)
  assert_that (is_none e100)

abbrev pub test_entry_with_headers : Result (Unit {0})
test_entry_with_headers = run_on (with_defaults) do
  pos ←
      unwrap
        (append (with_header (Core.new (text "payload")) (text "engine1") (text "header_data")))
  read_entry ← look (read pos)
  assert_that (has_payload (text "payload") read_entry)
  assert_that (has_header (text "engine1") (text "header_data") read_entry)

abbrev pub test_single_server : Result (Unit {0})
test_single_server = run_on (new 1) do
  pos ← unwrap (append (Core.new (text "solo")))
  assert_that (pos == 1)
  entry ← look (read pos)
  assert_that (has_payload (text "solo") entry)
  tail ← unwrap seal
  assert_that (tail == 2)

abbrev pub test_five_servers : Result (Unit {0})
test_five_servers = run_on (new 5) do
  unwrap (append (Core.new (text "a")))
  unwrap (append (Core.new (text "b")))
  e1 ← look (read 1)
  assert_that (has_payload (text "a") e1)
  e2 ← look (read 2)
  assert_that (has_payload (text "b") e2)
  tail ← unwrap seal
  assert_that (tail == 3)

tests_pass :
    (test_append_and_read ≡ ok tt)
    × (test_append_multiple ≡ ok tt)
    × (test_seal_blocks_appends ≡ ok tt)
    × (test_seal_returns_correct_tail ≡ ok tt)
    × (test_read_after_seal ≡ ok tt)
    × (test_quorum_write ≡ ok tt)
    × (test_trim ≡ ok tt)
    × (test_check_tail ≡ ok tt)
    × (test_read_beyond_tail_returns_none ≡ ok tt)
    × (test_entry_with_headers ≡ ok tt)
    × (test_single_server ≡ ok tt)
    × (test_five_servers ≡ ok tt)
unfolding new with_defaults append append_at fan_out fan_out_store fan_out_seal fan_out_trim
    count_acks count_sealed acknowledge conclude check_tail read read_from read_at seal trim
    all_done sequence serve entry_at remove_below add64 text bytes_eq get_header with_header lookup
    insert
tests_pass = (refl, refl, refl, refl, refl, refl, refl, refl, refl, refl, refl, refl)
