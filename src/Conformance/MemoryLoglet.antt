-- ===== src/Conformance/MemoryLoglet.antt =====
-- The tests of crates/relos-log/src/memory_loglet.rs.
use relos.Prelude.{◌≡◌, refl, ◌==◌}
use relos.Prelude.Bytes.{text, bytes_eq}
use relos.Prelude.Words.{add64}
use relos.Prelude.Dict.{lookup, insert}
use relos.Core
use relos.Core.{Result, ok, with_header, get_header, Exec, ◌>>=◌, ◌>>◌}
use relos.Conformance.{
  run_on, unwrap, attempt, observe, look, assert_that, is_none, has_payload, has_header,
  is_sealed_at, is_trimmed_at,
}
use relos.Log.MemoryLoglet
use relos.Log.MemoryLoglet.{append, check_tail, read, seal, trim, clear}

abbrev pub test_append_and_read : Result (Unit {0})
test_append_and_read = run_on (ok MemoryLoglet.new) do
  pos ← unwrap (append (Core.new (text "hello")))
  assert_that (pos == 1)
  read_entry ← look (read pos)
  assert_that (has_payload (text "hello") read_entry)

abbrev pub test_append_multiple : Result (Unit {0})
test_append_multiple = run_on (ok MemoryLoglet.new) do
  pos1 ← unwrap (append (Core.new (text "a")))
  pos2 ← unwrap (append (Core.new (text "b")))
  pos3 ← unwrap (append (Core.new (text "c")))
  assert_that (pos1 == 1)
  assert_that (pos2 == 2)
  assert_that (pos3 == 3)
  e1 ← look (read 1)
  assert_that (has_payload (text "a") e1)
  e2 ← look (read 2)
  assert_that (has_payload (text "b") e2)
  e3 ← look (read 3)
  assert_that (has_payload (text "c") e3)

abbrev pub test_check_tail : Result (Unit {0})
test_check_tail = run_on (ok MemoryLoglet.new) do
  tail1 ← look check_tail
  assert_that (tail1 == 1)
  unwrap (append (Core.new (text "a")))
  tail2 ← look check_tail
  assert_that (tail2 == 2)
  unwrap (append (Core.new (text "b")))
  tail3 ← look check_tail
  assert_that (tail3 == 3)

abbrev pub test_read_beyond_tail_returns_none : Result (Unit {0})
test_read_beyond_tail_returns_none = run_on (ok MemoryLoglet.new) do
  e1 ← look (read 1)
  assert_that (is_none e1)
  e100 ← look (read 100)
  assert_that (is_none e100)

abbrev pub test_seal_blocks_appends : Result (Unit {0})
test_seal_blocks_appends = run_on (ok MemoryLoglet.new) do
  unwrap (append (Core.new (text "a")))
  seal_pos ← unwrap seal
  assert_that (seal_pos == 2)
  result ← attempt (append (Core.new (text "b")))
  assert_that (is_sealed_at 2 result)

abbrev pub test_seal_returns_tail : Result (Unit {0})
test_seal_returns_tail = run_on (ok MemoryLoglet.new) do
  unwrap (append (Core.new (text "x")))
  unwrap (append (Core.new (text "y")))
  tail ← unwrap seal
  assert_that (tail == 3)

abbrev pub test_trim : Result (Unit {0})
test_trim = run_on (ok MemoryLoglet.new) do
  unwrap (append (Core.new (text "a")))
  unwrap (append (Core.new (text "b")))
  unwrap (append (Core.new (text "c")))
  unwrap (trim 3)
  r1 ← observe (read 1)
  assert_that (is_trimmed_at 1 r1)
  r2 ← observe (read 2)
  assert_that (is_trimmed_at 2 r2)
  e3 ← look (read 3)
  assert_that (has_payload (text "c") e3)

abbrev pub test_trim_idempotent : Result (Unit {0})
test_trim_idempotent = run_on (ok MemoryLoglet.new) do
  unwrap (append (Core.new (text "a")))
  unwrap (append (Core.new (text "b")))
  unwrap (trim 2)
  unwrap (trim 2)
  unwrap (trim 1)
  r1 ← observe (read 1)
  assert_that (is_trimmed_at 1 r1)
  e2 ← look (read 2)
  assert_that (has_payload (text "b") e2)

abbrev pub test_read_after_seal : Result (Unit {0})
test_read_after_seal = run_on (ok MemoryLoglet.new) do
  unwrap (append (Core.new (text "a")))
  unwrap seal
  e1 ← look (read 1)
  assert_that (has_payload (text "a") e1)

abbrev pub test_entry_with_headers : Result (Unit {0})
test_entry_with_headers = run_on (ok MemoryLoglet.new) do
  pos ←
      unwrap
        (append (with_header (Core.new (text "payload")) (text "engine1") (text "header_data")))
  read_entry ← look (read pos)
  assert_that (has_payload (text "payload") read_entry)
  assert_that (has_header (text "engine1") (text "header_data") read_entry)

tests_pass :
    (test_append_and_read ≡ ok tt)
    × (test_append_multiple ≡ ok tt)
    × (test_check_tail ≡ ok tt)
    × (test_read_beyond_tail_returns_none ≡ ok tt)
    × (test_seal_blocks_appends ≡ ok tt)
    × (test_seal_returns_tail ≡ ok tt)
    × (test_trim ≡ ok tt)
    × (test_trim_idempotent ≡ ok tt)
    × (test_read_after_seal ≡ ok tt)
    × (test_entry_with_headers ≡ ok tt)
unfolding append read seal check_tail trim clear add64 text bytes_eq get_header with_header lookup
    insert
tests_pass = (refl, refl, refl, refl, refl, refl, refl, refl, refl, refl)
