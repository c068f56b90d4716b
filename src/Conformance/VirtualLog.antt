-- ===== src/Conformance/VirtualLog.antt =====
-- The tests of crates/relos-log/src/virtual_log.rs.
use relos.Prelude.{Option, ◌≡◌, refl, ◌==◌, length}
use relos.Prelude.Words.{add64, sub64}
use relos.Prelude.Dict.{lookup, insert}
use relos.Prelude.Bytes.{Text, text, bytes_eq}
use relos.Core
use relos.Core.{Entry, LogPos, Result, ok, Exec, ◌>>=◌, ◌>>◌}
use relos.Log.Decimal.{decimal}
use relos.Log.Chain
use relos.Log.Chain.{active_segment, find_segment, find_in, extend, seal_last}
use relos.Log.MetaStore
use relos.Log.MemoryLoglet
use relos.Log.MemoryLoglet.{MemoryLoglet, memory_loglet, clear}
use relos.Log.VirtualLog
use relos.Log.VirtualLog.{
  VirtualLog, get_active_loglet, on_loglet, virtual_loglet, append_round, after_append, reconfigure,
  install, adopt, trim_segment, trim_segments, local_to_global, global_to_local, loglet_name,
  generate_loglet_id, create_all,
}
use relos.Conformance.{
  run_on, unwrap, observe, look, assert_that, is_none, has_payload, is_trimmed_at,
}

abbrev pub create : Text → Result MemoryLoglet
create loglet_id = ok MemoryLoglet.new

abbrev pub make_virtual_log : Result (VirtualLog MemoryLoglet)
make_virtual_log = VirtualLog.new memory_loglet create (MetaStore.new (Chain.new (text "loglet-0")))

abbrev append : Entry → Exec (VirtualLog MemoryLoglet) LogPos
append = (virtual_loglet memory_loglet create).append

abbrev check_tail : VirtualLog MemoryLoglet → Result LogPos
check_tail = VirtualLog.check_tail memory_loglet create

abbrev read : LogPos → VirtualLog MemoryLoglet → Result (Option Entry)
read = VirtualLog.read memory_loglet create

abbrev trim : LogPos → Exec (VirtualLog MemoryLoglet) (Unit {0})
trim = VirtualLog.trim memory_loglet create

-- `let (loglet, _) = vlog.get_active_loglet().await.unwrap(); loglet.seal().await.unwrap()`
abbrev seal_active : Exec (VirtualLog MemoryLoglet) LogPos
seal_active = do
  active ← look (get_active_loglet memory_loglet create)
  unwrap (on_loglet memory_loglet create active.0 MemoryLoglet.seal active.1)

abbrev pub test_append_and_read : Result (Unit {0})
test_append_and_read = run_on (make_virtual_log) do
  pos1 ← unwrap (append (Core.new (text "hello")))
  pos2 ← unwrap (append (Core.new (text "world")))
  assert_that (pos1 == 1)
  assert_that (pos2 == 2)
  e1 ← look (read pos1)
  assert_that (has_payload (text "hello") e1)
  e2 ← look (read pos2)
  assert_that (has_payload (text "world") e2)

abbrev pub test_check_tail : Result (Unit {0})
test_check_tail = run_on (make_virtual_log) do
  tail1 ← look check_tail
  assert_that (tail1 == 1)
  unwrap (append (Core.new (text "a")))
  tail2 ← look check_tail
  assert_that (tail2 == 2)

abbrev pub test_read_beyond_tail : Result (Unit {0})
test_read_beyond_tail =
    run_on (make_virtual_log) do result ← look (read 1); assert_that (is_none result)

abbrev pub test_trim : Result (Unit {0})
test_trim = run_on (make_virtual_log) do
  unwrap (append (Core.new (text "a")))
  unwrap (append (Core.new (text "b")))
  unwrap (append (Core.new (text "c")))
  unwrap (trim 3)
  r1 ← observe (read 1)
  assert_that (is_trimmed_at 1 r1)
  r2 ← observe (read 2)
  assert_that (is_trimmed_at 2 r2)
  e3 ← look (read 3)
  assert_that (has_payload (text "c") e3)

abbrev pub test_reconfigure_on_seal : Result (Unit {0})
test_reconfigure_on_seal = run_on (make_virtual_log) do
  unwrap (append (Core.new (text "a")))
  unwrap (append (Core.new (text "b")))
  seal_active
  pos ← unwrap (append (Core.new (text "c")))
  assert_that (pos == 3)
  e1 ← look (read 1)
  assert_that (has_payload (text "a") e1)
  e2 ← look (read 2)
  assert_that (has_payload (text "b") e2)
  e3 ← look (read 3)
  assert_that (has_payload (text "c") e3)
  stored ← look (λ v. MetaStore.read v.meta_store)
  assert_that (stored.1 == 1)
  assert_that (length stored.0.segments == 2)

abbrev pub test_position_mapping_across_segments : Result (Unit {0})
test_position_mapping_across_segments = run_on (make_virtual_log) do
  pos0 ← unwrap (append (Core.new (text "entry-0")))
  assert_that (pos0 == 1)
  pos1 ← unwrap (append (Core.new (text "entry-1")))
  assert_that (pos1 == 2)
  pos2 ← unwrap (append (Core.new (text "entry-2")))
  assert_that (pos2 == 3)
  seal_active
  pos ← unwrap (append (Core.new (text "entry-3")))
  assert_that (pos == 4)
  tail5 ← look check_tail
  assert_that (tail5 == 5)

abbrev pub test_multiple_reconfigurations : Result (Unit {0})
test_multiple_reconfigurations = run_on (make_virtual_log) do
  unwrap (append (Core.new (text "a")))
  unwrap (append (Core.new (text "b")))
  seal_active
  unwrap (append (Core.new (text "c")))
  unwrap (append (Core.new (text "d")))
  seal_active
  pos ← unwrap (append (Core.new (text "e")))
  assert_that (pos == 5)
  e1 ← look (read 1)
  assert_that (has_payload (text "a") e1)
  e2 ← look (read 2)
  assert_that (has_payload (text "b") e2)
  e3 ← look (read 3)
  assert_that (has_payload (text "c") e3)
  e4 ← look (read 4)
  assert_that (has_payload (text "d") e4)
  e5 ← look (read 5)
  assert_that (has_payload (text "e") e5)
  stored ← look (λ v. MetaStore.read v.meta_store)
  assert_that (stored.1 == 2)
  assert_that (length stored.0.segments == 3)

tests_pass :
    (test_append_and_read ≡ ok tt)
    × (test_check_tail ≡ ok tt)
    × (test_read_beyond_tail ≡ ok tt)
    × (test_trim ≡ ok tt)
    × (test_reconfigure_on_seal ≡ ok tt)
    × (test_position_mapping_across_segments ≡ ok tt)
    × (test_multiple_reconfigurations ≡ ok tt)
unfolding VirtualLog.new create_all VirtualLog.append VirtualLog.check_tail VirtualLog.read
    VirtualLog.trim get_active_loglet on_loglet append_round after_append reconfigure install adopt
    trim_segment trim_segments local_to_global global_to_local loglet_name generate_loglet_id
    decimal active_segment find_segment find_in extend seal_last Chain.new MetaStore.new
    MetaStore.read MetaStore.write MemoryLoglet.append MemoryLoglet.check_tail MemoryLoglet.read
    MemoryLoglet.trim MemoryLoglet.seal clear lookup insert add64 sub64 text bytes_eq
tests_pass = (refl, refl, refl, refl, refl, refl, refl)
