-- ===== src/Conformance/BaseEngine.antt =====
-- The tests of crates/relos-engine/src/base_engine.rs. The log and the store, which the tests share
-- with the engine, are those of the engine's state.
use relos.Prelude.{Bool, false, Option, none, some, [], ◌∷◌, ◌++◌, ◌≡◌, refl, ◌==◌}
use relos.Prelude.Words.{add64, sub64}
use relos.Prelude.Dict.{lookup, insert}
use relos.Prelude.Bytes.{Bytes, text, bytes_eq, bytes_lt}
use relos.Core
use relos.Core.{Entry, LogPos, Result, ok, err, panic, and_then, Exec, ◌>>=◌, ◌>>◌}
use relos.Log.Decimal.{decimal}
use relos.Log.Chain
use relos.Log.Chain.{active_segment, find_segment, find_in}
use relos.Log.MetaStore
use relos.Log.MemoryLoglet
use relos.Log.MemoryLoglet.{MemoryLoglet, memory_loglet}
use relos.Log.VirtualLog
use relos.Log.VirtualLog.{
  VirtualLog, get_active_loglet, on_loglet, virtual_loglet, append_round, after_append,
  local_to_global, global_to_local, create_all,
}
use relos.Store.Map
use relos.Store.Memory
use relos.Store.Memory.{begin_write_txn, begin_read_txn, put, commit, read_get}
use relos.Engine.Interface.{ReturnValue, success, output, Applicator}
use relos.Engine.Base
use relos.Engine.Base.{
  BaseEngine, cursor_key, cursor_from, to_le_bytes, from_le_bytes, handle_propose, handle_sync,
  propose_loop, sync_loop, apply_one, apply_in, finish,
}
use relos.Conformance.{run_on, unwrapped, unwrap, look, assert_that, is_value}
use relos.Conformance.VirtualLog.{create, make_virtual_log}

-- `TestApplicator`
abbrev pub test_applicator : Applicator (Unit {0})
test_applicator = record {
  apply = λ entry at s.
      let (r, t) = put (text "entry:" ++ decimal at) entry.payload s.0 in
      (and_then r λ _. ok (output entry.payload), (t, s.1));
}

abbrev pub Setup : Type 0
Setup = BaseEngine (VirtualLog MemoryLoglet) (Unit {0})

abbrev pub setup : Result Setup
setup =
    and_then make_virtual_log
      λ vlog. Base.new (virtual_loglet memory_loglet create) test_applicator vlog Memory.new tt

-- The call returns within the rounds that are given.
abbrev pub returned : {R : Type 0} → (Setup → Option (Result R × Setup)) → Exec Setup R
returned f s = elim (f s) [ none ↦ (panic (text "still going round"), s) | some x ↦ x ]

abbrev propose : Entry → Exec Setup ReturnValue
propose entry =
    returned (handle_propose (virtual_loglet memory_loglet create) test_applicator 4 entry)

abbrev sync : Exec Setup LogPos
sync = returned (handle_sync (virtual_loglet memory_loglet create) test_applicator 4)

abbrev on_log : {R : Type 0} → Exec (VirtualLog MemoryLoglet) R → Exec Setup R
on_log m s = let (r, l) = m s.loglet in (r, record s { loglet = l })

abbrev pub stored : Bytes → Setup → Result (Option Bytes)
stored key s = and_then (begin_read_txn s.local_store) (read_get key)

abbrev pub is_data : Bytes → ReturnValue → Bool
is_data d success = false
is_data d (output b) = bytes_eq b d

abbrev holds_cursor : LogPos → Option Bytes → Bool
holds_cursor p none = false
holds_cursor p (some b) = from_le_bytes b == p

-- A new engine on the log and the store of the one before it
abbrev restarted : Result Setup → Exec Setup (Unit {0})
restarted (ok u) s = (ok tt, u)
restarted (err e) s = (err e, s)
restarted (panic m) s = (panic m, s)

abbrev restart : Exec Setup (Unit {0})
restart s =
    restarted
      (unwrapped
        (Base.new (virtual_loglet memory_loglet create) test_applicator s.loglet s.local_store tt))
      s

abbrev pub test_propose_single_entry : Result (Unit {0})
test_propose_single_entry = run_on (setup) do
  rv ← unwrap (propose (Core.new (text "hello")))
  assert_that (is_data (text "hello") rv)
  v20 ← look (stored (text "entry:1"))
  assert_that (is_value (text "hello") v20)

abbrev pub test_propose_multiple_entries : Result (Unit {0})
test_propose_multiple_entries = run_on (setup) do
  unwrap (propose (Core.new (0 ∷ [])))
  unwrap (propose (Core.new (1 ∷ [])))
  unwrap (propose (Core.new (2 ∷ [])))
  unwrap (propose (Core.new (3 ∷ [])))
  unwrap (propose (Core.new (4 ∷ [])))
  v21 ← look (stored (text "entry:1"))
  assert_that (is_value (0 ∷ []) v21)
  v22 ← look (stored (text "entry:2"))
  assert_that (is_value (1 ∷ []) v22)
  v23 ← look (stored (text "entry:3"))
  assert_that (is_value (2 ∷ []) v23)
  v24 ← look (stored (text "entry:4"))
  assert_that (is_value (3 ∷ []) v24)
  v25 ← look (stored (text "entry:5"))
  assert_that (is_value (4 ∷ []) v25)

abbrev pub test_sync_catches_up : Result (Unit {0})
test_sync_catches_up = run_on (setup) do
  unwrap (on_log ((virtual_loglet memory_loglet create).append (Core.new (text "external1"))))
  unwrap (on_log ((virtual_loglet memory_loglet create).append (Core.new (text "external2"))))
  tail ← unwrap sync
  assert_that (tail == 3)
  v26 ← look (stored (text "entry:1"))
  assert_that (is_value (text "external1") v26)
  v27 ← look (stored (text "entry:2"))
  assert_that (is_value (text "external2") v27)

abbrev pub test_sync_idempotent : Result (Unit {0})
test_sync_idempotent =
    run_on (setup) do tail1 ← unwrap sync; tail2 ← unwrap sync; assert_that (tail1 == tail2)

abbrev pub test_propose_then_sync : Result (Unit {0})
test_propose_then_sync = run_on (setup) do
  unwrap (propose (Core.new (text "first")))
  tail ← unwrap sync
  assert_that (tail == 2)
  v28 ← look (stored (text "entry:1"))
  assert_that (is_value (text "first") v28)

abbrev pub test_cursor_persisted : Result (Unit {0})
test_cursor_persisted = run_on (setup) do
  unwrap (propose (Core.new (text "persisted")))
  cursor_bytes ← look (stored cursor_key)
  assert_that (holds_cursor 2 cursor_bytes)
  unwrap (on_log ((virtual_loglet memory_loglet create).append (Core.new (text "second"))))
  restart
  unwrap sync
  v29 ← look (stored (text "entry:1"))
  assert_that (is_value (text "persisted") v29)
  v30 ← look (stored (text "entry:2"))
  assert_that (is_value (text "second") v30)

abbrev pub test_entries_applied_in_order : Result (Unit {0})
test_entries_applied_in_order = run_on (setup) do
  unwrap (on_log ((virtual_loglet memory_loglet create).append (Core.new (text "a"))))
  unwrap (on_log ((virtual_loglet memory_loglet create).append (Core.new (text "b"))))
  unwrap (on_log ((virtual_loglet memory_loglet create).append (Core.new (text "c"))))
  unwrap sync
  v31 ← look (stored (text "entry:1"))
  assert_that (is_value (text "a") v31)
  v32 ← look (stored (text "entry:2"))
  assert_that (is_value (text "b") v32)
  v33 ← look (stored (text "entry:3"))
  assert_that (is_value (text "c") v33)

tests_pass :
    (test_propose_single_entry ≡ ok tt)
    × (test_propose_multiple_entries ≡ ok tt)
    × (test_sync_catches_up ≡ ok tt)
    × (test_sync_idempotent ≡ ok tt)
    × (test_propose_then_sync ≡ ok tt)
    × (test_cursor_persisted ≡ ok tt)
    × (test_entries_applied_in_order ≡ ok tt)
unfolding Base.new create_all VirtualLog.new VirtualLog.append VirtualLog.check_tail VirtualLog.read
    get_active_loglet on_loglet append_round after_append local_to_global global_to_local decimal
    active_segment find_segment find_in Chain.new MetaStore.new MetaStore.read MemoryLoglet.append
    MemoryLoglet.check_tail MemoryLoglet.read lookup insert Map.get Map.insert begin_write_txn
    begin_read_txn put commit read_get cursor_from cursor_key to_le_bytes from_le_bytes
    handle_propose handle_sync propose_loop sync_loop apply_one apply_in finish add64 sub64 text
    bytes_eq bytes_lt
tests_pass = (refl, refl, refl, refl, refl, refl, refl)
