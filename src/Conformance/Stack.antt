-- ===== src/Conformance/Stack.antt =====
-- The test of crates/relos-engine/src/stack.rs of a stack without middleware; the other needs what
-- bincode writes.
use relos.Prelude.{[], ◌≡◌, refl, ◌==◌}
use relos.Prelude.Words.{add64, sub64}
use relos.Prelude.Dict.{lookup, insert}
use relos.Prelude.Bytes.{text, bytes_eq, bytes_lt}
use relos.Core
use relos.Core.{Result, ok, err, panic, Exec, ◌>>=◌, ◌>>◌}
use relos.Log.Decimal.{decimal}
use relos.Log.Chain
use relos.Log.Chain.{active_segment, find_segment, find_in}
use relos.Log.MetaStore
use relos.Log.MemoryLoglet
use relos.Log.MemoryLoglet.{memory_loglet}
use relos.Log.VirtualLog
use relos.Log.VirtualLog.{
  VirtualLog, get_active_loglet, on_loglet, virtual_loglet, append_round, after_append,
  local_to_global, global_to_local, create_all,
}
use relos.Store.Map
use relos.Store.Memory.{begin_write_txn, begin_read_txn, put, commit, read_get}
use relos.Engine.Interface.{Engine, Applicator}
use relos.Engine.Base
use relos.Engine.Base.{
  cursor_key, cursor_from, to_le_bytes, from_le_bytes, handle_propose, handle_sync, propose_loop,
  sync_loop, apply_one, apply_in, finish,
}
use relos.Engine.Stack.{build, wrap_applicators, wrap_engines}
use relos.Conformance.{run_on, unwrap, look, assert_that, is_value}
use relos.Conformance.VirtualLog.{create}
use relos.Conformance.BaseEngine.{Setup, setup, test_applicator, returned, stored, is_data}

-- `BaseEngine::new(loglet, store, applicator)`, on the log and the store of `setup`
abbrev base_engine : Applicator (Unit {0}) → Result (Engine Setup)
base_engine app = ok (record {
  propose = λ entry. returned (handle_propose (virtual_loglet memory_loglet create) app 4 entry);
  sync = returned (handle_sync (virtual_loglet memory_loglet create) app 4);
})

abbrev with_engine :
    {R : Type 0} → Result (Engine Setup) → (Engine Setup → Exec Setup R) → Exec Setup R
with_engine (ok engine) f s = f engine s
with_engine (err e) f s = (err e, s)
with_engine (panic m) f s = (panic m, s)

abbrev pub test_build_minimal_stack : Result (Unit {0})
test_build_minimal_stack = run_on setup (
    with_engine (build base_engine [] test_applicator) λ engine. do
      rv ← unwrap (engine.propose (Core.new (text "minimal")))
      assert_that (is_data (text "minimal") rv)
      tail ← unwrap engine.sync
      assert_that (tail == 2)
      v1 ← look (stored (text "entry:1"))
      assert_that (is_value (text "minimal") v1))

tests_pass : test_build_minimal_stack ≡ ok tt
unfolding build wrap_applicators wrap_engines Base.new create_all VirtualLog.new VirtualLog.append
    VirtualLog.check_tail VirtualLog.read get_active_loglet on_loglet append_round after_append
    local_to_global global_to_local decimal active_segment find_segment find_in Chain.new
    MetaStore.new MetaStore.read MemoryLoglet.append MemoryLoglet.check_tail MemoryLoglet.read
    lookup insert Map.get Map.insert begin_write_txn begin_read_txn put commit read_get cursor_from
    cursor_key to_le_bytes from_le_bytes handle_propose handle_sync propose_loop sync_loop apply_one
    apply_in finish add64 sub64 text bytes_eq bytes_lt
tests_pass = refl
