-- ===== src/Tests/OverVirtualLog.antt =====
-- Two engines over one virtual log of memory loglets.
use relos.Prelude.{◌≡◌, ◌≤◌, refl, Option, none, some, [], ◌∷◌, List, arith}
use relos.Core.{ok}
use relos.Log.MemoryLoglet.{MemoryLoglet, memory_loglet}
use relos.Log.MemoryLoglet.Laws.{memory_laws}
use relos.Log.VirtualLog.{
  VirtualLog, virtual_loglet, append, append_round, reconfigure, install, adopt, check_tail,
  generate_loglet_id, get_active_loglet, on_loglet, after_append, read, global_to_local,
  local_to_global, loglet_name,
}
use relos.Engine.Base.{
  BaseEngine, propose, sync, handle, synced, handle_propose, handle_sync, sync_loop, propose_loop,
  apply_one, apply_in, finish,
}
use relos.Engine.Base.Playback.{machine_of}
use relos.Engine.Base.Replication.{engine, fresh}
use relos.Engine.Base.Replication.Freshness.{Onward}
use relos.Engine.Base.Replication.Events.{Event, request, reconfiguration, System, run, happen}
use relos.Engine.Base.Replication.OverVirtualLog.{sync_catches_up_over_virtual_log}
use relos.Prelude.Words.{add64, sub64}
use relos.Prelude.Bytes.{text, bytes_eq}
use relos.Prelude.Dict.{lookup, insert}
use relos.Log.Decimal.{decimal}
use relos.Log.Chain.{active_segment, find_segment, find_in, extend, seal_last}
use relos.Log.MemoryLoglet
use relos.Log.MetaStore
use relos.Store.Memory.{begin_write_txn, put, commit}
use relos.Tests.Engine.{entry}
use relos.Tests.Log.{factory, factory-fresh, one_loglet, one_loglet-IsConsistent, one_loglet-tail}
use relos.Table.Command.{Codecs, create_table, command_from_bytes, response_to_bytes}
use relos.Table.Applicator.{
  table_applicator, apply_entry, apply_command, apply_create_table, make_response,
}
use relos.Core.{coded, failed}
use relos.Prelude.{false}
use relos.Store.Memory
use relos.Store.Map
use relos.Engine.Interface.{Engine, success}
use relos.Table.Replicated.{row_on, rows_on, servers_answer_alike}
use relos.Tests.Table.{with_schemas, bare_schemas}
use relos.Tests.Replication.{keep_payload}

abbrev Two : Type 0
Two = System memory_loglet factory keep_payload

abbrev start : Two
start = fresh (virtual_loglet memory_loglet factory) keep_payload one_loglet

abbrev reached : Option Two → Two
reached none = start
reached (some s) = s

-- The first engine proposes and the log is reconfigured.
abbrev xs : List Event
xs = request 0 (propose (entry 9)) ∷ reconfiguration ∷ []

abbrev after_xs : Two
after_xs = reached (run memory_loglet factory keep_payload 2 xs start)

ran_xs : run memory_loglet factory keep_payload 2 xs start ≡ some after_xs
unfolding run happen handle handle_propose handle_sync propose_loop sync_loop apply_one apply_in
    finish begin_write_txn put commit append append_round reconfigure install adopt check_tail
    get_active_loglet on_loglet after_append active_segment add64 sub64 lookup insert
    MemoryLoglet.append MemoryLoglet.read MemoryLoglet.seal MemoryLoglet.check_tail MetaStore.write
    read find_segment find_in extend seal_last generate_loglet_id global_to_local local_to_global
    decimal loglet_name text bytes_eq
ran_xs = refl

-- Then the second engine is asked to catch up.
abbrev ys : List Event
ys = request 0 (propose (entry 9)) ∷ reconfiguration ∷ request 1 sync ∷ []

abbrev after_ys : Two
after_ys = reached (run memory_loglet factory keep_payload 2 ys start)

ran_ys :
    (run memory_loglet factory keep_payload 2 ys start ≡ some after_ys)
    × ((after_ys.engines 0).cursor ≡ (after_ys.engines 1).cursor)
    × (handle
          (virtual_loglet memory_loglet factory)
          keep_payload
          2
          sync
          (engine (virtual_loglet memory_loglet factory) keep_payload 1 after_xs)
        ≡ some (synced (ok 2), after_ys.engines 1))
unfolding run happen handle handle_propose handle_sync propose_loop sync_loop apply_one apply_in
    finish begin_write_txn put commit append append_round reconfigure install adopt check_tail
    get_active_loglet on_loglet after_append active_segment add64 sub64 lookup insert
    MemoryLoglet.append MemoryLoglet.read MemoryLoglet.seal MemoryLoglet.check_tail MetaStore.write
    read find_segment find_in extend seal_last generate_loglet_id global_to_local local_to_global
    decimal loglet_name text bytes_eq
ran_ys = (refl, refl, refl)

stayed : run memory_loglet factory keep_payload 2 [] after_xs ≡ some after_xs
unfolding run
stayed = refl

sync_catches_up_over_virtual_log_example :
    ((after_xs.engines 0).cursor ≤ (after_ys.engines 1).cursor)
    × Onward
        (virtual_loglet memory_loglet factory)
        keep_payload
        after_xs.shared
        (after_xs.engines 0).cursor
        (machine_of (virtual_loglet memory_loglet factory) keep_payload (after_xs.engines 0))
        (after_ys.engines 1).cursor
        (machine_of (virtual_loglet memory_loglet factory) keep_payload (after_ys.engines 1))
sync_catches_up_over_virtual_log_example =
    sync_catches_up_over_virtual_log memory_laws factory keep_payload factory-fresh one_loglet
      one_loglet-IsConsistent 2 xs [] after_xs after_xs 0 1 2 (after_ys.engines 1)
      (omega (arith, one_loglet-tail)) ran_xs stayed ran_ys.2

-- Every payload is the creation of a table without columns.
abbrev creating : Codecs
creating = record (with_schemas bare_schemas) {
  commands = record {
    serialize = λ m. failed [];
    deserialize =
        λ b. coded (create_table (record { name = 116 ∷ []; columns = []; primary_key = [] }));
  };
  responses = record { serialize = λ r. coded []; deserialize = λ b. failed [] };
}

abbrev tables_start : System memory_loglet factory (table_applicator creating)
tables_start = fresh (virtual_loglet memory_loglet factory) (table_applicator creating) one_loglet

abbrev tables_reached :
    Option (System memory_loglet factory (table_applicator creating))
    → System memory_loglet factory (table_applicator creating)
tables_reached none = tables_start
tables_reached (some s) = s

abbrev zs : List Event
zs = request 0 (propose (entry 9)) ∷ request 1 sync ∷ []

abbrev after_zs : System memory_loglet factory (table_applicator creating)
after_zs = tables_reached (run memory_loglet factory (table_applicator creating) 2 zs tables_start)

ran_zs :
    (run memory_loglet factory (table_applicator creating) 2 zs tables_start ≡ some after_zs)
    × ((after_zs.engines 0).cursor ≡ (after_zs.engines 1).cursor)
    × ((after_zs.engines 0).local_store.poisoned ≡ false)
    × ((after_zs.engines 1).local_store.poisoned ≡ false)
unfolding run happen handle handle_propose handle_sync propose_loop sync_loop apply_one apply_in
    finish begin_write_txn put commit append append_round reconfigure install adopt check_tail
    get_active_loglet on_loglet after_append active_segment add64 sub64 lookup insert
    MemoryLoglet.append MemoryLoglet.read MemoryLoglet.seal MemoryLoglet.check_tail MetaStore.write
    read find_segment find_in extend seal_last generate_loglet_id global_to_local local_to_global
    decimal loglet_name text bytes_eq apply_entry apply_command command_from_bytes
    apply_create_table Memory.get Map.get make_response response_to_bytes
ran_zs = (refl, refl, refl, refl)

-- An engine that is not called: the reads are those after its sync.
abbrev idle_engine : Engine (BaseEngine (VirtualLog MemoryLoglet) (Unit {0}))
idle_engine = record { propose = λ e s. (ok success, s); sync = λ s. (ok s.cursor, s) }

servers_answer_alike_example :
    (row_on memory_laws factory creating idle_engine (116 ∷ []) [] (after_zs.engines 0)
      ≡ row_on memory_laws factory creating idle_engine (116 ∷ []) [] (after_zs.engines 1))
    × (rows_on memory_laws factory creating idle_engine (116 ∷ []) (after_zs.engines 0)
        ≡ rows_on memory_laws factory creating idle_engine (116 ∷ []) (after_zs.engines 1))
servers_answer_alike_example =
    servers_answer_alike memory_laws factory creating idle_engine factory-fresh one_loglet
      one_loglet-IsConsistent 2 zs after_zs 0 1 (116 ∷ []) [] (omega (arith, one_loglet-tail))
      ran_zs.0 ran_zs.1 ran_zs.2 ran_zs.3
