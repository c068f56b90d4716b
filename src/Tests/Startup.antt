-- ===== src/Tests/Startup.antt =====
-- The theorems on the stack that `main` builds.
use relos.Prelude.{◌+◌, ◌≡◌, refl, Option, none, some, [], ◌∷◌, arith}
use relos.Core.{ok, log_pos_begin}
use relos.Log.Chain
use relos.Log.MetaStore
use relos.Log.MemoryLoglet
use relos.Log.MemoryLoglet.{MemoryLoglet, memory_loglet}
use relos.Log.MemoryLoglet.Laws.{memory_laws}
use relos.Log.VirtualLog
use relos.Log.VirtualLog.{VirtualLog, virtual_loglet, loglet_name}
use relos.Log.VirtualLog.Appending.{Appended}
use relos.Log.VirtualLog.Consistency.{IsConsistent, global_tail, loglet_name-injective}
use relos.Log.VirtualLog.Opening.{new-IsConsistent}
use relos.Store.Memory
use relos.Store.Memory.{MemoryWriteTx}
use relos.Engine.Interface.{ReturnValue, output}
use relos.Engine.Base.{BaseEngine, handle_propose}
use relos.Engine.Base.Playback.{Machine, with_machine, accept}
use relos.Engine.Base.OnVirtualLog.{propose_on_virtual_log}
use relos.Server.Startup.{Server, start, create, start_lem}
use relos.Tests.Engine.{entry}
use relos.Tests.Log.{
  factory, factory-IsNew, factory-fresh, one_loglet, one_loglet-IsConsistent, one_loglet-tail,
  one_loglet-room,
}
use relos.Tests.Replication.{keep_payload}
use relos.Tests.Server.{written}

start_lem_example :
    (s : Server) × (start written ≡ ok s)
    × (s.cursor ≡ log_pos_begin)
    × (s.local_store ≡ Memory.new)
    × ((v : IsConsistent memory_laws create s.loglet) × (global_tail memory_laws create s.loglet v
          ≡ s.cursor))
start_lem_example = start_lem written

-- The first loglet may have the name that a reconfiguration would have given it.
new-IsConsistent_example :
    (v : VirtualLog MemoryLoglet) × (VirtualLog.new memory_loglet factory
        (MetaStore.new (Chain.new (loglet_name 0)))
      ≡ ok v)
    × ((c : IsConsistent memory_laws factory v) × (global_tail memory_laws factory v c
          ≡ log_pos_begin))
new-IsConsistent_example =
    new-IsConsistent memory_laws factory (loglet_name 0) MemoryLoglet.new
      (λ k le e. absurd (omega (arith, le, loglet_name-injective 0 k e))) refl factory-IsNew

abbrev caught_up : BaseEngine (VirtualLog MemoryLoglet) (Unit {0})
caught_up = record { loglet = one_loglet; local_store = Memory.new; app = tt; cursor = 1 }

abbrev accepted_by :
    Option (ReturnValue × Machine (virtual_loglet memory_loglet factory) keep_payload)
    → Machine (virtual_loglet memory_loglet factory) keep_payload
accepted_by none = ([], tt)
accepted_by (some (rv, m)) = m

abbrev after_one : Machine (virtual_loglet memory_loglet factory) keep_payload
after_one =
    accepted_by (accept (virtual_loglet memory_loglet factory) keep_payload (entry 9) 1 ([], tt))

after_one-accepted :
    accept (virtual_loglet memory_loglet factory) keep_payload (entry 9) 1 ([], tt)
    ≡ some (output (9 ∷ []), after_one)
unfolding accept
after_one-accepted = refl

propose_on_virtual_log_example :
    (v : VirtualLog MemoryLoglet) × (handle_propose
        (virtual_loglet memory_loglet factory)
        keep_payload
        2
        (entry 9)
        caught_up
      ≡ some (
        ok (output (9 ∷ [])),
        with_machine
            (virtual_loglet memory_loglet factory)
            keep_payload
            (record caught_up { loglet = v })
            after_one
            (1 + 1),
      ))
    × Appended memory_laws factory (entry 9) one_loglet one_loglet-IsConsistent v
propose_on_virtual_log_example =
    propose_on_virtual_log memory_laws factory keep_payload factory-fresh caught_up
      one_loglet-IsConsistent (entry 9) (output (9 ∷ [])) after_one one_loglet-room
      (omega (arith, one_loglet-tail)) refl after_one-accepted
