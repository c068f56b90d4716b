-- ===== src/Server/Startup.antt =====
-- crates/relos-server/src/main.rs: the stack that `main` builds, memory store and virtual log at
-- the bottom, the engine over them. The table's client and the service are over its state.
use relos.Prelude.{ℕ, ◌≡◌, ◌≢◌, refl, ap, [], ◌∷◌, arith}
use relos.Prelude.Words.{add64}
use relos.Prelude.Bytes.{Text, text}
use relos.Core.{Result, ok, and_then, log_pos_begin}
use relos.Log.Chain
use relos.Log.MetaStore
use relos.Log.MemoryLoglet
use relos.Log.MemoryLoglet.{MemoryLoglet, memory_loglet}
use relos.Log.MemoryLoglet.Invariant.{new-IsValid}
use relos.Log.MemoryLoglet.Laws.{memory_laws}
use relos.Log.VirtualLog
use relos.Log.VirtualLog.{VirtualLog, virtual_loglet, loglet_name}
use relos.Log.VirtualLog.Consistency.{IsConsistent, IsNew, global_tail}
use relos.Log.VirtualLog.Opening.{new-IsConsistent}
use relos.Store.Map
use relos.Store.Memory
use relos.Store.Memory.{MemoryStore, begin_read_txn, read_get}
use relos.Engine.Base
use relos.Engine.Base.{BaseEngine, cursor_from}
use relos.Table.Command.{Codecs}
use relos.Table.Applicator.{table_applicator}

-- `MemoryLogletFactory::create`
abbrev pub create : Text → Result MemoryLoglet
create loglet_id = ok MemoryLoglet.new

-- The state below the table of a running server
abbrev pub Server : Type 0
Server = BaseEngine (VirtualLog MemoryLoglet) (Unit {0})

unfoldable pub initial_chain : Chain.LogChain
initial_chain = Chain.new (text "memory-0")

-- `main`, up to the table
unfoldable pub start : Codecs → Result Server
start c =
    and_then (VirtualLog.new memory_loglet create (MetaStore.new initial_chain)) λ virtual_log.
      Base.new (virtual_loglet memory_loglet create) (table_applicator c) virtual_log Memory.new tt

memory_loglet-IsNew : IsNew memory_laws create MemoryLoglet.new
unfolding memory_laws add64
memory_loglet-IsNew = record { valid = new-IsValid; empty = refl; opened = refl; untrimmed = refl }

-- What `MemoryLogletFactory` makes is new.
pub create-IsNew :
    (id : Text) → (l : MemoryLoglet) × (create id ≡ ok l) × IsNew memory_laws create l
create-IsNew id = (MemoryLoglet.new, refl, memory_loglet-IsNew)

abbrev first_byte : Text → ℕ
first_byte [] = 0
first_byte (b ∷ bs) = b

-- No name that a reconfiguration gives is that of the first loglet.
memory-ne : (k : ℕ) → text "memory-0" ≢ loglet_name k
unfolding text loglet_name
memory-ne k e = let h : 109 ≡ 108 = ap first_byte e in absurd (omega (arith, h))

new-engine :
    (c : Codecs) (v : VirtualLog MemoryLoglet)
    → Base.new (virtual_loglet memory_loglet create) (table_applicator c) v Memory.new tt
      ≡ ok (record { loglet = v; local_store = Memory.new; app = tt; cursor = log_pos_begin })
unfolding Base.new begin_read_txn read_get cursor_from Map.get
new-engine c v = refl

-- The server starts: its engine is at the first position with an empty store, and its virtual log
-- satisfies its invariant, with its tail at the engine's cursor.
pub start_lem :
    (c : Codecs)
    → (s : Server) × (start c ≡ ok s)
      × (s.cursor ≡ log_pos_begin)
      × (s.local_store ≡ Memory.new)
      × ((v : IsConsistent memory_laws create s.loglet) × (global_tail memory_laws create s.loglet v
            ≡ s.cursor))
unfolding start initial_chain
start_lem c =
    let (v, opened, (consistent, at)) =
      new-IsConsistent memory_laws create (text "memory-0") MemoryLoglet.new (λ k le. memory-ne k)
        refl memory_loglet-IsNew in
    (
      record { loglet = v; local_store = Memory.new; app = tt; cursor = log_pos_begin },
      rw opened (new-engine c v),
      refl,
      refl,
      (consistent, at),
    )
