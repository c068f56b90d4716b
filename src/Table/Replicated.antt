-- ===== src/Table/Replicated.antt =====
-- The tables on several servers: their engines share one virtual log and apply its entries with the
-- table applicator, and each client reads the store of its own server.
use relos.Prelude.{ℕ, ◌+◌, ◌<◌, ◌^◌, ◌≡◌, refl, false, Option, some, List, length}
use relos.Prelude.Bytes.{Text}
use relos.Core.{Result, and_then}
use relos.Log.Loglet.{Loglet, LogletLaws}
use relos.Log.VirtualLog.{VirtualLog, virtual_loglet}
use relos.Log.VirtualLog.Consistency.{IsConsistent, global_tail}
use relos.Store.Memory.{MemoryStore, MemoryReadTx, begin_read_txn}
use relos.Engine.Interface.{Engine}
use relos.Engine.Base.{BaseEngine}
use relos.Engine.Base.Replication.{Replicas, fresh}
use relos.Engine.Base.Replication.Events.{Event, run}
use relos.Engine.Base.Replication.Progress.{MakesNew}
use relos.Engine.Base.Replication.OverVirtualLog.{replicas_agree_over_virtual_log}
use relos.Table.Schema.{Row, Value}
use relos.Table.Command.{Codecs}
use relos.Table.Applicator.{table_applicator}
use relos.Table.Client.{read_row, read_rows}

-- Two stores with the same contents, both with their locks free, show the same to a reader.
same_reads :
    {A : Type 0} (s s' : MemoryStore) (reader : MemoryReadTx → Result A)
    → s.contents ≡ s'.contents
    → s.poisoned ≡ false
    → s'.poisoned ≡ false
    → and_then (begin_read_txn s) reader ≡ and_then (begin_read_txn s') reader
unfolding begin_read_txn
same_reads s s' reader same fine fine' = rw (fine, fine', same) refl

module _ {L : Type 0} {ops : Loglet L} (laws : LogletLaws ops) (factory : Text → Result L)
    (c : Codecs) (engine : Engine (BaseEngine (VirtualLog L) (Unit {0}))) where
  -- What a client of the tables reads from its server's store after its sync
  abbrev pub row_on : Text → List Value → BaseEngine (VirtualLog L) (Unit {0}) → Result (Option Row)
  row_on table key s =
      and_then (begin_read_txn s.local_store) (read_row c engine (λ u. u.local_store) table key)

  abbrev pub rows_on : Text → BaseEngine (VirtualLog L) (Unit {0}) → Result (List Row)
  rows_on table s =
      and_then (begin_read_txn s.local_store) (read_rows c engine (λ u. u.local_store) table)

  -- Clients of different servers read the same tables: after any requests to the servers' engines,
  -- restarts and reconfigurations of the log, in any order, two servers whose engines are at one
  -- cursor answer every read of a row and every scan of a table alike, errors included. (The
  -- servers start with empty stores, the log in a consistent state; its factory returns empty open
  -- loglets, the positions fit in a word, every request is answered and every restart succeeds,
  -- and the locks of both stores are not poisoned.)
  pub servers_answer_alike :
      MakesNew laws factory (table_applicator c)
      → (v : VirtualLog L) (consistent : IsConsistent laws factory v) (fuel : ℕ) (xs : List Event)
        (s : Replicas (virtual_loglet ops factory) (table_applicator c)) (i j : ℕ) (table : Text)
        (key : List Value)
      → global_tail laws factory v consistent + 2 + length xs < 2 ^ 64
      → run ops factory
          (table_applicator c)
          fuel
          xs
          (fresh (virtual_loglet ops factory) (table_applicator c) v)
        ≡ some s
      → (s.engines i).cursor ≡ (s.engines j).cursor
      → (s.engines i).local_store.poisoned ≡ false
      → (s.engines j).local_store.poisoned ≡ false
      → (row_on table key (s.engines i) ≡ row_on table key (s.engines j))
        × (rows_on table (s.engines i) ≡ rows_on table (s.engines j))
  servers_answer_alike makes v consistent fuel xs s i j table key room ran same fine fine' =
      let agree =
        replicas_agree_over_virtual_log laws factory (table_applicator c) makes v consistent fuel xs
          s i j room ran same in
      (
        same_reads (s.engines i).local_store (s.engines j).local_store
            (read_row c engine (λ u. u.local_store) table key) agree.0 fine fine',
        same_reads (s.engines i).local_store (s.engines j).local_store
            (read_rows c engine (λ u. u.local_store) table) agree.0 fine fine',
      )
