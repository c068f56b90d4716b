-- ===== src/Store/Memory.antt =====
-- crates/relos-store/src/traits.rs and memory.rs: the store, and its transactions on a copy.
-- The standard library's lock is poisoned by a panic of its holder; the flag is part of the state.
pub mod Transactions
use relos.Prelude.{ℕ, ◌≡◌, Bool, true, false, Option, List, [], if◌then◌else◌}
use relos.Prelude.Bytes.{Bytes, text}
use relos.Core.{RelosError, Result, ok, err, store, Exec}
use relos.Store.Map
use relos.Store.Map.{StoreData, scan_prefix}

pub record MemoryStore : Type 0 where
  pub contents : StoreData
  pub poisoned : Bool

-- `MemoryStore::new`
abbrev pub new : MemoryStore
new = record { contents = []; poisoned = false }

pub lock_poisoned : RelosError
lock_poisoned = store (text "lock poisoned")

-- The snapshot of a read transaction.
pub record MemoryReadTx : Type 0 where
  pub snapshot : StoreData

-- The working copy of a write transaction. Its reference to the store is the store itself, which
-- `commit` takes as the state.
pub record MemoryWriteTx : Type 0 where
  pub working : StoreData
  pub committed : Bool

unfoldable pub begin_write_txn : MemoryStore → Result MemoryWriteTx
begin_write_txn s =
    if s.poisoned
    then err lock_poisoned
    else ok (record { working = s.contents; committed = false })

unfoldable pub begin_read_txn : MemoryStore → Result MemoryReadTx
begin_read_txn s = if s.poisoned then err lock_poisoned else ok (record { snapshot = s.contents })

-- A no-op for the in-memory store
unfoldable pub flush : Exec MemoryStore (Unit {0})
flush s = (ok tt, s)

-- `ReadTransaction` of either transaction
unfoldable pub read_get : Bytes → MemoryReadTx → Result (Option Bytes)
read_get key t = ok (Map.get key t.snapshot)

unfoldable pub read_prefix_scan : Bytes → MemoryReadTx → Result (List (Bytes × Bytes))
read_prefix_scan prefix t = ok (scan_prefix t.snapshot prefix)

unfoldable pub get : Bytes → MemoryWriteTx → Result (Option Bytes)
get key t = ok (Map.get key t.working)

unfoldable pub prefix_scan : Bytes → MemoryWriteTx → Result (List (Bytes × Bytes))
prefix_scan prefix t = ok (scan_prefix t.working prefix)

unfoldable pub put : Bytes → Bytes → Exec MemoryWriteTx (Unit {0})
put key value t = (ok tt, record t { working = Map.insert key value t.working })

unfoldable pub delete : Bytes → Exec MemoryWriteTx (Unit {0})
delete key t = (ok tt, record t { working = Map.remove key t.working })

-- `commit` consumes the transaction and swaps its working copy into the store.
unfoldable pub commit : MemoryWriteTx → Exec MemoryStore (Unit {0})
commit t s =
    if s.poisoned then (err lock_poisoned, s) else (ok tt, record s { contents = t.working })

-- `rollback` consumes the transaction, and leaves the store alone.
unfoldable pub rollback : MemoryWriteTx → Exec MemoryStore (Unit {0})
rollback t s = (ok tt, s)
