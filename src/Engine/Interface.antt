-- ===== src/Engine/Interface.antt =====
-- crates/relos-engine/src/traits.rs: return values, and the two traits as records of operations.
use relos.Prelude.Bytes.{Bytes}
use relos.Core.{LogPos, Entry, Exec}
use relos.Store.Memory.{MemoryWriteTx}

-- `ReturnValue::{Success, Data}`
pub data ReturnValue : Type 0 where
  success : ReturnValue
  output : Bytes → ReturnValue

-- `Engine`, over the state `S` of everything below it
pub record Engine (S : Type 0) : Type 0 where
  pub propose : Entry → Exec S ReturnValue
  pub sync : Exec S LogPos

-- `Applicator`, over the transaction and what the applicator itself keeps
pub record Applicator (A : Type 0) : Type 0 where
  pub apply : Entry → LogPos → Exec (MemoryWriteTx × A) ReturnValue
