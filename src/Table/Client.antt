-- ===== src/Table/Client.antt =====
-- crates/relos-table/src/table.rs: the client of the engine. The store it reads is the one the
-- engine writes.
pub mod Answers
use relos.Prelude.{Option, none, some, List, [], ◌∷◌, ◌++◌}
use relos.Prelude.Bytes.{Bytes, Text, text}
use relos.Core.{
  Entry, Result, ok, err, panic, Coded, coded, failed, and_then, invalid_operation,
  or_serialization_error, Exec, lift, ◌>>=◌, ◌>>◌, continue,
}
use relos.Core
use relos.Store.Memory.{MemoryStore, MemoryReadTx, begin_read_txn, read_get, read_prefix_scan}
use relos.Engine.Interface.{Engine, ReturnValue, success, output}
use relos.Table.Schema.{TableSchema, Row, Value}
use relos.Table.Command.{
  Codecs, TableCommand, TableResponse, accepted, error, command_to_bytes, response_from_bytes,
}
use relos.Table.Keys.{join_zero}

module _ (c : Codecs) where
  -- The closure in `encode_primary_key`, with the panic of its `expect`
  abbrev pub encoded_or_panic : Coded Bytes → Result Text
  encoded_or_panic (coded b) = ok (c.hex_encode b)
  encoded_or_panic (failed e) = panic (text "primary key value serialization should not fail")

  unfoldable pub encode_values : List Value → Result (List Text)
  encode_values [] = ok []
  encode_values (v ∷ vs) =
      let rest = encode_values vs in
      and_then (encoded_or_panic (c.values.serialize v)) λ x. and_then rest λ xs. ok (x ∷ xs)

  unfoldable pub encode_primary_key : List Value → Result Text
  encode_primary_key values = and_then (encode_values values) λ xs. ok (join_zero xs)

  -- `DelosTable::row_key`
  unfoldable pub row_key : Text → List Value → Result Bytes
  row_key table pk_values =
      and_then (encode_primary_key pk_values)
        λ pk_encoded. ok (text "data/" ++ (table ++ (text "/" ++ pk_encoded)))

module _ {S : Type 0} (c : Codecs) (engine : Engine S) (store_of : S → MemoryStore) where
  abbrev pub checked_response : TableResponse → Result (Unit {0})
  checked_response accepted = ok tt
  checked_response (error msg) = err (invalid_operation msg)

  abbrev pub checked : ReturnValue → Result (Unit {0})
  checked success = ok tt
  checked (output b) = and_then (response_from_bytes c b) checked_response

  unfoldable pub propose_and_check : TableCommand → Exec S (Unit {0})
  propose_and_check cmd = lift (command_to_bytes c cmd) >>= λ payload.
      engine.propose (Core.new payload) >>= λ ret. lift (checked ret)

  unfoldable pub create_table : TableSchema → Exec S (Unit {0})
  create_table schema = propose_and_check (TableCommand.create_table schema)

  unfoldable pub drop_table : Text → Exec S (Unit {0})
  drop_table table = propose_and_check (TableCommand.drop_table table)

  unfoldable pub put : Text → Row → Exec S (Unit {0})
  put table row = propose_and_check (TableCommand.put table row)

  unfoldable pub delete : Text → List Value → Exec S (Unit {0})
  delete table key = propose_and_check (TableCommand.delete table key)

  abbrev pub decoded_row : Option Bytes → Result (Option Row)
  decoded_row none = ok none
  decoded_row (some b) = and_then (or_serialization_error (c.rows.deserialize b)) λ r. ok (some r)

  unfoldable pub read_row : Text → List Value → MemoryReadTx → Result (Option Row)
  read_row table key txn = and_then (row_key c table key) λ k. and_then (read_get k txn) decoded_row

  unfoldable pub get : Text → List Value → Exec S (Option Row)
  get table key =
      engine.sync >> λ s. (and_then (begin_read_txn (store_of s)) (read_row table key), s)

  unfoldable pub decode_rows : List (Bytes × Bytes) → Result (List Row)
  decode_rows [] = ok []
  decode_rows (e ∷ entries) =
      let rest = decode_rows entries in
      and_then (or_serialization_error (c.rows.deserialize e.1))
        λ r. and_then rest λ rs. ok (r ∷ rs)

  unfoldable pub read_rows : Text → MemoryReadTx → Result (List Row)
  read_rows table txn =
      and_then (read_prefix_scan (text "data/" ++ (table ++ text "/")) txn) decode_rows

  unfoldable pub scan : Text → Exec S (List Row)
  scan table = engine.sync >> λ s. (and_then (begin_read_txn (store_of s)) (read_rows table), s)
