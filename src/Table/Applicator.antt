-- ===== src/Table/Applicator.antt =====
-- crates/relos-table/src/applicator.rs: the commands, applied to the transaction of an entry.
pub mod Keyspace
pub mod Commands
pub mod Isolation
use relos.Prelude.{
  ℕ, zero, suc, Bool, true, false, Option, none, some, List, [], ◌∷◌, ◌++◌, length, get_elem?, ◌==◌,
  if◌then◌else◌,
}
use relos.Prelude.Bytes.{Bytes, Text, text, bytes_eq}
use mathlib.Core.Option
use relos.Core.{
  Entry, LogPos, Result, ok, err, and_then, ok_or, invalid_operation, or_serialization_error, Exec,
  lift, ◌>>=◌, ◌>>◌, continue,
}
use relos.Log.Decimal.{decimal}
use relos.Store.Memory
use relos.Store.Memory.{MemoryWriteTx, prefix_scan}
use relos.Engine.Interface.{ReturnValue, output, Applicator}
use relos.Table.Schema.{ColumnDef, TableSchema, Value, Row}
use relos.Table.Command.{
  Codecs, TableCommand, create_table, drop_table, put, delete, TableResponse, accepted, error,
  command_from_bytes, response_to_bytes,
}
use relos.Table.Keys.{schema_key, row_prefix, row_key}

-- The messages.
pub no_such_column : Text → Text
no_such_column name = text "primary key column '" ++ (name ++ text "' not found in schema")

pub row_too_short : ℕ → Text → ℕ → Text
row_too_short values name index =
    text "row has "
    ++ (decimal values
        ++ (text " values but primary key column '"
            ++ (name ++ (text "' is at index " ++ decimal index))))

pub table_exists : Text → Text
table_exists name = text "table '" ++ (name ++ text "' already exists")

pub no_such_table : Text → Text
no_such_table name = text "table '" ++ (name ++ text "' does not exist")

pub wrong_length : ℕ → ℕ → Text
wrong_length values columns =
    text "row has "
    ++ (decimal values ++ (text " values but schema has " ++ (decimal columns ++ text " columns")))

-- `columns.iter().position(|c| &c.name == name)`
unfoldable pub position : Text → List ColumnDef → Option ℕ
position name [] = none
position name (c ∷ cs) =
    let rest = Option.map suc (position name cs) in if bytes_eq c.name name then some 0 else rest

-- One round of the loop in `extract_pk`, after the `position`
abbrev pub value_at : Text → List Value → Option ℕ → Result Value
value_at name values none = err (invalid_operation (no_such_column name))
value_at name values (some i) =
    ok_or (get_elem? values i) (invalid_operation (row_too_short (length values) name i))

unfoldable pub extract_pk_of : List ColumnDef → List Value → List Text → Result (List Value)
unfolding position
extract_pk_of columns values [] = ok []
extract_pk_of columns values (name ∷ names) =
    let rest = extract_pk_of columns values names in
    and_then (value_at name values (position name columns)) λ v. and_then rest λ vs. ok (v ∷ vs)

unfoldable pub extract_pk : TableSchema → Row → Result (List Value)
extract_pk schema row = extract_pk_of schema.columns row.values schema.primary_key

module _ (c : Codecs) where
  unfoldable pub make_response : TableResponse → Result ReturnValue
  make_response resp = and_then (response_to_bytes c resp) λ b. ok (output b)

  abbrev pub decoded : Option Bytes → Result (Option TableSchema)
  decoded none = ok none
  decoded (some b) = and_then (or_serialization_error (c.schemas.deserialize b)) λ s. ok (some s)

  unfoldable pub load_schema : Text → MemoryWriteTx → Result (Option TableSchema)
  load_schema table_name txn = and_then (Memory.get (schema_key table_name) txn) decoded

  abbrev pub respond : TableResponse → Exec MemoryWriteTx ReturnValue
  respond resp = lift (make_response resp)

  abbrev pub created : TableSchema → Option Bytes → Exec MemoryWriteTx ReturnValue
  created schema (some b) = respond (error (table_exists schema.name))
  created schema none = lift (or_serialization_error (c.schemas.serialize schema)) >>= λ value.
      Memory.put (schema_key schema.name) value >> respond accepted

  unfoldable pub apply_create_table : TableSchema → Exec MemoryWriteTx ReturnValue
  apply_create_table schema =
      (λ t. lift (Memory.get (schema_key schema.name) t) t) >>= created schema

  -- `for (key, _) in rows { txn.delete(&key)? }`
  unfoldable pub delete_rows : List (Bytes × Bytes) → Exec MemoryWriteTx (Unit {0})
  delete_rows [] t = (ok tt, t)
  delete_rows (r ∷ rows) t = (Memory.delete r.0 >> delete_rows rows) t

  abbrev pub dropped : Text → Option Bytes → Exec MemoryWriteTx ReturnValue
  dropped table none = respond (error (no_such_table table))
  dropped table (some b) =
      Memory.delete (schema_key table)
      >> ((λ t. lift (prefix_scan (row_prefix table) t) t) >>= λ rows.
          delete_rows rows >> respond accepted)

  unfoldable pub apply_drop_table : Text → Exec MemoryWriteTx ReturnValue
  unfolding delete_rows
  apply_drop_table table = (λ t. lift (Memory.get (schema_key table) t) t) >>= dropped table

  abbrev pub put_row : Text → Row → TableSchema → Exec MemoryWriteTx ReturnValue
  put_row table row schema = lift (extract_pk schema row) >>= λ pk_values.
      lift (row_key c table pk_values) >>= λ key.
      lift (or_serialization_error (c.rows.serialize row)) >>= λ value.
      Memory.put key value >> respond accepted

  abbrev pub put_with : Text → Row → Option TableSchema → Exec MemoryWriteTx ReturnValue
  put_with table row none = respond (error (no_such_table table))
  put_with table row (some schema) =
      if length row.values == length schema.columns
      then put_row table row schema
      else respond (error (wrong_length (length row.values) (length schema.columns)))

  unfoldable pub apply_put : Text → Row → Exec MemoryWriteTx ReturnValue
  apply_put table row = (λ t. lift (load_schema table t) t) >>= put_with table row

  abbrev pub delete_with : Text → List Value → Option TableSchema → Exec MemoryWriteTx ReturnValue
  delete_with table key_values none = respond (error (no_such_table table))
  delete_with table key_values (some schema) =
      lift (row_key c table key_values) >>= λ key. Memory.delete key >> respond accepted

  unfoldable pub apply_delete : Text → List Value → Exec MemoryWriteTx ReturnValue
  apply_delete table key_values =
      (λ t. lift (load_schema table t) t) >>= delete_with table key_values

  unfoldable pub apply_command : TableCommand → Exec MemoryWriteTx ReturnValue
  apply_command (create_table schema) = apply_create_table schema
  apply_command (drop_table table) = apply_drop_table table
  apply_command (put table row) = apply_put table row
  apply_command (delete table key) = apply_delete table key

  -- `TableApplicator::apply`
  unfoldable pub apply_entry : Entry → Exec MemoryWriteTx ReturnValue
  apply_entry entry = lift (command_from_bytes c entry.payload) >>= apply_command

  -- `impl Applicator for TableApplicator`, which keeps nothing of its own
  abbrev pub table_applicator : Applicator (Unit {0})
  table_applicator = record {
    apply = λ entry at s. let (r, t) = apply_entry entry s.0 in (r, (t, s.1));
  }
