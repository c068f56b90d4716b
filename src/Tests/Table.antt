-- ===== src/Tests/Table.antt =====
-- The tables' theorems at a table with one column, with codecs that write a few of the values.
use relos.Prelude.{◌≡◌, ◌⊎◌, refl, false, none, some, List, [], ◌∷◌, if◌then◌else◌}
use relos.Prelude.Bytes.{Bytes, Text, bytes_eq, starts_with}
use relos.Core.{ok, Codec, Coded, coded, failed, RoundTrips}
use relos.Store.Map
use relos.Store.Map.{StoreData}
use relos.Store.Map.Laws.{IsSorted, get-insert_self}
use relos.Store.Memory
use relos.Store.Memory.{MemoryWriteTx}
use relos.Table.Schema.{TableSchema, ColumnDef, ColumnType, Row, Value, pos}
use relos.Table.Command.{Codecs, accepted}
use relos.Table.Keys.{schema_key, row_prefix}
use relos.Table.Applicator.{apply_put, apply_drop_table, load_schema, make_response}
use relos.Table.Applicator.Keyspace.{apply_drop_table_lem}
use relos.Table.Applicator.Commands.{WrittenAt, Fits, apply_put_lem}

abbrev pub silent : {A : Type 0} → Codec A
silent = record { serialize = λ a. failed []; deserialize = λ b. failed [] }

-- Schemas without a column are written as their name.
abbrev bare : Text → List ColumnDef → List Text → Coded Bytes
bare name [] [] = coded name
bare name [] (k ∷ ks) = failed []
bare name (c ∷ cs) ks = failed []

abbrev pub bare_schemas : Codec TableSchema
bare_schemas = record {
  serialize = λ s. bare s.name s.columns s.primary_key;
  deserialize = λ b. coded (record { name = b; columns = []; primary_key = [] });
}

bare_schemas-RoundTrips : RoundTrips bare_schemas
bare_schemas-RoundTrips s b h = go s.name s.columns s.primary_key h
  where
    go :
        (name : Text) (cs : List ColumnDef) (ks : List Text)
        → bare name cs ks ≡ coded b
        → ◌≡◌ {A = Coded TableSchema}
            (coded (record { name = b; columns = []; primary_key = [] }))
            (coded (record { name = name; columns = cs; primary_key = ks }))
    go name [] [] h = cc
    go name [] (k ∷ ks) h = cc
    go name (c ∷ cs) ks h = cc

-- Any bytes are read as the schema of this table, with its key.
abbrev pub keyed_by : Text → Codec TableSchema
keyed_by key = record {
  serialize = λ s. failed [];
  deserialize = λ b. coded (record {
    name = 116 ∷ [];
    columns = record { name = 105 ∷ []; col_type = ColumnType.int64; nullable = false } ∷ [];
    primary_key = key ∷ [];
  });
}

abbrev pub write_row : List Value → Coded Bytes
write_row (Value.int64 (pos n) ∷ []) = coded (n ∷ [])
write_row _ = failed []

abbrev write_value : Value → Coded Bytes
write_value (Value.int64 (pos n)) = coded (n ∷ [])
write_value _ = failed []

abbrev pub with_schemas : Codec TableSchema → Codecs
with_schemas schemas = record {
  commands = silent;
  responses = silent;
  schemas = schemas;
  rows = record { serialize = λ r. write_row r.values; deserialize = λ b. failed [] };
  values = record { serialize = write_value; deserialize = λ b. failed [] };
  hex_encode = λ b. 48 ∷ b;
}

abbrev pub table : Text
table = 116 ∷ []

abbrev bare_table : TableSchema
bare_table = record { name = table; columns = []; primary_key = [] }

abbrev empty : MemoryWriteTx
empty = record { working = []; committed = false }

abbrev pub with_table : MemoryWriteTx
with_table = record { working = Map.insert (schema_key table) table []; committed = false }

pub with_table-IsSorted : IsSorted with_table.working
unfolding Map.insert
with_table-IsSorted = (tt, tt)

apply_drop_table_lem_example :
    ((apply_drop_table (with_schemas bare_schemas) table with_table).0
      ≡ make_response (with_schemas bare_schemas) accepted)
    × IsSorted (apply_drop_table (with_schemas bare_schemas) table with_table).1.working
    × ((k : Bytes)
        → Map.get k (apply_drop_table (with_schemas bare_schemas) table with_table).1.working ≡ (
            if starts_with k (row_prefix table)
            then none
            else if bytes_eq (schema_key table) k
            then none
            else Map.get k with_table.working))
apply_drop_table_lem_example =
    apply_drop_table_lem (with_schemas bare_schemas) table table with_table with_table-IsSorted
      (get-insert_self (schema_key table) table [])

abbrev pub row_of_7 : Row
row_of_7 = record { values = Value.int64 (pos 7) ∷ [] }

abbrev pub table_schema : Text → TableSchema
table_schema key = record {
  name = table;
  columns = record { name = 105 ∷ []; col_type = ColumnType.int64; nullable = false } ∷ [];
  primary_key = key ∷ [];
}

pub load_schema-with_table :
    (key : Text)
    → load_schema (with_schemas (keyed_by key)) table with_table ≡ ok (some (table_schema key))
unfolding load_schema Memory.get
load_schema-with_table key = rw (get-insert_self (schema_key table) table []) refl

apply_put_lem_example :
    ((f : Fits (with_schemas (keyed_by (105 ∷ []))) table row_of_7 with_table) × ((apply_put
          (with_schemas (keyed_by (105 ∷ [])))
          table
          row_of_7
          with_table).0
        ≡ make_response (with_schemas (keyed_by (105 ∷ []))) accepted)
      × WrittenAt f.key f.value with_table.working
          (apply_put (with_schemas (keyed_by (105 ∷ []))) table row_of_7 with_table).1.working)
    ⊎ ((¬ Fits (with_schemas (keyed_by (105 ∷ []))) table row_of_7 with_table)
        × ((apply_put (with_schemas (keyed_by (105 ∷ []))) table row_of_7 with_table).1
            ≡ with_table))
apply_put_lem_example = apply_put_lem (with_schemas (keyed_by (105 ∷ []))) table row_of_7 with_table
