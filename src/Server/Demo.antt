-- ===== src/Server/Demo.antt =====
-- `demo` in crates/relos-server/src/main.rs: the calls that it makes of a table. What it prints is
-- what the reads return.
use relos.Prelude.{Bool, Option, List, [], ◌∷◌, true, false}
use relos.Prelude.Bytes.{Text, text}
use relos.Core.{Exec, pure, ◌>>=◌, ◌>>◌}
use relos.Store.Memory.{MemoryStore}
use relos.Engine.Interface.{Engine}
use relos.Table.Schema
use relos.Table.Schema.{ColumnDef, TableSchema, Row, Value, pos}
use relos.Table.Command.{Codecs}
use relos.Table.Client.{create_table, put, get, scan, delete}

abbrev pub users : Text
users = text "users"

abbrev pub column : Text → Schema.ColumnType → Bool → ColumnDef
column name col_type nullable = record { name = name; col_type = col_type; nullable = nullable }

abbrev pub schema : TableSchema
schema = record {
  name = users;
  columns =
      column (text "id") Schema.ColumnType.int64 false
      ∷ column (text "name") Schema.ColumnType.utf8 false
      ∷ column (text "email") Schema.ColumnType.utf8 true
      ∷ [];
  primary_key = text "id" ∷ [];
}

abbrev pub alice : Row
alice = record {
  values =
      Value.int64 (pos 1) ∷ Value.utf8 (text "Alice") ∷ Value.utf8 (text "alice@example.com") ∷ [];
}

abbrev pub bob : Row
bob = record {
  values = Value.int64 (pos 2) ∷ Value.utf8 (text "Bob") ∷ Value.utf8 (text "bob@example.com") ∷ [];
}

-- What `demo` reads: a row, and all rows before and after a deletion
pub record Printed : Type 0 where
  pub user_1 : Option Row
  pub all_rows : List Row
  pub after_delete : List Row

module _ {S : Type 0} (c : Codecs) (engine : Engine S) (store_of : S → MemoryStore) where
  unfoldable pub demo : Exec S Printed
  demo = do
    create_table c engine store_of schema
    put c engine store_of users alice
    put c engine store_of users bob
    row ← get c engine store_of users (Value.int64 (pos 1) ∷ [])
    all_rows ← scan c engine store_of users
    delete c engine store_of users (Value.int64 (pos 2) ∷ [])
    after_delete ← scan c engine store_of users
    pure (record { user_1 = row; all_rows = all_rows; after_delete = after_delete })
