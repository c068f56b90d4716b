-- ===== src/Server/Conversions/RoundTrips.antt =====
-- What is sent as a message comes back the same.
use relos.Prelude.{◌≡◌, refl, ap₂, List, [], ◌∷◌, map}
use relos.Table.Schema
use relos.Server.Messages.{response}
use relos.Server.Conversions.{
  number_of, proto_column_type_to_relos, relos_column_type_to_proto, proto_value_to_relos,
  relos_value_to_proto, proto_column_def_to_relos, relos_column_def_to_proto, collect_columns,
  proto_schema_to_relos, relos_schema_to_proto, proto_row_to_relos, relos_row_to_proto,
}

column_type_round :
    (t : Schema.ColumnType)
    → proto_column_type_to_relos (number_of (relos_column_type_to_proto t)) ≡ response t
unfolding proto_column_type_to_relos number_of relos_column_type_to_proto
column_type_round Schema.ColumnType.int64 = refl
column_type_round Schema.ColumnType.utf8 = refl
column_type_round Schema.ColumnType.bytes = refl
column_type_round Schema.ColumnType.bool = refl
column_type_round Schema.ColumnType.float64 = refl

value_round : (v : Schema.Value) → proto_value_to_relos (relos_value_to_proto v) ≡ v
unfolding proto_value_to_relos relos_value_to_proto
value_round Schema.Value.null = refl
value_round (Schema.Value.int64 n) = refl
value_round (Schema.Value.utf8 s) = refl
value_round (Schema.Value.bytes b) = refl
value_round (Schema.Value.bool b) = refl
value_round (Schema.Value.float64 f) = refl

values_round :
    (vs : List Schema.Value) → map proto_value_to_relos (map relos_value_to_proto vs) ≡ vs
values_round [] = refl
values_round (v ∷ vs) = ap₂ (λ x xs. x ∷ xs) (value_round v) (values_round vs)

columns_round :
    (cs : List Schema.ColumnDef) → collect_columns (map relos_column_def_to_proto cs) ≡ response cs
unfolding collect_columns proto_column_def_to_relos relos_column_def_to_proto
columns_round [] = refl
columns_round (c ∷ cs) = rw (column_type_round c.col_type) (rw (columns_round cs) refl)

-- A row and a schema that are converted to messages are converted back to themselves: in
-- particular no type of column and no kind of value is refused or confused with another.
pub conversions_round_trip :
    (r : Schema.Row) (s : Schema.TableSchema)
    → (proto_row_to_relos (relos_row_to_proto r) ≡ r)
      × (proto_schema_to_relos (relos_schema_to_proto s) ≡ response s)
unfolding proto_row_to_relos relos_row_to_proto proto_schema_to_relos relos_schema_to_proto
conversions_round_trip r s = (rw (values_round r.values) refl, rw (columns_round s.columns) refl)
