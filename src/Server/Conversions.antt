-- ===== src/Server/Conversions.antt =====
-- crates/relos-server/src/grpc_service.rs: the conversions between the messages and the tables'
-- types, and from errors to statuses; crates/relos-core/src/error.rs: the text of an error.
pub mod RoundTrips
use relos.Prelude.{
  ℕ, Bool, true, false, Option, none, some, List, [], ◌∷◌, ◌++◌, map, ◌==◌, if◌then◌else◌,
}
use relos.Prelude.Bytes.{Text, text}
use relos.Core.{RelosError, sealed, trimmed, end_of_log, version_mismatch, serialization, store, io}
use relos.Log.Decimal.{decimal}
use relos.Table.Schema
use relos.Table.Schema.{ℤ, pos, negsuc}
use relos.Server.Messages
use relos.Server.Messages.{
  Kind, is_null, int64_value, string_value, bytes_value, bool_value, float64_value, Status,
  invalid_argument, not_found, internal, Answer, response, refused, and_then,
}

pub unknown_column_type : Status
unknown_column_type = invalid_argument (text "unspecified or unknown column type")

-- `proto::ColumnType::try_from`, which prost derives from the numbers in the .proto file
abbrev pub try_from_ℕ : ℕ → Option Messages.ColumnType
try_from_ℕ n =
    if n == 0
    then some Messages.ColumnType.unspecified
    else if n == 1
    then some Messages.ColumnType.int64
    else if n == 2
    then some Messages.ColumnType.utf8
    else if n == 3
    then some Messages.ColumnType.bytes
    else if n == 4
    then some Messages.ColumnType.bool
    else if n == 5
    then some Messages.ColumnType.float64
    else none

abbrev pub try_from : ℤ → Option Messages.ColumnType
try_from (pos n) = try_from_ℕ n
try_from (negsuc n) = none

-- `proto::ColumnType::into`, to its number
unfoldable pub number_of : Messages.ColumnType → ℤ
number_of Messages.ColumnType.unspecified = pos 0
number_of Messages.ColumnType.int64 = pos 1
number_of Messages.ColumnType.utf8 = pos 2
number_of Messages.ColumnType.bytes = pos 3
number_of Messages.ColumnType.bool = pos 4
number_of Messages.ColumnType.float64 = pos 5

abbrev pub known_column_type : Option Messages.ColumnType → Answer Schema.ColumnType
known_column_type (some Messages.ColumnType.int64) = response Schema.ColumnType.int64
known_column_type (some Messages.ColumnType.utf8) = response Schema.ColumnType.utf8
known_column_type (some Messages.ColumnType.bytes) = response Schema.ColumnType.bytes
known_column_type (some Messages.ColumnType.bool) = response Schema.ColumnType.bool
known_column_type (some Messages.ColumnType.float64) = response Schema.ColumnType.float64
known_column_type (some Messages.ColumnType.unspecified) = refused unknown_column_type
known_column_type none = refused unknown_column_type

unfoldable pub proto_column_type_to_relos : ℤ → Answer Schema.ColumnType
proto_column_type_to_relos ct = known_column_type (try_from ct)

unfoldable pub relos_column_type_to_proto : Schema.ColumnType → Messages.ColumnType
relos_column_type_to_proto Schema.ColumnType.int64 = Messages.ColumnType.int64
relos_column_type_to_proto Schema.ColumnType.utf8 = Messages.ColumnType.utf8
relos_column_type_to_proto Schema.ColumnType.bytes = Messages.ColumnType.bytes
relos_column_type_to_proto Schema.ColumnType.bool = Messages.ColumnType.bool
relos_column_type_to_proto Schema.ColumnType.float64 = Messages.ColumnType.float64

abbrev pub value_of_kind : Option Kind → Schema.Value
value_of_kind none = Schema.Value.null
value_of_kind (some (is_null b)) = Schema.Value.null
value_of_kind (some (int64_value n)) = Schema.Value.int64 n
value_of_kind (some (string_value s)) = Schema.Value.utf8 s
value_of_kind (some (bytes_value b)) = Schema.Value.bytes b
value_of_kind (some (bool_value b)) = Schema.Value.bool b
value_of_kind (some (float64_value f)) = Schema.Value.float64 f

unfoldable pub proto_value_to_relos : Messages.Value → Schema.Value
proto_value_to_relos v = value_of_kind v.kind

abbrev pub kind_of : Schema.Value → Kind
kind_of Schema.Value.null = is_null true
kind_of (Schema.Value.int64 n) = int64_value n
kind_of (Schema.Value.utf8 s) = string_value s
kind_of (Schema.Value.bytes b) = bytes_value b
kind_of (Schema.Value.bool b) = bool_value b
kind_of (Schema.Value.float64 f) = float64_value f

unfoldable pub relos_value_to_proto : Schema.Value → Messages.Value
relos_value_to_proto v = record { kind = some (kind_of v) }

unfoldable pub proto_column_def_to_relos : Messages.ColumnDef → Answer Schema.ColumnDef
proto_column_def_to_relos cd =
    and_then (proto_column_type_to_relos cd.column_type)
      λ t. response (record { name = cd.name; col_type = t; nullable = cd.nullable })

unfoldable pub relos_column_def_to_proto : Schema.ColumnDef → Messages.ColumnDef
relos_column_def_to_proto cd = record {
  name = cd.name;
  column_type = number_of (relos_column_type_to_proto cd.col_type);
  nullable = cd.nullable;
}

-- `.map(proto_column_def_to_relos).collect::<Result<Vec<_>, _>>()`
unfoldable pub collect_columns : List Messages.ColumnDef → Answer (List Schema.ColumnDef)
collect_columns [] = response []
collect_columns (cd ∷ cds) =
    let rest = collect_columns cds in
    and_then (proto_column_def_to_relos cd) λ c. and_then rest λ cs. response (c ∷ cs)

unfoldable pub proto_schema_to_relos : Messages.TableSchema → Answer Schema.TableSchema
proto_schema_to_relos s =
    and_then (collect_columns s.columns)
      λ columns. response (record { name = s.name; columns = columns; primary_key = s.primary_key })

unfoldable pub relos_schema_to_proto : Schema.TableSchema → Messages.TableSchema
relos_schema_to_proto s = record {
  name = s.name;
  columns = map relos_column_def_to_proto s.columns;
  primary_key = s.primary_key;
}

unfoldable pub proto_row_to_relos : Messages.Row → Schema.Row
proto_row_to_relos r = record { values = map proto_value_to_relos r.values }

unfoldable pub relos_row_to_proto : Schema.Row → Messages.Row
relos_row_to_proto r = record { values = map relos_value_to_proto r.values }

-- `RelosError::to_string`
pub to_string : RelosError → Text
to_string (sealed p) = text "log sealed at position " ++ decimal p
to_string (trimmed p) = text "position " ++ (decimal p ++ text " has been trimmed")
to_string end_of_log = text "end of log reached"
to_string (version_mismatch expected actual) =
    text "version mismatch: expected " ++ (decimal expected ++ (text ", got " ++ decimal actual))
to_string (serialization m) = text "serialization error: " ++ m
to_string (store m) = text "store error: " ++ m
to_string (RelosError.not_found m) = text "not found: " ++ m
to_string (RelosError.invalid_operation m) = text "invalid operation: " ++ m
to_string (io m) = text "io error: " ++ m
to_string (RelosError.internal m) = text "internal error: " ++ m

unfoldable pub relos_err_to_status : RelosError → Status
relos_err_to_status (RelosError.not_found m) = not_found m
relos_err_to_status (RelosError.invalid_operation m) = invalid_argument m
relos_err_to_status (serialization m) = internal (text "serialization error: " ++ m)
relos_err_to_status (store m) = internal (text "store error: " ++ m)
relos_err_to_status (RelosError.internal m) = internal m
relos_err_to_status (sealed p) = internal (to_string (sealed p))
relos_err_to_status (trimmed p) = internal (to_string (trimmed p))
relos_err_to_status end_of_log = internal (to_string end_of_log)
relos_err_to_status (version_mismatch e a) = internal (to_string (version_mismatch e a))
relos_err_to_status (io m) = internal (to_string (io m))
