-- ===== src/Server/Messages.antt =====
-- proto/relos.proto, as the messages are in Rust: a field of message type is optional, an enum is
-- an `i32`. And `tonic::Status`, by its code.
use relos.Prelude.{ℕ, Bool, Option, List}
use relos.Prelude.Bytes.{Bytes, Text}
use relos.Table.Schema.{ℤ}

-- `proto::ColumnType`
pub data ColumnType : Type 0 where
  unspecified : ColumnType
  int64 : ColumnType
  utf8 : ColumnType
  bytes : ColumnType
  bool : ColumnType
  float64 : ColumnType

-- `proto::value::Kind`
pub data Kind : Type 0 where
  is_null : Bool → Kind
  int64_value : ℤ → Kind
  string_value : Text → Kind
  bytes_value : Bytes → Kind
  bool_value : Bool → Kind
  float64_value : ℕ → Kind

pub record Value : Type 0 where
  pub kind : Option Kind

pub record ColumnDef : Type 0 where
  pub name : Text
  pub column_type : ℤ
  pub nullable : Bool

pub record TableSchema : Type 0 where
  pub name : Text
  pub columns : List ColumnDef
  pub primary_key : List Text

pub record Row : Type 0 where
  pub values : List Value

pub record CreateTableRequest : Type 0 where
  pub schema : Option TableSchema

pub record DropTableRequest : Type 0 where
  pub table : Text

pub record PutRequest : Type 0 where
  pub table : Text
  pub row : Option Row

pub record DeleteRequest : Type 0 where
  pub table : Text
  pub key : List Value

pub record GetRequest : Type 0 where
  pub table : Text
  pub key : List Value

pub record GetResponse : Type 0 where
  pub found : Bool
  pub row : Option Row

pub record ScanRequest : Type 0 where
  pub table : Text

pub record ScanResponse : Type 0 where
  pub rows : List Row

pub data Status : Type 0 where
  invalid_argument : Text → Status
  not_found : Text → Status
  internal : Text → Status

-- What a handler returns: a response, a status, or a panic.
pub data Answer (A : Type 0) : Type 0 where
  response : A → Answer A
  refused : Status → Answer A
  panicked : Text → Answer A

-- `?` on a `Result<_, Status>`
abbrev pub and_then : {A B : Type 0} → Answer A → (A → Answer B) → Answer B
and_then (response a) f = f a
and_then (refused s) f = refused s
and_then (panicked m) f = panicked m
