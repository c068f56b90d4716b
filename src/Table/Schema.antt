-- ===== src/Table/Schema.antt =====
-- crates/relos-table/src/schema.rs. An `f64` is its bit pattern; the code only carries it.
use relos.Prelude.{ℕ, Bool, List}
use relos.Prelude.Bytes.{Bytes, Text}

pub data ColumnType : Type 0 where
  int64 : ColumnType
  utf8 : ColumnType
  bytes : ColumnType
  bool : ColumnType
  float64 : ColumnType

pub record ColumnDef : Type 0 where
  pub name : Text
  pub col_type : ColumnType
  pub nullable : Bool

pub record TableSchema : Type 0 where
  pub name : Text
  pub columns : List ColumnDef
  pub primary_key : List Text

-- An `i64`: `negsuc n` is -(n + 1).
pub data ℤ : Type 0 where
  pos : ℕ → ℤ
  negsuc : ℕ → ℤ

pub data Value : Type 0 where
  null : Value
  int64 : ℤ → Value
  utf8 : Text → Value
  bytes : Bytes → Value
  bool : Bool → Value
  float64 : ℕ → Value

pub record Row : Type 0 where
  pub values : List Value
