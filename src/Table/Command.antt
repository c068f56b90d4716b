-- ===== src/Table/Command.antt =====
-- crates/relos-table/src/command.rs, and what the crate uses of `bincode` and `hex`.
use relos.Prelude.{List}
use relos.Prelude.Bytes.{Bytes, Text}
use relos.Core.{Result, Codec, or_serialization_error}
use relos.Table.Schema.{TableSchema, Row, Value}

pub data TableCommand : Type 0 where
  create_table : TableSchema → TableCommand
  drop_table : Text → TableCommand
  put : Text → Row → TableCommand
  delete : Text → List Value → TableCommand

pub data TableResponse : Type 0 where
  accepted : TableResponse
  error : Text → TableResponse

-- `bincode` at the types that are serialized, and `hex::encode`.
pub record Codecs : Type 0 where
  pub commands : Codec TableCommand
  pub responses : Codec TableResponse
  pub schemas : Codec TableSchema
  pub rows : Codec Row
  pub values : Codec Value
  pub hex_encode : Bytes → Text

module _ (c : Codecs) where
  unfoldable pub command_to_bytes : TableCommand → Result Bytes
  command_to_bytes cmd = or_serialization_error (c.commands.serialize cmd)

  unfoldable pub command_from_bytes : Bytes → Result TableCommand
  command_from_bytes b = or_serialization_error (c.commands.deserialize b)

  unfoldable pub response_to_bytes : TableResponse → Result Bytes
  response_to_bytes r = or_serialization_error (c.responses.serialize r)

  unfoldable pub response_from_bytes : Bytes → Result TableResponse
  response_from_bytes b = or_serialization_error (c.responses.deserialize b)
