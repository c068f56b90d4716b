-- ===== src/Server/Service.antt =====
-- The handlers of `RelosTableService` in crates/relos-server/src/grpc_service.rs, over the tables
-- of Table/Client.antt. A handler changes the state `S` of all that is below the tables.
pub mod Requests
use relos.Prelude.{ℕ, Bool, true, false, Option, none, some, List, [], ◌∷◌, map}
use relos.Prelude.Bytes.{Text, text}
use relos.Core.{Result, ok, err, panic}
use relos.Store.Memory.{MemoryStore}
use relos.Engine.Interface.{Engine}
use relos.Table.Schema
use relos.Table.Command.{Codecs}
use relos.Table.Client
use relos.Server.Messages.{
  CreateTableRequest, DropTableRequest, PutRequest, DeleteRequest, GetRequest, GetResponse,
  ScanRequest, ScanResponse, TableSchema, Row, Status, invalid_argument, Answer, response, refused,
  panicked, and_then,
}
use relos.Server.Conversions.{
  proto_schema_to_relos, proto_row_to_relos, relos_row_to_proto, proto_value_to_relos,
  relos_err_to_status,
}

pub empty_name : Status
empty_name = invalid_argument (text "table name must not be empty")

pub missing_schema : Status
missing_schema = invalid_argument (text "missing schema")

pub missing_row : Status
missing_row = invalid_argument (text "missing row")

abbrev pub Handler : Type 0 → Type 0 → Type 0
Handler S A = S → Answer A × S

-- `.ok_or_else(..)?` on an optional field
abbrev pub required : {A : Type 0} → Option A → Status → Answer A
required none status = refused status
required (some a) status = response a

module _ {S : Type 0} where
  abbrev pub continue : {A B : Type 0} → Answer A → (A → Handler S B) → Handler S B
  continue (response a) f s = f a s
  continue (refused status) f s = (refused status, s)
  continue (panicked m) f s = (panicked m, s)

  -- `if req.table.is_empty() { return Err(..) }`
  abbrev pub named : {A : Type 0} → Text → Handler S A → Handler S A
  named [] f s = (refused empty_name, s)
  named (b ∷ table) f s = f s

  -- `.await.map_err(relos_err_to_status)?`, and the response after it
  abbrev pub answer_with : {A B : Type 0} → (A → B) → Result A × S → Answer B × S
  answer_with f (ok a, s) = (response (f a), s)
  answer_with f (err e, s) = (refused (relos_err_to_status e), s)
  answer_with f (panic m, s) = (panicked m, s)

-- The `match` on the row that `get` found
abbrev pub get_response : Option Schema.Row → GetResponse
get_response (some row) = record { found = true; row = some (relos_row_to_proto row) }
get_response none = record { found = false; row = none }

module _ {S : Type 0} (c : Codecs) (engine : Engine S) (store_of : S → MemoryStore) where
  unfoldable pub create_table : CreateTableRequest → Handler S (Unit {0})
  create_table req =
      continue (and_then (required req.schema missing_schema) proto_schema_to_relos)
        λ schema s. answer_with (λ done. tt) (Client.create_table c engine store_of schema s)

  unfoldable pub drop_table : DropTableRequest → Handler S (Unit {0})
  drop_table req =
      named req.table
        λ s. answer_with (λ done. tt) (Client.drop_table c engine store_of req.table s)

  unfoldable pub put : PutRequest → Handler S (Unit {0})
  put req = named req.table (
      continue (required req.row missing_row) λ row s.
        answer_with (λ done. tt)
          (Client.put c engine store_of req.table (proto_row_to_relos row) s))

  unfoldable pub delete : DeleteRequest → Handler S (Unit {0})
  delete req = named req.table λ s.
      answer_with (λ done. tt)
        (Client.delete c engine store_of req.table (map proto_value_to_relos req.key) s)

  unfoldable pub get : GetRequest → Handler S GetResponse
  get req = named req.table λ s.
      answer_with get_response
        (Client.get c engine store_of req.table (map proto_value_to_relos req.key) s)

  unfoldable pub scan : ScanRequest → Handler S ScanResponse
  scan req = named req.table λ s.
      answer_with (λ rows. record { rows = map relos_row_to_proto rows })
        (Client.scan c engine store_of req.table s)
