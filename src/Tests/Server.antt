-- ===== src/Tests/Server.antt =====
-- The client's and the server's theorems at the table of Tests/Table.antt.
use relos.Prelude.{◌≡◌, refl, false, some, List, [], ◌∷◌, ◌++◌, zero, suc, arith}
use relos.Prelude.Bytes.{Bytes, bytes_eq}
use relos.Core.{ok, Coded, coded, failed, RoundTrips}
use relos.Store.Map.Laws.{get-insert_self}
use relos.Store.Memory
use relos.Store.Memory.{MemoryStore}
use relos.Table.Schema
use relos.Table.Schema.{Row, Value, pos}
use relos.Table.Command.{Codecs, TableCommand, TableResponse, accepted, error, drop_table, put}
use relos.Table.Keys.{
  row_key, row_prefix, schema_key, encode_primary_key, encode_values, encode_value, join_zero,
}
use relos.Table.Applicator.{extract_pk, extract_pk_of, load_schema, position}
use relos.Table.Client
use relos.Table.Client.{propose_and_check, checked_response}
use relos.Table.Client.Answers.{table_engine, get-apply_put}
use relos.Table.Applicator.Commands.{Fits}
use relos.Engine.Base.{BaseEngine}
use relos.Log.MemoryLoglet
use relos.Log.MemoryLoglet.{MemoryLoglet, memory_loglet}
use relos.Prelude.Words.{add64}
use relos.Server.Messages.{response}
use relos.Server.Conversions.{
  proto_row_to_relos, relos_row_to_proto, proto_schema_to_relos, relos_schema_to_proto,
}
use relos.Server.Conversions.RoundTrips.{conversions_round_trip}
use relos.Tests.Table.{table, row_of_7, table_schema, with_table, keyed_by, with_schemas, write_row}

conversions_round_trip_example :
    (proto_row_to_relos (relos_row_to_proto row_of_7) ≡ row_of_7)
    × (proto_schema_to_relos (relos_schema_to_proto (table_schema (105 ∷ [])))
        ≡ response (table_schema (105 ∷ [])))
conversions_round_trip_example = conversions_round_trip row_of_7 (table_schema (105 ∷ []))

-- Responses are written as a tag and a text.
abbrev write_response : TableResponse → Coded Bytes
write_response accepted = coded (0 ∷ [])
write_response (error m) = coded (1 ∷ m)

abbrev read_response : Bytes → Coded TableResponse
read_response [] = failed []
read_response (zero ∷ m) = coded accepted
read_response (suc n ∷ m) = coded (error m)

same_bytes : {a b : Bytes} → coded a ≡ coded b → a ≡ b
same_bytes h = cc

abbrev write_command : TableCommand → Coded Bytes
write_command (drop_table t) = coded t
write_command _ = failed []

abbrev read_number : Bytes → Coded Row
read_number (n ∷ []) = coded (record { values = Value.int64 (pos n) ∷ [] })
read_number _ = failed []

abbrev pub written : Codecs
written = record (with_schemas (keyed_by (105 ∷ []))) {
  commands = record { serialize = write_command; deserialize = λ b. failed [] };
  responses = record { serialize = write_response; deserialize = read_response };
  rows = record { serialize = λ r. write_row r.values; deserialize = read_number };
}

responses-RoundTrips : RoundTrips written.responses
responses-RoundTrips accepted b h = rw (← same_bytes h) refl
responses-RoundTrips (error m) b h = rw (← same_bytes h) refl

rows-RoundTrips : RoundTrips written.rows
rows-RoundTrips r b h = go r.values h
  where
    go :
        (vs : List Value)
        → write_row vs ≡ coded b
        → ◌≡◌ {A = Coded Row} (read_number b) (coded (record { values = vs }))
    go [] h = cc
    go (Value.null ∷ vs) h = cc
    go (Value.utf8 s ∷ vs) h = cc
    go (Value.bytes s ∷ vs) h = cc
    go (Value.bool s ∷ vs) h = cc
    go (Value.float64 s ∷ vs) h = cc
    go (Value.int64 (Schema.negsuc n) ∷ vs) h = cc
    go (Value.int64 (pos n) ∷ []) h = rw (← same_bytes h) refl
    go (Value.int64 (pos n) ∷ v ∷ vs) h = cc

-- The payload of every entry is read as the put of the row.
abbrev serving : Codecs
serving = record written {
  commands = record { serialize = write_command; deserialize = λ b. coded (put table row_of_7) };
}

-- A server whose log has the put, at the position that its engine is about to play back.
abbrev behind : BaseEngine MemoryLoglet (Unit {0})
behind = record {
  loglet = record {
    entries = some (record { headers = []; payload = [] }) ∷ [];
    is_sealed = false;
    trim_pos = 1;
  };
  local_store = record { contents = with_table.working; poisoned = false };
  app = tt;
  cursor = 1;
}

fitting_put : Fits serving table row_of_7 with_table
unfolding extract_pk extract_pk_of position bytes_eq row_key encode_primary_key encode_values
    encode_value join_zero load_schema Memory.get
fitting_put = record {
  schema = table_schema (105 ∷ []);
  pk_values = Value.int64 (pos 7) ∷ [];
  key = row_prefix table ++ 48 ∷ 7 ∷ [];
  value = 7 ∷ [];
  loaded = rw (get-insert_self (schema_key table) table []) refl;
  whole = refl;
  extracted = refl;
  keyed = refl;
  serialized = refl;
}

get-apply_put_example :
    (Client.get serving
      (table_engine memory_loglet serving 2)
      (λ u. u.local_store)
      table
      (Value.int64 (pos 7) ∷ [])
      behind).0
    ≡ ok (some row_of_7)
unfolding MemoryLoglet.read MemoryLoglet.check_tail add64 fitting_put
get-apply_put_example =
    get-apply_put memory_loglet serving 2 table row_of_7 (record { headers = []; payload = [] })
      (0 ∷ []) behind fitting_put rows-RoundTrips refl refl refl refl refl (omega arith)
      (omega arith)
