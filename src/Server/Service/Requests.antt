-- ===== src/Server/Service/Requests.antt =====
-- What a handler answers, and when it leaves the state alone.
use relos.Prelude.{◌≡◌, ◌≢◌, refl, Option, none, List, [], ◌∷◌}
use relos.Prelude.Bytes.{Text}
use relos.Store.Memory.{MemoryStore}
use relos.Engine.Interface.{Engine}
use relos.Table.Command.{Codecs}
use relos.Server.Messages.{Value, refused, Row}
use relos.Server.Service.{empty_name, missing_row, drop_table, put, delete, get, scan}

module _ {S : Type 0} (c : Codecs) (engine : Engine S) (store_of : S → MemoryStore) where
  -- A request with an empty table name, and a put without a row, is refused before the tables are
  -- called: the state is as it was.
  pub invalid_requests_refused :
      (key : List Value) (row : Option Row) (table : Text) (s : S)
      → (drop_table c engine store_of (record { table = [] }) s ≡ (refused empty_name, s))
        × (put c engine store_of (record { table = []; row = row }) s ≡ (refused empty_name, s))
        × (delete c engine store_of (record { table = []; key = key }) s ≡ (refused empty_name, s))
        × (get c engine store_of (record { table = []; key = key }) s ≡ (refused empty_name, s))
        × (scan c engine store_of (record { table = [] }) s ≡ (refused empty_name, s))
        × (table ≢ []
            → put c engine store_of (record { table = table; row = none }) s
              ≡ (refused missing_row, s))
  unfolding drop_table put delete get scan
  invalid_requests_refused key row table s = (refl, refl, refl, refl, refl, without_row table)
    where
      without_row :
          (table : Text)
          → table ≢ []
          → put c engine store_of (record { table = table; row = none }) s
            ≡ (refused missing_row, s)
      without_row [] ne = absurd (ne refl)
      without_row (b ∷ table) ne = refl
