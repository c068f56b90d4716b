-- ===== src/Table/Client/Answers.antt =====
-- What the client is told: the applicator's answer to a write, and for a read what was last put.
use relos.Prelude.{
  ℕ, ◌+◌, ◌<◌, ◌^◌, ◌≡◌, refl, ap, sym, ◌∙◌, false, Option, none, some, List, [], ◌∷◌, ◌++◌,
}
use mathlib.Core.List.{append_assoc}
use relos.Prelude.Words.{add64}
use relos.Prelude.Bytes.{Bytes, Text, text}
use relos.Core
use relos.Core.{
  LogPos, Entry, RelosError, Result, ok, err, panic, and_then, coded, RoundTrips, Exec,
}
use relos.Log.Loglet.{Loglet}
use relos.Store.Map
use relos.Store.Map.{StoreData}
use relos.Store.Map.Laws.{get-insert_ne}
use relos.Store.Memory.{MemoryStore, MemoryWriteTx, begin_read_txn, read_get}
use relos.Engine.Interface.{Engine, ReturnValue, success, output}
use relos.Engine.Base.{BaseEngine, base_engine, cursor_key, to_le_bytes}
use relos.Engine.Base.Playback.{replay, replay-applied, machine_of, with_machine}
use relos.Engine.Base.Playback.Syncing.{handle_sync-replay}
use relos.Table.Schema.{Row, Value}
use relos.Table.Command.{
  Codecs, TableCommand, TableResponse, accepted, command_to_bytes, command_from_bytes,
  response_to_bytes, response_from_bytes,
}
use relos.Table.Keys
use relos.Table.Keys.{join_zero, row_key-ne-cursor_key}
use relos.Table.Applicator.{apply_put, apply_entry, apply_command, make_response, table_applicator}
use relos.Table.Applicator.Commands.{Fits, apply_put-Fits}
use relos.Table.Client.{
  encoded_or_panic, encode_values, encode_primary_key, row_key, propose_and_check, checked_response,
  get, read_row,
}

module _ {S : Type 0} (c : Codecs) (engine : Engine S) (store_of : S → MemoryStore) where
  -- A command that is serialized is proposed to the engine as an entry without headers. If the
  -- engine returns a serialized response, the client has success for an acceptance and an invalid
  -- operation with its text for an error; an error of the engine is passed on. In each case the
  -- state is the one the engine leaves.
  pub propose_and_check_lem :
      (cmd : TableCommand) (payload : Bytes) (s s' : S)
      → RoundTrips c.responses
      → c.commands.serialize cmd ≡ coded payload
      → ((resp : TableResponse) (b : Bytes)
          → c.responses.serialize resp ≡ coded b
          → engine.propose (Core.new payload) s ≡ (ok (output b), s')
          → propose_and_check c engine store_of cmd s
            ≡ (checked_response c engine store_of resp, s'))
        × ((e : RelosError)
            → engine.propose (Core.new payload) s ≡ (err e, s')
            → propose_and_check c engine store_of cmd s ≡ (err e, s'))
  unfolding propose_and_check command_to_bytes response_from_bytes
  propose_and_check_lem cmd payload s s' round ser = (
    λ resp b written returned. rw ser (rw returned (rw (round resp b written) refl)),
    λ e returned. rw ser (rw returned refl),
  )

-- The client's key of a row is the applicator's.
encode_values-same : (c : Codecs) (vs : List Value) → encode_values c vs ≡ Keys.encode_values c vs
unfolding encode_values Keys.encode_values Keys.encode_value
encode_values-same c [] = refl
encode_values-same c (v ∷ vs) =
    ap
      (λ (r : Result (List Text)).
        and_then (encoded_or_panic c (c.values.serialize v)) λ x. and_then r λ xs. ok (x ∷ xs))
      (encode_values-same c vs)

row_key-same :
    (c : Codecs) (table : Text) (vs : List Value) → row_key c table vs ≡ Keys.row_key c table vs
unfolding row_key encode_primary_key Keys.row_key Keys.encode_primary_key Keys.row_prefix
row_key-same c table vs =
    ap
      (λ (r : Result (List Text)).
        and_then (and_then r λ xs. ok (join_zero xs))
          λ pk. ok (text "data/" ++ (table ++ (text "/" ++ pk))))
      (encode_values-same c vs)
    ∙ joined (Keys.encode_values c vs)
  where
    regrouped :
        (pk : Text)
        → text "data/" ++ (table ++ (text "/" ++ pk)) ≡ (text "data/" ++ (table ++ text "/")) ++ pk
    regrouped pk =
        ap (λ k. text "data/" ++ k) (sym (append_assoc table (text "/") pk))
        ∙ sym (append_assoc (text "data/") (table ++ text "/") pk)

    joined :
        (r : Result (List Text))
        → and_then
            (and_then r λ xs. ok (join_zero xs))
            (λ pk. ok (text "data/" ++ (table ++ (text "/" ++ pk))))
          ≡ and_then
              (and_then r λ xs. ok (join_zero xs))
              (λ pk. ok ((text "data/" ++ (table ++ text "/")) ++ pk))
    joined (ok xs) = ap (λ k. ok k) (regrouped (join_zero xs))
    joined (err e) = refl
    joined (panic m) = refl

-- A get over any engine, by the state that its sync leaves.
get-synced :
    {S : Type 0} (c : Codecs) (engine : Engine S) (store_of : S → MemoryStore) (table : Text)
    (key : List Value) (p : LogPos) (s s' : S)
    → engine.sync s ≡ (ok p, s')
    → get c engine store_of table key s
      ≡ (and_then (begin_read_txn (store_of s')) (read_row c engine store_of table key), s')
unfolding get
get-synced c engine store_of table key p s s' synced = rw synced refl

read_row-held :
    {S : Type 0} (c : Codecs) (engine : Engine S) (store_of : S → MemoryStore) (table : Text)
    (pk_values : List Value) (m : StoreData) (key value : Bytes) (row : Row)
    → row_key c table pk_values ≡ ok key
    → Map.get key m ≡ some value
    → c.rows.deserialize value ≡ coded row
    → and_then
        (begin_read_txn (record { contents = m; poisoned = false }))
        (read_row c engine store_of table pk_values)
      ≡ ok (some row)
unfolding begin_read_txn read_row read_get
read_row-held c engine store_of table pk_values m key value row keyed held read =
    rw (keyed, held, read) refl

module _ {L : Type 0} (log : Loglet L) (c : Codecs) (fuel : ℕ) where
  abbrev pub Server : Type 0
  Server = BaseEngine L (Unit {0})

  -- The engine of a server of tables, and the transaction that its store would begin.
  abbrev pub table_engine : Engine Server
  table_engine = base_engine log (table_applicator c) fuel

  abbrev pub transaction : Server → MemoryWriteTx
  transaction s = record { working = s.local_store.contents; committed = false }

  -- The store after the entry of a put, with the cursor that the engine persists with it.
  abbrev played : Text → Row → Server → StoreData
  played table row s =
      Map.insert cursor_key (to_le_bytes 8 (add64 s.cursor 1))
        (apply_put c table row (transaction s)).1.working

  apply_entry-put :
      (table : Text) (row : Row) (entry : Entry) (t : MemoryWriteTx)
      → c.commands.deserialize entry.payload ≡ coded (TableCommand.put table row)
      → apply_entry c entry t ≡ apply_put c table row t
  unfolding apply_entry apply_command command_from_bytes
  apply_entry-put table row entry t read = rw read refl

  acceptance :
      (answer : Bytes)
      → c.responses.serialize accepted ≡ coded answer
      → make_response c accepted ≡ ok (output answer)
  unfolding make_response response_to_bytes
  acceptance answer written = rw written refl

  replay-put :
      (table : Text) (row : Row) (entry : Entry) (answer : Bytes) (s : Server)
      → Fits c table row (transaction s)
      → c.commands.deserialize entry.payload ≡ coded (TableCommand.put table row)
      → c.responses.serialize accepted ≡ coded answer
      → replay log
          (table_applicator c)
          (entry ∷ [])
          s.cursor
          success
          (machine_of log (table_applicator c) s)
        ≡ some (output answer, (played table row s, s.app))
  replay-put table row entry answer s f read written =
      let t = transaction s in
      let done = (apply_put-Fits c table row t f).0 ∙ acceptance answer written in
      let applied : apply_entry c entry t ≡ (ok (output answer), (apply_put c table row t).1) =
        apply_entry-put table row entry t read ∙ ap (λ r. (r, (apply_put c table row t).1)) done in
      replay-applied log (table_applicator c) entry s.cursor success (output answer)
        (machine_of log (table_applicator c) s) ((apply_put c table row t).1, s.app)
        (ap (λ (x : Result ReturnValue × MemoryWriteTx). (x.0, (x.1, s.app))) applied)

  -- A get on a server whose log has one entry more than its engine has played back, a put of a row
  -- that fits its table, returns the row at its primary key: the sync plays the put back, and the
  -- client looks where the applicator wrote. (The entry's bytes are read as the put, rows are read
  -- back as written, the acceptance is encoded, the store's lock is not poisoned, the next position
  -- fits in a word, and the engine has two rounds.)
  pub get-apply_put :
      (table : Text) (row : Row) (entry : Entry) (answer : Bytes) (s : Server)
      → (f : Fits c table row (transaction s)) → RoundTrips c.rows
      → c.commands.deserialize entry.payload ≡ coded (TableCommand.put table row)
      → c.responses.serialize accepted ≡ coded answer
      → s.local_store.poisoned ≡ false
      → log.read s.cursor s.loglet ≡ ok (some entry)
      → log.check_tail s.loglet ≡ ok (s.cursor + 1)
      → s.cursor + 1 < 2 ^ 64
      → 1 < fuel
      → (get c table_engine (λ u. u.local_store) table f.pk_values s).0 ≡ ok (some row)
  get-apply_put table row entry answer s f round read written fine found tail room enough =
      let m = played table row s in
      let synced =
        handle_sync-replay log (table_applicator c) (entry ∷ []) fuel (s.cursor + 1) s
          (output answer) (m, s.app) enough fine tail refl room (found, tt)
          (replay-put table row entry answer s f read written) in
      let s' = with_machine log (table_applicator c) s (m, s.app) (s.cursor + 1) in
      let returned =
        ap
          (λ (o : Option (Result LogPos × Server)). elim o [
            | none ↦ (panic (text "still going round"), s)
            | some x ↦ x
          ])
          synced in
      let apart = row_key-ne-cursor_key c table f.pk_values f.key f.keyed in
      let held : Map.get f.key m ≡ some f.value =
        get-insert_ne cursor_key f.key (to_le_bytes 8 (add64 s.cursor 1))
          (apply_put c table row (transaction s)).1.working apart
        ∙ (apply_put-Fits c table row (transaction s) f).1.0 in
      ap (λ (x : Result (Option Row) × Server). x.0)
        (get-synced c table_engine (λ u. u.local_store) table f.pk_values (s.cursor + 1) s s'
          returned)
      ∙ read_row-held c table_engine (λ u. u.local_store) table f.pk_values m f.key f.value row
          (row_key-same c table f.pk_values ∙ f.keyed) held (round row f.value f.serialized)
