-- ===== src/Table/Applicator/Commands.antt =====
-- What the other commands do to the store, on every branch.
use relos.Prelude.{
  ◌≡◌, ◌≢◌, ◌⊎◌, refl, ap, sym, ◌∙◌, true, Option, none, some, List, arith, length, ◌==◌,
  Bool-cases, inl, inr,
}
use relos.Prelude.Bytes.{Bytes, Text}
use relos.Core.{
  RelosError, Result, ok, err, panic, Coded, coded, failed, RoundTrips, Exec, lift, ◌>>=◌, ◌>>◌,
  or_serialization_error,
}
use relos.Store.Map
use relos.Store.Map.{StoreData}
use relos.Store.Map.Laws.{get-insert_self, get-insert_ne}
use relos.Store.Memory
use relos.Store.Memory.{MemoryWriteTx}
use relos.Engine.Interface.{ReturnValue}
use relos.Table.Schema.{TableSchema, Row, Value}
use relos.Table.Command.{Codecs, accepted, error}
use relos.Table.Keys.{schema_key, row_key}
use relos.Table.Applicator.{
  apply_create_table, apply_put, put_row, put_with, respond, extract_pk, load_schema, make_response,
  table_exists,
}

-- The store after a value was written at a key.
abbrev pub WrittenAt : Bytes → Bytes → StoreData → StoreData → Type 0
WrittenAt key value m m' =
    (Map.get key m' ≡ some value) × ((k : Bytes) → k ≢ key → Map.get k m' ≡ Map.get k m)

-- Creating a table whose schema is serialized (by a codec that reads back what it writes) writes it, if there was none of its name, under the
-- schema key and nowhere else, and a later lookup then finds this schema; if there was one, it
-- writes nothing and answers with an error.
pub apply_create_table_lem :
    (c : Codecs) (schema : TableSchema) (value : Bytes) (t : MemoryWriteTx)
    → RoundTrips c.schemas
    → c.schemas.serialize schema ≡ coded value
    → ((b : Bytes)
        → Map.get (schema_key schema.name) t.working ≡ some b
        → apply_create_table c schema t ≡ (make_response c (error (table_exists schema.name)), t))
      × (Map.get (schema_key schema.name) t.working ≡ none
          → ((apply_create_table c schema t).0 ≡ make_response c accepted)
            × WrittenAt
                (schema_key schema.name)
                value
                t.working
                (apply_create_table c schema t).1.working
            × (load_schema c schema.name (apply_create_table c schema t).1 ≡ ok (some schema)))
unfolding apply_create_table Memory.get Memory.put load_schema
apply_create_table_lem c schema value t round ser = (
  λ b found. rw found refl,
  λ missing. rw missing (
      rw ser (
        refl,
        (
          get-insert_self (schema_key schema.name) value t.working,
          λ k ne. get-insert_ne (schema_key schema.name) k value t.working ne,
        ),
        rw (get-insert_self (schema_key schema.name) value t.working)
            (rw (round schema value ser) refl),
      )),
)

-- What a put needs: the table has a schema that is read, the row is as long as the schema, and its
-- primary key and the row are encoded.
pub record Fits (c : Codecs) (table : Text) (row : Row) (t : MemoryWriteTx) : Type 0 where
  pub schema : TableSchema
  pub pk_values : List Value
  pub key : Bytes
  pub value : Bytes
  pub loaded : load_schema c table t ≡ ok (some schema)
  pub whole : length row.values ≡ length schema.columns
  pub extracted : extract_pk schema row ≡ ok pk_values
  pub keyed : row_key c table pk_values ≡ ok key
  pub serialized : c.rows.serialize row ≡ coded value

-- What a put may leave: the row at its key and nothing else new, or nothing new.
abbrev pub PutOutcome :
    Codecs → Text → Row → MemoryWriteTx → Result ReturnValue × MemoryWriteTx → Type 0
PutOutcome c table row t r =
    ((f : Fits c table row t) × (r.0 ≡ make_response c accepted)
      × WrittenAt f.key f.value t.working r.1.working)
    ⊎ ((¬ Fits c table row t) × (r.1 ≡ t))

-- A step that may fail, and then leaves the transaction as it is.
stepped :
    {A B S : Type 0} (r : Result A) (f : A → Exec S B) (s : S) (P : Result B × S → Type 0)
    → ((a : A) → r ≡ ok a → P (f a s))
    → (((a : A) → r ≢ ok a) → (q : Result B) → P (q, s))
    → P ((lift r >>= f) s)
stepped (ok a) f s P go stop = go a refl
stepped (err e) f s P go stop = stop (λ a h. cc) (err e)
stepped (panic m) f s P go stop = stop (λ a h. cc) (panic m)

module _ (c : Codecs) (table : Text) (row : Row) (t : MemoryWriteTx) where
  put-WrittenAt :
      (schema : TableSchema) (pk_values : List Value) (key : Bytes)
      → load_schema c table t ≡ ok (some schema)
      → length row.values ≡ length schema.columns
      → extract_pk schema row ≡ ok pk_values
      → row_key c table pk_values ≡ ok key
      → (v : Coded Bytes) → c.rows.serialize row ≡ v
      → PutOutcome c table row t (
          (lift (or_serialization_error v) >>= λ value. Memory.put key value >> respond c accepted)
            t)
  unfolding Memory.put
  put-WrittenAt schema pk_values key loaded whole pk keyed (coded value) ser = inl (
    record {
      schema = schema;
      pk_values = pk_values;
      key = key;
      value = value;
      loaded = loaded;
      whole = whole;
      extracted = pk;
      keyed = keyed;
      serialized = ser;
    },
    refl,
    (get-insert_self key value t.working, λ k ne. get-insert_ne key k value t.working ne),
  )
  put-WrittenAt schema pk_values key loaded whole pk keyed (failed m) ser =
      inr (λ f. cc (f.serialized, ser), refl)

  put_row-PutOutcome :
      (schema : TableSchema)
      → load_schema c table t ≡ ok (some schema)
      → length row.values ≡ length schema.columns
      → PutOutcome c table row t (put_row c table row schema t)
  put_row-PutOutcome schema loaded whole =
      stepped (extract_pk schema row) _ t (PutOutcome c table row t)
        (λ pk_values pk.
          stepped (row_key c table pk_values) _ t (PutOutcome c table row t)
            (λ key keyed.
              put-WrittenAt schema pk_values key loaded whole pk keyed (c.rows.serialize row) refl)
            (λ never q. inr (
              λ f.
                  let at : f.schema ≡ schema = cc (f.loaded, loaded) in
                  let same : f.pk_values ≡ pk_values = cc (f.extracted, pk, at) in
                  never f.key (ap (row_key c table) (sym same) ∙ f.keyed),
              refl,
            )))
        (λ never q. inr (
          λ f.
              let at : f.schema ≡ schema = cc (f.loaded, loaded) in
              never f.pk_values (ap (λ s. extract_pk s row) (sym at) ∙ f.extracted),
          refl,
        ))

  put_with-PutOutcome :
      (o : Option TableSchema)
      → load_schema c table t ≡ ok o
      → PutOutcome c table row t (put_with c table row o t)
  put_with-PutOutcome none loaded = inr (λ f. cc (f.loaded, loaded), refl)
  put_with-PutOutcome (some schema) loaded =
      elim (Bool-cases (length row.values == length schema.columns)) [
        | inl same ↦ rw same (put_row-PutOutcome schema loaded (ground (arith, same)))
        | inr other ↦ rw other (
            inr (
              λ f.
                  let at : f.schema ≡ schema = cc (f.loaded, loaded) in
                  let whole = f.whole ∙ ap (λ (s : TableSchema). length s.columns) at in
                  absurd (ground (arith, other, whole)),
              refl,
            ))
      ]

pub apply_put-Fits :
    (c : Codecs) (table : Text) (row : Row) (t : MemoryWriteTx) (f : Fits c table row t)
    → ((apply_put c table row t).0 ≡ make_response c accepted)
      × WrittenAt f.key f.value t.working (apply_put c table row t).1.working
unfolding apply_put Memory.put
apply_put-Fits c table row t f =
    let same : (length row.values == length f.schema.columns) ≡ true = ground (arith, f.whole) in
    rw (f.loaded, same, f.extracted, f.keyed, f.serialized)
      (
        refl,
        (
          get-insert_self f.key f.value t.working,
          λ k ne. get-insert_ne f.key k f.value t.working ne,
        ),
      )

-- A put writes exactly when the row fits the table: then it is accepted, and the encoded row is at
-- the key of the row, with every other key as it was. If the table has no schema or it cannot be
-- read, the row is not as long as the schema, a column of the key is missing, or an encoding fails,
-- nothing is written.
pub apply_put_lem :
    (c : Codecs) (table : Text) (row : Row) (t : MemoryWriteTx)
    → ((f : Fits c table row t) × ((apply_put c table row t).0 ≡ make_response c accepted)
        × WrittenAt f.key f.value t.working (apply_put c table row t).1.working)
      ⊎ ((¬ Fits c table row t) × ((apply_put c table row t).1 ≡ t))
unfolding apply_put
apply_put_lem c table row t =
    stepped (load_schema c table t) (put_with c table row) t (PutOutcome c table row t)
      (put_with-PutOutcome c table row t)
      (λ never q. inr (λ f. never (some f.schema) f.loaded, refl))

-- A put of a row that has the schema's length but whose key columns the schema or the row lacks
-- is an error of the applicator, which stops the apply loop, and not an answer to the client. It
-- writes nothing.
pub apply_put_refused :
    (c : Codecs) (table : Text) (row : Row) (schema : TableSchema) (t : MemoryWriteTx)
    (e : RelosError)
    → load_schema c table t ≡ ok (some schema)
    → length row.values ≡ length schema.columns
    → extract_pk schema row ≡ err e
    → apply_put c table row t ≡ (err e, t)
unfolding apply_put
apply_put_refused c table row schema t e loaded len pk =
    let same : (length row.values == length schema.columns) ≡ true = ground (arith, len) in
    rw loaded (rw same (rw pk refl))
