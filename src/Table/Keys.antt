-- ===== src/Table/Keys.antt =====
-- The keys of crates/relos-table/src/applicator.rs, which table.rs repeats.
pub mod Injectivity
use relos.Prelude.{◌≡◌, ◌≢◌, refl, subst, true, false, List, [], ◌∷◌, ◌++◌, arith}
use relos.Prelude.Bytes.{Bytes, Text, text, starts_with}
use relos.Core.{Result, ok, err, panic, and_then, coded, failed, Coded}
use relos.Table.Schema.{Value}
use relos.Table.Command.{Codecs}
use relos.Engine.Base.{cursor_key}

-- `schema_key`
unfoldable pub schema_key : Text → Bytes
schema_key table_name = text "schema/" ++ table_name

-- `row_prefix`
unfoldable pub row_prefix : Text → Bytes
row_prefix table_name = text "data/" ++ (table_name ++ text "/")

-- `.join("\x00")`
unfoldable pub join_zero : List Text → Text
join_zero [] = []
join_zero (x ∷ []) = x
join_zero (x ∷ y ∷ xs) = x ++ (0 ∷ join_zero (y ∷ xs))

module _ (c : Codecs) where
  -- The closure in `encode_primary_key`, with the panic of its `expect`
  abbrev pub encoded_or_panic : Coded Bytes → Result Text
  encoded_or_panic (coded b) = ok (c.hex_encode b)
  encoded_or_panic (failed e) = panic (text "primary key value serialization should not fail")

  unfoldable pub encode_value : Value → Result Text
  encode_value v = encoded_or_panic (c.values.serialize v)

  unfoldable pub encode_values : List Value → Result (List Text)
  encode_values [] = ok []
  encode_values (v ∷ vs) =
      let rest = encode_values vs in and_then (encode_value v) λ x. and_then rest λ xs. ok (x ∷ xs)

  unfoldable pub encode_primary_key : List Value → Result Text
  encode_primary_key values = and_then (encode_values values) λ xs. ok (join_zero xs)

  -- `row_key`
  unfoldable pub row_key : Text → List Value → Result Bytes
  row_key table_name pk_values =
      and_then (encode_primary_key pk_values) λ pk. ok (row_prefix table_name ++ pk)

starts_with-append : (p s : Bytes) → starts_with (p ++ s) p ≡ true
unfolding starts_with
starts_with-append [] s = refl
starts_with-append (b ∷ p) s = ground (arith, starts_with-append p s)

-- The key of a row begins with the prefix of its table.
pub row_key-prefix :
    (c : Codecs) (t : Text) (vs : List Value) (k : Bytes)
    → row_key c t vs ≡ ok k
    → starts_with k (row_prefix t) ≡ true
unfolding row_key
row_key-prefix c t vs k h = go (encode_primary_key c vs) h
  where
    go :
        (r : Result Text)
        → and_then r (λ pk. ok (row_prefix t ++ pk)) ≡ ok k
        → starts_with k (row_prefix t) ≡ true
    go (ok pk) e =
        subst (λ (b : Bytes). starts_with b (row_prefix t) ≡ true) (same e)
          (starts_with-append (row_prefix t) pk)
      where
        same : {a b : Bytes} → ok a ≡ ok b → a ≡ b
        same e = cc
    go (err x) e = cc
    go (panic m) e = cc

-- The engine's cursor key is neither a schema key nor under a row prefix.
pub schema_key-ne-cursor_key : (t : Text) → schema_key t ≢ cursor_key
unfolding schema_key cursor_key text
schema_key-ne-cursor_key t e = grind arith

pub cursor_key-not_row : (t : Text) → starts_with cursor_key (row_prefix t) ≡ false
unfolding row_prefix cursor_key text starts_with
cursor_key-not_row t = ground arith

pub schema_key-not_row : (s t : Text) → starts_with (schema_key s) (row_prefix t) ≡ false
unfolding row_prefix schema_key text starts_with
schema_key-not_row s t = ground arith

pub row_key-ne-cursor_key :
    (c : Codecs) (t : Text) (vs : List Value) (k : Bytes) → row_key c t vs ≡ ok k → k ≢ cursor_key
row_key-ne-cursor_key c t vs k h e =
    let under = row_key-prefix c t vs k h in
    let apart = cursor_key-not_row t in cc (under, apart, e)
