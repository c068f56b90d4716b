-- ===== src/Tests/Keys.antt =====
-- The row keys' theorem at codecs that write a number as one byte, and a byte as the next one.
use relos.Prelude.{ℕ, suc, ◌≡◌, ◌≢◌, refl, ap, ap₂, ◌∙◌, List, [], ◌∷◌, ◌++◌, map, arith}
use relos.Prelude.Bytes.{Bytes}
use relos.Core.{Coded, coded, failed, RoundTrips}
use relos.Table.Schema.{Value, pos, negsuc}
use relos.Table.Command.{Codecs}
use relos.Table.Keys.{
  row_key, row_prefix, encode_primary_key, encode_values, encode_value, join_zero,
}
use relos.Table.Keys.Injectivity.{IsZeroFree, row_key-injective}
use relos.Tests.Table.{table, keyed_by, with_schemas}

abbrev write_value : Value → Coded Bytes
write_value (Value.int64 (pos n)) = coded (n ∷ [])
write_value _ = failed []

abbrev read_value : Bytes → Coded Value
read_value (n ∷ []) = coded (Value.int64 (pos n))
read_value _ = failed []

abbrev shifted : Codecs
shifted = record (with_schemas (keyed_by (105 ∷ []))) {
  values = record { serialize = write_value; deserialize = read_value };
  hex_encode = λ b. map suc b;
}

same_bytes : {a b : Bytes} → coded a ≡ coded b → a ≡ b
same_bytes h = cc

values-RoundTrips : RoundTrips shifted.values
values-RoundTrips (Value.int64 (pos n)) b h = rw (← same_bytes h) refl
values-RoundTrips Value.null b h = cc
values-RoundTrips (Value.int64 (negsuc n)) b h = cc
values-RoundTrips (Value.utf8 t) b h = cc
values-RoundTrips (Value.bytes t) b h = cc
values-RoundTrips (Value.bool t) b h = cc
values-RoundTrips (Value.float64 n) b h = cc

shifted-injective : (a b : Bytes) → map suc a ≡ map suc b → a ≡ b
shifted-injective [] [] e = refl
shifted-injective [] (y ∷ b) e = cc
shifted-injective (x ∷ a) [] e = cc
shifted-injective (x ∷ a) (y ∷ b) e =
    let heads : suc x ≡ suc y = cc in
    let tails : map suc a ≡ map suc b = cc in
    ap₂ (λ h t. h ∷ t) (omega (arith, heads)) (shifted-injective a b tails)

shifted-IsZeroFree : (a : Bytes) → IsZeroFree (map suc a)
shifted-IsZeroFree [] = tt
shifted-IsZeroFree (x ∷ a) = ((λ e. cc), shifted-IsZeroFree a)

no_byte : {n : ℕ} → n ∷ [] ≢ []
no_byte e = cc

written : (v : Value) (b : Bytes) → write_value v ≡ coded b → map suc b ≢ []
written (Value.int64 (pos n)) b h e = let is = same_bytes h in no_byte (ap (map suc) is ∙ e)
written Value.null b h e = cc
written (Value.int64 (negsuc n)) b h e = cc
written (Value.utf8 t) b h e = cc
written (Value.bytes t) b h e = cc
written (Value.bool t) b h e = cc
written (Value.float64 n) b h e = cc

abbrev key : List Value
key = Value.int64 (pos 7) ∷ Value.int64 (pos 2) ∷ []

row_key-injective_example : key ≡ key
unfolding row_key encode_primary_key encode_values encode_value join_zero
row_key-injective_example =
    row_key-injective shifted values-RoundTrips shifted-injective shifted-IsZeroFree written table
      key key (row_prefix table ++ 8 ∷ 0 ∷ 3 ∷ []) refl refl
