-- ===== src/Table/Keys/Injectivity.antt =====
-- The keys in the store of different rows of a table.
use relos.Prelude.{◌≡◌, ◌≢◌, refl, ap, ap₂, sym, ◌∙◌, List, [], ◌∷◌, ◌++◌, All}
use relos.Prelude.Bytes.{Bytes, Text}
use relos.Core.{ok_inj, Result, ok, err, panic, and_then, Coded, coded, failed, RoundTrips}
use relos.Table.Schema.{Value}
use relos.Table.Command.{Codecs}
use relos.Table.Keys.{
  row_prefix, join_zero, encoded_or_panic, encode_value, encode_values, encode_primary_key, row_key,
}

abbrev pub IsZeroFree : Text → Type 0
IsZeroFree = All (λ b. b ≢ 0)

-- A part of a joined key: it is not empty and has no byte of the separator.
abbrev IsPart : Text → Type 0
IsPart x = IsZeroFree x × (x ≢ [])

head_eq : {A : Type 0} {x y : A} {xs ys : List A} → x ∷ xs ≡ y ∷ ys → x ≡ y
head_eq e = cc

tail_eq : {A : Type 0} {x y : A} {xs ys : List A} → x ∷ xs ≡ y ∷ ys → xs ≡ ys
tail_eq e = cc

append_cancel : (p xs ys : Text) → p ++ xs ≡ p ++ ys → xs ≡ ys
append_cancel [] xs ys e = e
append_cancel (b ∷ p) xs ys e = append_cancel p xs ys (tail_eq e)

not_split : (x y r : Text) → IsZeroFree x → x ≢ y ++ 0 ∷ r
not_split [] [] r f e = cc
not_split [] (b ∷ y) r f e = cc
not_split (a ∷ x) [] r f e = f.0 (head_eq e)
not_split (a ∷ x) (b ∷ y) r f e = not_split x y r f.1 (tail_eq e)

split_eq :
    (x y r r' : Text) → IsZeroFree x → IsZeroFree y → x ++ 0 ∷ r ≡ y ++ 0 ∷ r' → (x ≡ y) × (r ≡ r')
split_eq [] [] r r' f g e = (refl, tail_eq e)
split_eq [] (b ∷ y) r r' f g e = absurd (g.0 (sym (head_eq e)))
split_eq (a ∷ x) [] r r' f g e = absurd (f.0 (head_eq e))
split_eq (a ∷ x) (b ∷ y) r r' f g e =
    let rest = split_eq x y r r' f.1 g.1 (tail_eq e) in
    (ap₂ (λ h t. h ∷ t) (head_eq e) rest.0, rest.1)

join_zero-injective :
    (xs ys : List Text) → All IsPart xs → All IsPart ys → join_zero xs ≡ join_zero ys → xs ≡ ys
unfolding join_zero
join_zero-injective [] [] f g e = refl
join_zero-injective [] (y ∷ []) f g e = absurd (g.0.1 (sym e))
join_zero-injective [] (y ∷ y' ∷ ys) f g e = absurd (not_split [] y (join_zero (y' ∷ ys)) tt e)
join_zero-injective (x ∷ []) [] f g e = absurd (f.0.1 e)
join_zero-injective (x ∷ x' ∷ xs) [] f g e =
    absurd (not_split [] x (join_zero (x' ∷ xs)) tt (sym e))
join_zero-injective (x ∷ []) (y ∷ []) f g e = ap (λ z. z ∷ []) e
join_zero-injective (x ∷ []) (y ∷ y' ∷ ys) f g e =
    absurd (not_split x y (join_zero (y' ∷ ys)) f.0.0 e)
join_zero-injective (x ∷ x' ∷ xs) (y ∷ []) f g e =
    absurd (not_split y x (join_zero (x' ∷ xs)) g.0.0 (sym e))
join_zero-injective (x ∷ x' ∷ xs) (y ∷ y' ∷ ys) f g e =
    let (same, rest) = split_eq x y (join_zero (x' ∷ xs)) (join_zero (y' ∷ ys)) f.0.0 g.0.0 e in
    ap₂ (λ h t. h ∷ t) same (join_zero-injective (x' ∷ xs) (y' ∷ ys) f.1 g.1 rest)

module _ (c : Codecs) (round_trip : RoundTrips c.values)
    (hex_injective : (a b : Bytes) → c.hex_encode a ≡ c.hex_encode b → a ≡ b)
    (hex_zero_free : (a : Bytes) → IsZeroFree (c.hex_encode a))
    (written : (v : Value) (b : Bytes) → c.values.serialize v ≡ coded b → c.hex_encode b ≢ []) where
  -- The bytes of an encoded value.
  encoded :
      (v : Value) (x : Text)
      → encode_value c v ≡ ok x
      → (b : Bytes) × (c.values.serialize v ≡ coded b) × (x ≡ c.hex_encode b)
  unfolding encode_value
  encoded v x e = go (c.values.serialize v) refl e
    where
      go :
          (r : Coded Bytes)
          → c.values.serialize v ≡ r
          → encoded_or_panic c r ≡ ok x
          → (b : Bytes) × (c.values.serialize v ≡ coded b) × (x ≡ c.hex_encode b)
      go (coded b) is h = (b, is, sym (ok_inj h))
      go (failed m) is h = cc

  decoded_inj : {A : Type 0} {a b : A} → coded a ≡ coded b → a ≡ b
  decoded_inj e = cc

  encode_value-injective :
      (v w : Value) (x : Text) → encode_value c v ≡ ok x → encode_value c w ≡ ok x → v ≡ w
  encode_value-injective v w x h k =
      let (a, wrote_a, is_a) = encoded v x h in
      let (b, wrote_b, is_b) = encoded w x k in
      let same = hex_injective a b (sym is_a ∙ is_b) in
      decoded_inj
        (sym (round_trip v a wrote_a) ∙ ap c.values.deserialize same ∙ round_trip w b wrote_b)

  encode_value-IsPart : (v : Value) (x : Text) → encode_value c v ≡ ok x → IsPart x
  encode_value-IsPart v x h =
      let (b, wrote, is) = encoded v x h in rw is (hex_zero_free b, written v b wrote)

  -- The parts of an encoded key.
  encoded_cons :
      (v : Value) (vs : List Value) (xs : List Text)
      → encode_values c (v ∷ vs) ≡ ok xs
      → (y : Text) × (ys : List Text) × (encode_value c v ≡ ok y)
        × (encode_values c vs ≡ ok ys)
        × (xs ≡ y ∷ ys)
  unfolding encode_values
  encoded_cons v vs xs e = go (encode_value c v) (encode_values c vs) refl refl e
    where
      go :
          (r : Result Text) (rs : Result (List Text))
          → encode_value c v ≡ r
          → encode_values c vs ≡ rs
          → and_then r (λ y. and_then rs λ ys. ok (y ∷ ys)) ≡ ok xs
          → (y : Text) × (ys : List Text) × (encode_value c v ≡ ok y)
            × (encode_values c vs ≡ ok ys)
            × (xs ≡ y ∷ ys)
      go (ok y) (ok ys) h k i = (y, ys, h, k, sym (ok_inj i))
      go (ok y) (err m) h k i = cc
      go (ok y) (panic m) h k i = cc
      go (err m) rs h k i = cc
      go (panic m) rs h k i = cc

  encode_values-IsPart :
      (vs : List Value) (xs : List Text) → encode_values c vs ≡ ok xs → All IsPart xs
  unfolding encode_values
  encode_values-IsPart [] xs h = rw (← ok_inj h) tt
  encode_values-IsPart (v ∷ vs) xs h =
      let (y, ys, first, rest, is) = encoded_cons v vs xs h in
      rw is (encode_value-IsPart v y first, encode_values-IsPart vs ys rest)

  encode_values-injective :
      (vs ws : List Value) (xs ys : List Text)
      → encode_values c vs ≡ ok xs
      → encode_values c ws ≡ ok ys
      → xs ≡ ys
      → vs ≡ ws
  unfolding encode_values
  encode_values-injective [] [] xs ys h k same = refl
  encode_values-injective [] (w ∷ ws) xs ys h k same =
      let (z, zs, first, rest, is) = encoded_cons w ws ys k in
      let none_is : [] ≡ z ∷ zs = ok_inj h ∙ same ∙ is in absurd (cc)
  encode_values-injective (v ∷ vs) [] xs ys h k same =
      let (z, zs, first, rest, is) = encoded_cons v vs xs h in
      let none_is : [] ≡ z ∷ zs = ok_inj k ∙ sym same ∙ is in absurd (cc)
  encode_values-injective (v ∷ vs) (w ∷ ws) xs ys h k same =
      let (y, ys', first, rest, is) = encoded_cons v vs xs h in
      let (z, zs, first', rest', is') = encoded_cons w ws ys k in
      let joined : y ∷ ys' ≡ z ∷ zs = sym is ∙ same ∙ is' in
      ap₂ (λ a b. a ∷ b)
        (encode_value-injective v w y first (first' ∙ ap (λ x. ok x) (sym (head_eq joined))))
        (encode_values-injective vs ws ys' zs rest rest' (tail_eq joined))

  keyed :
      (t : Text) (vs : List Value) (k : Bytes)
      → row_key c t vs ≡ ok k
      → (xs : List Text) × (encode_values c vs ≡ ok xs) × (k ≡ row_prefix t ++ join_zero xs)
  unfolding row_key encode_primary_key
  keyed t vs k h = go (encode_values c vs) refl h
    where
      go :
          (r : Result (List Text))
          → encode_values c vs ≡ r
          → and_then (and_then r λ xs. ok (join_zero xs)) (λ pk. ok (row_prefix t ++ pk)) ≡ ok k
          → (xs : List Text) × (encode_values c vs ≡ ok xs) × (k ≡ row_prefix t ++ join_zero xs)
      go (ok xs) is e = (xs, is, sym (ok_inj e))
      go (err x) is e = cc
      go (panic m) is e = cc

  -- Two rows of one table have one key in the store only if their primary keys have the same
  -- values, whatever the number and the types of these. (A value is read back as it was written,
  -- the hexadecimal text of bytes determines them and has no zero byte, and that of a value is not
  -- empty.)
  pub row_key-injective :
      (t : Text) (vs ws : List Value) (k : Bytes)
      → row_key c t vs ≡ ok k
      → row_key c t ws ≡ ok k
      → vs ≡ ws
  row_key-injective t vs ws k h h' =
      let (xs, parts, is) = keyed t vs k h in
      let (ys, parts', is') = keyed t ws k h' in
      let joined = append_cancel (row_prefix t) (join_zero xs) (join_zero ys) (sym is ∙ is') in
      encode_values-injective vs ws xs ys parts parts' (
        join_zero-injective xs ys (encode_values-IsPart vs xs parts)
          (encode_values-IsPart ws ys parts') joined)
