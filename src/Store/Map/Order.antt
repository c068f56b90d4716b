-- ===== src/Store/Map/Order.antt =====
-- The byte order of the keys, and where the keys with a prefix lie in it.
use relos.Prelude.{◌≡◌, refl, true, false, [], ◌∷◌, arith}
use relos.Prelude.Bytes.{Bytes, bytes_eq, bytes_lt, starts_with}

pub bytes_lt_irrefl : (a : Bytes) → bytes_lt a a ≡ false
unfolding bytes_lt
bytes_lt_irrefl [] = refl
bytes_lt_irrefl (x ∷ a) = ground (arith, bytes_lt_irrefl a)

pub bytes_lt_trans :
    (a b c : Bytes) → bytes_lt a b ≡ true → bytes_lt b c ≡ true → bytes_lt a c ≡ true
unfolding bytes_lt
bytes_lt_trans a [] c h k = cc
bytes_lt_trans a (y ∷ b) [] h k = cc
bytes_lt_trans [] (y ∷ b) (z ∷ c) h k = refl
bytes_lt_trans (x ∷ a) (y ∷ b) (z ∷ c) h k = ground (arith, bytes_lt_trans a b c)

pub bytes_lt_total :
    (a b : Bytes) → bytes_lt a b ≡ false → bytes_eq b a ≡ false → bytes_lt b a ≡ true
unfolding bytes_lt bytes_eq
bytes_lt_total [] [] h ne = cc
bytes_lt_total [] (y ∷ b) h ne = cc
bytes_lt_total (x ∷ a) [] h ne = refl
bytes_lt_total (x ∷ a) (y ∷ b) h ne = ground (arith, bytes_lt_total a b)

-- A key with the prefix is not below the prefix.
pub starts_with-not_lt : (k p : Bytes) → starts_with k p ≡ true → bytes_lt k p ≡ false
unfolding bytes_lt starts_with
starts_with-not_lt k [] h = refl
starts_with-not_lt [] (x ∷ p) h = cc
starts_with-not_lt (y ∷ k) (x ∷ p) h = ground (arith, starts_with-not_lt k p)

-- Above a key that is past the prefix no key has it.
pub starts_with_past :
    (k j p : Bytes)
    → bytes_lt k p ≡ false
    → starts_with k p ≡ false
    → bytes_lt k j ≡ true
    → starts_with j p ≡ false
unfolding bytes_lt starts_with
starts_with_past k j [] h s lt = cc
starts_with_past [] j (x ∷ p) h s lt = cc
starts_with_past (y ∷ k) [] (x ∷ p) h s lt = cc
starts_with_past (y ∷ k) (z ∷ j) (x ∷ p) h s lt = ground (arith, starts_with_past k j p)
