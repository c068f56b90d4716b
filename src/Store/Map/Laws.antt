-- ===== src/Store/Map/Laws.antt =====
-- The map's order is kept, and a lookup sees the last write to its key.
use relos.Prelude.{
  ◌≡◌, ◌≢◌, refl, true, none, some, [], ◌∷◌, All, arith, Bool-cases, inl, inr, if◌then◌else◌,
}
use relos.Prelude.Bytes.{Bytes, bytes_eq, bytes_eq_iff, bytes_lt}
use relos.Store.Map.{StoreData, get, insert, remove}
use relos.Store.Map.Order.{bytes_lt_irrefl, bytes_lt_trans, bytes_lt_total}

-- Every key of the map is above `k`.
abbrev pub Above : Bytes → StoreData → Type 0
Above k = All (λ e. bytes_lt k e.0 ≡ true)

abbrev pub IsSorted : StoreData → Type 0
IsSorted [] = Unit
IsSorted ((k, v) ∷ m) = Above k m × IsSorted m

Above-trans : (j k : Bytes) (m : StoreData) → bytes_lt j k ≡ true → Above k m → Above j m
Above-trans j k [] lt h = tt
Above-trans j k (e ∷ m) lt h = (bytes_lt_trans j k e.0 lt h.0, Above-trans j k m lt h.1)

pub get-Above : (k : Bytes) (m : StoreData) → Above k m → get k m ≡ none
unfolding get
get-Above k [] h = refl
get-Above k (e ∷ m) h = ground (arith, get-Above k m h.1, bytes_eq_iff e.0 k, bytes_lt_irrefl k)

pub get-insert :
    (k j : Bytes) (v : Bytes) (m : StoreData)
    → get j (insert k v m) ≡ (if bytes_eq k j then some v else get j m)
unfolding get insert
get-insert k j v [] = refl
get-insert k j v (e ∷ m) =
    ground (arith, bytes_eq_iff k j, bytes_eq_iff e.0 k, bytes_eq_iff e.0 j, get-insert k j v m)

pub get-insert_self : (k v : Bytes) (m : StoreData) → get k (insert k v m) ≡ some v
get-insert_self k v m = ground (arith, get-insert k k v m, bytes_eq_iff k k)

pub get-insert_ne : (k j v : Bytes) (m : StoreData) → j ≢ k → get j (insert k v m) ≡ get j m
get-insert_ne k j v m ne = ground (arith, get-insert k j v m, bytes_eq_iff k j)

Above-insert :
    (j k v : Bytes) (m : StoreData) → bytes_lt j k ≡ true → Above j m → Above j (insert k v m)
unfolding insert
Above-insert j k v [] lt h = (lt, tt)
Above-insert j k v (e ∷ m) lt h = elim (Bool-cases (bytes_eq e.0 k)) [
  | inl same ↦ rw same (h.0, h.1)
  | inr ne ↦ elim (Bool-cases (bytes_lt k e.0)) [
    | inl before ↦ rw (ne, before) (lt, (h.0, h.1))
    | inr after ↦ rw (ne, after) (h.0, Above-insert j k v m lt h.1)
  ]
]

-- An insert keeps the keys in order.
pub insert-IsSorted : (k v : Bytes) (m : StoreData) → IsSorted m → IsSorted (insert k v m)
unfolding insert
insert-IsSorted k v [] h = (tt, tt)
insert-IsSorted k v (e ∷ m) h = elim (Bool-cases (bytes_eq e.0 k)) [
  | inl same ↦ rw same (h.0, h.1)
  | inr ne ↦ elim (Bool-cases (bytes_lt k e.0)) [
    | inl before ↦ rw (ne, before) ((before, Above-trans k e.0 m before h.0), (h.0, h.1))
    | inr after ↦
        rw (ne, after)
          (Above-insert e.0 k v m (bytes_lt_total k e.0 after ne) h.0, insert-IsSorted k v m h.1)
  ]
]

Above-remove : (j k : Bytes) (m : StoreData) → Above j m → Above j (remove k m)
unfolding remove
Above-remove j k [] h = tt
Above-remove j k (e ∷ m) h = elim (Bool-cases (bytes_eq e.0 k)) [
  | inl same ↦ rw same h.1
  | inr ne ↦ rw ne (h.0, Above-remove j k m h.1)
]

pub remove-IsSorted : (k : Bytes) (m : StoreData) → IsSorted m → IsSorted (remove k m)
unfolding remove
remove-IsSorted k [] h = tt
remove-IsSorted k (e ∷ m) h = elim (Bool-cases (bytes_eq e.0 k)) [
  | inl same ↦ rw same h.1
  | inr ne ↦ rw ne (Above-remove e.0 k m h.0, remove-IsSorted k m h.1)
]

pub get-remove :
    (k j : Bytes) (m : StoreData)
    → IsSorted m
    → get j (remove k m) ≡ (if bytes_eq k j then none else get j m)
unfolding get remove
get-remove k j [] h = ground arith
get-remove k j (e ∷ m) h = ground (
  arith,
  bytes_eq_iff k j,
  bytes_eq_iff e.0 k,
  bytes_eq_iff e.0 j,
  get-remove k j m h.1,
  get-Above e.0 m h.0,
)
