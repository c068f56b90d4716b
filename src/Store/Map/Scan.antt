-- ===== src/Store/Map/Scan.antt =====
-- The range scan returns exactly the entries whose key has the prefix, in order.
use relos.Prelude.{
  ◌≡◌, refl, ap, sym, true, false, [], ◌∷◌, All, Bool-cases, inl, inr, if◌then◌else◌,
}
use relos.Prelude.Bytes.{Bytes, bytes_lt, starts_with}
use relos.Store.Map.{StoreData, take_prefixed, scan_prefix}
use relos.Store.Map.Order.{bytes_lt_trans, starts_with-not_lt, starts_with_past}
use relos.Store.Map.Laws.{Above, IsSorted}

-- The reference: a filter over the whole map.
unfoldable pub with_prefix : Bytes → StoreData → StoreData
with_prefix p [] = []
with_prefix p ((k, v) ∷ m) =
    let rest = (k, v) ∷ with_prefix p m in if starts_with k p then rest else with_prefix p m

with_prefix-past :
    (p k : Bytes) (m : StoreData)
    → bytes_lt k p ≡ false
    → starts_with k p ≡ false
    → Above k m
    → with_prefix p m ≡ []
unfolding with_prefix
with_prefix-past p k [] h s ab = refl
with_prefix-past p k (e ∷ m) h s ab =
    rw (starts_with_past k e.0 p h s ab.0) (with_prefix-past p k m h s ab.1)

-- No key of the map is below the prefix.
abbrev NotBelow : Bytes → StoreData → Type 0
NotBelow p = All (λ e. bytes_lt e.0 p ≡ false)

NotBelow-Above : (p k : Bytes) (m : StoreData) → bytes_lt k p ≡ false → Above k m → NotBelow p m
NotBelow-Above p k [] h ab = tt
NotBelow-Above p k (e ∷ m) h ab = (
  elim (Bool-cases (bytes_lt e.0 p)) [
    | inl below ↦ cc (h, bytes_lt_trans k e.0 p ab.0 below)
    | inr not_below ↦ not_below
  ],
  NotBelow-Above p k m h ab.1,
)

take_prefixed-eq :
    (p : Bytes) (m : StoreData) → NotBelow p m → IsSorted m → take_prefixed p m ≡ with_prefix p m
unfolding take_prefixed with_prefix
take_prefixed-eq p [] h so = refl
take_prefixed-eq p (e ∷ m) h so = elim (Bool-cases (starts_with e.0 p)) [
  | inl prefixed ↦ rw prefixed (ap (λ (r : StoreData). e ∷ r) (take_prefixed-eq p m h.1 so.1))
  | inr past ↦ rw past (sym (with_prefix-past p e.0 m h.0 past so.0))
]

below-not_prefixed : (k p : Bytes) → bytes_lt k p ≡ true → starts_with k p ≡ false
below-not_prefixed k p h = elim (Bool-cases (starts_with k p)) [
  | inl prefixed ↦ cc (h, starts_with-not_lt k p prefixed)
  | inr other ↦ other
]

-- On a map in key order, starting at the first key not below the prefix and stopping at the first
-- key without it returns exactly the entries that a filter by the prefix keeps, in key order.
pub scan_prefix-eq : (m : StoreData) (p : Bytes) → IsSorted m → scan_prefix m p ≡ with_prefix p m
unfolding scan_prefix with_prefix
scan_prefix-eq [] p so = refl
scan_prefix-eq (e ∷ m) p so = elim (Bool-cases (bytes_lt e.0 p)) [
  | inl below ↦ rw (below, below-not_prefixed e.0 p below) (scan_prefix-eq m p so.1)
  | inr not_below ↦
      rw not_below
        (take_prefixed-eq p (e ∷ m) (not_below, NotBelow-Above p e.0 m not_below so.0) so)
]
