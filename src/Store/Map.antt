-- ===== src/Store/Map.antt =====
-- `BTreeMap<Vec<u8>, Vec<u8>>`: an association list in the byte order of the keys, with what the
-- store uses of it. `scan_prefix` is of crates/relos-store/src/memory.rs.
pub mod Order
pub mod Laws
pub mod Scan
use relos.Prelude.{ℕ, ◌≡◌, Bool, true, false, Option, none, some, List, [], ◌∷◌, if◌then◌else◌}
use relos.Prelude.Bytes.{Bytes, bytes_eq, bytes_lt, starts_with}

abbrev pub StoreData : Type 0
StoreData = List (Bytes × Bytes)

unfoldable pub get : Bytes → StoreData → Option Bytes
get k [] = none
get k ((j, v) ∷ m) = if bytes_eq j k then some v else get k m

unfoldable pub insert : Bytes → Bytes → StoreData → StoreData
insert k v [] = (k, v) ∷ []
insert k v ((j, w) ∷ m) =
    let rest = (j, w) ∷ insert k v m in
    if bytes_eq j k then (j, v) ∷ m else if bytes_lt k j then (k, v) ∷ (j, w) ∷ m else rest

unfoldable pub remove : Bytes → StoreData → StoreData
remove k [] = []
remove k ((j, w) ∷ m) = let rest = (j, w) ∷ remove k m in if bytes_eq j k then m else rest

-- `map.range(prefix..)`
unfoldable pub range_from : Bytes → StoreData → StoreData
range_from k [] = []
range_from k ((j, w) ∷ m) = let rest = range_from k m in if bytes_lt j k then rest else (j, w) ∷ m

-- `.take_while(|(k, _)| k.starts_with(prefix))`
unfoldable pub take_prefixed : Bytes → StoreData → StoreData
take_prefixed p [] = []
take_prefixed p ((j, w) ∷ m) =
    let rest = (j, w) ∷ take_prefixed p m in if starts_with j p then rest else []

unfoldable pub scan_prefix : StoreData → Bytes → StoreData
unfolding range_from take_prefixed
scan_prefix map prefix = take_prefixed prefix (range_from prefix map)
