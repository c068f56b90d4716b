-- ===== src/Table/Applicator/Keyspace.antt =====
-- What a dropped table leaves in the store.
use relos.Prelude.{
  ◌≡◌, refl, ap, sym, subst, ◌∙◌, Bool, true, false, ◌||◌, Option, none, some, [], ◌∷◌, arith,
  Bool-cases, inl, inr, if◌then◌else◌,
}
use relos.Prelude.Bytes.{Bytes, Text, bytes_eq, bytes_eq_iff, starts_with}
use relos.Core.{ok}
use relos.Store.Map
use relos.Store.Map.{StoreData, scan_prefix}
use relos.Store.Map.Laws.{IsSorted, remove-IsSorted, get-remove}
use relos.Store.Map.Scan.{with_prefix, scan_prefix-eq}
use relos.Store.Memory
use relos.Store.Memory.{MemoryWriteTx, prefix_scan}
use relos.Table.Command.{Codecs, accepted}
use relos.Table.Keys.{schema_key, row_prefix}
use relos.Table.Applicator.{apply_drop_table, delete_rows, make_response}

-- Is the key one of these entries'?
unfoldable pub among : Bytes → StoreData → Bool
among k [] = false
among k (e ∷ m) = bytes_eq e.0 k || among k m

unfoldable pub removed_all : StoreData → StoreData → StoreData
removed_all [] m = m
removed_all (r ∷ rows) m = removed_all rows (Map.remove r.0 m)

delete_rows-eq :
    (c : Codecs) (rows : StoreData) (t : MemoryWriteTx)
    → delete_rows c rows t ≡ (ok tt, record t { working = removed_all rows t.working })
unfolding delete_rows Memory.delete removed_all
delete_rows-eq c [] t = refl
delete_rows-eq c (r ∷ rows) t =
    delete_rows-eq c rows (record t { working = Map.remove r.0 t.working })

removed_all-IsSorted : (rows m : StoreData) → IsSorted m → IsSorted (removed_all rows m)
unfolding removed_all
removed_all-IsSorted [] m so = so
removed_all-IsSorted (r ∷ rows) m so =
    removed_all-IsSorted rows (Map.remove r.0 m) (remove-IsSorted r.0 m so)

get-removed_all :
    (rows m : StoreData) (k : Bytes)
    → IsSorted m
    → Map.get k (removed_all rows m) ≡ (if among k rows then none else Map.get k m)
unfolding removed_all among
get-removed_all [] m k so = refl
get-removed_all (r ∷ rows) m k so = ground (
  arith,
  get-removed_all rows (Map.remove r.0 m) k (remove-IsSorted r.0 m so),
  get-remove r.0 k m so,
)

among-outside :
    (p : Bytes) (m : StoreData) (k : Bytes)
    → starts_with k p ≡ false
    → among k (with_prefix p m) ≡ false
unfolding among with_prefix
among-outside p [] k h = refl
among-outside p (e ∷ m) k h = elim (Bool-cases (starts_with e.0 p)) [
  | inl prefixed ↦
      rw prefixed (ground (arith, among-outside p m k h, bytes_eq_iff e.0 k, prefixed, h))
  | inr other ↦ rw other (among-outside p m k h)
]

get-inside :
    (p : Bytes) (m : StoreData) (k : Bytes)
    → starts_with k p ≡ true
    → (if among k (with_prefix p m) then none else Map.get k m) ≡ none
unfolding among with_prefix Map.get
get-inside p [] k h = refl
get-inside p (e ∷ m) k h = elim (Bool-cases (bytes_eq e.0 k)) [
  | inl same ↦
      let prefixed : starts_with e.0 p ≡ true =
        subst (λ (b : Bytes). starts_with b p ≡ true) (sym ((bytes_eq_iff e.0 k).0 same)) h in
      rw (prefixed, same) refl
  | inr ne ↦ elim (Bool-cases (starts_with e.0 p)) [
    | inl prefixed ↦ rw (prefixed, ne) (get-inside p m k h)
    | inr other ↦ rw (other, ne) (get-inside p m k h)
  ]
]

-- Removing what the scan of a prefix found removes all that has the prefix, and nothing else.
get-scanned :
    (p : Bytes) (m : StoreData) (k : Bytes)
    → (if among k (with_prefix p m) then none else Map.get k m)
      ≡ (if starts_with k p then none else Map.get k m)
get-scanned p m k = elim (Bool-cases (starts_with k p)) [
  | inl inside ↦ rw inside (get-inside p m k inside)
  | inr outside ↦ rw (outside, among-outside p m k outside) refl
]

-- Dropping a table that exists, on a store in key order, answers that it is done, takes away its
-- schema and every key under `data/`, its name and a slash, and leaves the value at any other key.
pub apply_drop_table_lem :
    (c : Codecs) (table : Text) (b : Bytes) (t : MemoryWriteTx)
    → IsSorted t.working
    → Map.get (schema_key table) t.working ≡ some b
    → ((apply_drop_table c table t).0 ≡ make_response c accepted)
      × IsSorted (apply_drop_table c table t).1.working
      × ((k : Bytes)
          → Map.get k (apply_drop_table c table t).1.working ≡ (
              if starts_with k (row_prefix table)
              then none
              else if bytes_eq (schema_key table) k
              then none
              else Map.get k t.working))
unfolding apply_drop_table Memory.get Memory.delete prefix_scan
apply_drop_table_lem c table b t so found =
    let m = Map.remove (schema_key table) t.working in
    let so' = remove-IsSorted (schema_key table) t.working so in
    let scanned = scan_prefix-eq m (row_prefix table) so' in
    rw found (
      rw (delete_rows-eq c (scan_prefix m (row_prefix table)) (record t { working = m })) (
        refl,
        removed_all-IsSorted (scan_prefix m (row_prefix table)) m so',
        λ k.
            get-removed_all (scan_prefix m (row_prefix table)) m k so'
            ∙ (ap (λ (r : StoreData). if among k r then none else Map.get k m) scanned
                ∙ (get-scanned (row_prefix table) m k
                    ∙ ap
                        (λ (o : Option Bytes). if starts_with k (row_prefix table) then none else o)
                        (get-remove (schema_key table) k t.working so))),
      ))
