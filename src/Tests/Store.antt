-- ===== src/Tests/Store.antt =====
-- The store's theorems at a map with two keys.
use relos.Prelude.{◌≡◌, refl, true, false, List, [], ◌∷◌, if◌then◌else◌}
use relos.Prelude.Bytes.{Bytes, bytes_lt}
use relos.Core.{ok}
use relos.Store.Map
use relos.Store.Map.{StoreData, scan_prefix}
use relos.Store.Map.Laws.{IsSorted}
use relos.Store.Map.Scan.{with_prefix, scan_prefix-eq}
use relos.Store.Memory.{MemoryStore}
use relos.Store.Memory.Transactions.{
  Write, puts, deletes, transact, visible, after_writes, transact_lem,
}

abbrev two_keys : StoreData
two_keys = (1 ∷ 1 ∷ [], 10 ∷ []) ∷ (1 ∷ 2 ∷ [], 20 ∷ []) ∷ []

two_keys-IsSorted : IsSorted two_keys
unfolding bytes_lt
two_keys-IsSorted = ((refl, tt), (tt, tt))

scan_prefix-eq_example : scan_prefix two_keys (1 ∷ []) ≡ with_prefix (1 ∷ []) two_keys
scan_prefix-eq_example = scan_prefix-eq two_keys (1 ∷ []) two_keys-IsSorted

abbrev two_key_store : MemoryStore
two_key_store = record { contents = two_keys; poisoned = false }

abbrev two_writes : List Write
two_writes = puts (3 ∷ []) (30 ∷ []) ∷ deletes (1 ∷ 1 ∷ []) ∷ []

transact_lem_example :
    ((transact true two_writes two_key_store).0 ≡ ok tt)
    × IsSorted (transact true two_writes two_key_store).1.contents
    × ((transact true two_writes two_key_store).1.poisoned ≡ false)
    × ((k : Bytes)
        → visible (transact true two_writes two_key_store).1 k
          ≡ ok (
              if true
              then after_writes two_writes (λ j. Map.get j two_keys) k
              else Map.get k two_keys))
transact_lem_example = transact_lem true two_writes two_key_store two_keys-IsSorted refl
