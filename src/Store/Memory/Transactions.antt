-- ===== src/Store/Memory/Transactions.antt =====
-- What the store's clients see: a committed transaction's writes, all or none.
use relos.Prelude.{
  ◌≡◌, refl, ap, ◌∙◌, Bool, true, false, Option, none, some, List, [], ◌∷◌, if◌then◌else◌,
}
use relos.Prelude.Bytes.{Bytes, bytes_eq}
use relos.Core.{Result, ok, Exec, and_then, ◌>>◌, continue}
use relos.Store.Map
use relos.Store.Map.{StoreData}
use relos.Store.Map.Laws.{IsSorted, insert-IsSorted, remove-IsSorted, get-insert, get-remove}
use relos.Store.Memory.{
  MemoryStore, MemoryWriteTx, begin_write_txn, begin_read_txn, read_get, put, delete, commit,
  rollback,
}

pub data Write : Type 0 where
  puts : Bytes → Bytes → Write
  deletes : Bytes → Write

unfoldable pub perform : Write → Exec MemoryWriteTx (Unit {0})
perform (puts k v) = put k v
perform (deletes k) = delete k

unfoldable pub perform_all : List Write → Exec MemoryWriteTx (Unit {0})
unfolding perform
perform_all [] t = (ok tt, t)
perform_all (w ∷ ws) t = (perform w >> perform_all ws) t

-- A transaction from its begin to its commit or its rollback.
unfoldable pub transact : Bool → List Write → MemoryStore → Result (Unit {0}) × MemoryStore
transact commits ws s =
    continue (begin_write_txn s)
      (λ t s₁.
        let (r, t') = perform_all ws t in
        continue r (λ _ s₂. if commits then commit t' s₂ else rollback t' s₂) s₁)
      s

-- What a new read transaction sees at a key.
unfoldable pub visible : MemoryStore → Bytes → Result (Option Bytes)
visible s k = and_then (begin_read_txn s) (read_get k)

-- The abstract view: a function from keys to values, changed by one write after the other.
abbrev pub after_write : Write → (Bytes → Option Bytes) → Bytes → Option Bytes
after_write (puts k v) f j = if bytes_eq k j then some v else f j
after_write (deletes k) f j = if bytes_eq k j then none else f j

unfoldable pub after_writes : List Write → (Bytes → Option Bytes) → Bytes → Option Bytes
after_writes [] f = f
after_writes (w ∷ ws) f = after_writes ws (after_write w f)

working_of : List Write → StoreData → StoreData
working_of [] m = m
working_of (puts k v ∷ ws) m = working_of ws (Map.insert k v m)
working_of (deletes k ∷ ws) m = working_of ws (Map.remove k m)

perform_all-working :
    (ws : List Write) (t : MemoryWriteTx)
    → perform_all ws t ≡ (ok tt, record t { working = working_of ws t.working })
unfolding perform_all put delete working_of
perform_all-working [] t = refl
perform_all-working (puts k v ∷ ws) t =
    perform_all-working ws (record t { working = Map.insert k v t.working })
perform_all-working (deletes k ∷ ws) t =
    perform_all-working ws (record t { working = Map.remove k t.working })

working_of-IsSorted : (ws : List Write) (m : StoreData) → IsSorted m → IsSorted (working_of ws m)
unfolding working_of
working_of-IsSorted [] m h = h
working_of-IsSorted (puts k v ∷ ws) m h =
    working_of-IsSorted ws (Map.insert k v m) (insert-IsSorted k v m h)
working_of-IsSorted (deletes k ∷ ws) m h =
    working_of-IsSorted ws (Map.remove k m) (remove-IsSorted k m h)

after_writes-cong :
    (ws : List Write) (f g : Bytes → Option Bytes)
    → ((j : Bytes) → f j ≡ g j)
    → (j : Bytes) → after_writes ws f j ≡ after_writes ws g j
unfolding after_writes
after_writes-cong [] f g h j = h j
after_writes-cong (puts k v ∷ ws) f g h j =
    after_writes-cong ws (after_write (puts k v) f) (after_write (puts k v) g)
      (λ i. ap (λ (o : Option Bytes). if bytes_eq k i then some v else o) (h i)) j
after_writes-cong (deletes k ∷ ws) f g h j =
    after_writes-cong ws (after_write (deletes k) f) (after_write (deletes k) g)
      (λ i. ap (λ (o : Option Bytes). if bytes_eq k i then none else o) (h i)) j

get-working_of :
    (ws : List Write) (m : StoreData) (j : Bytes)
    → IsSorted m
    → Map.get j (working_of ws m) ≡ after_writes ws (λ k. Map.get k m) j
unfolding working_of after_writes
get-working_of [] m j h = refl
get-working_of (puts k v ∷ ws) m j h =
    get-working_of ws (Map.insert k v m) j (insert-IsSorted k v m h)
    ∙ after_writes-cong ws (λ i. Map.get i (Map.insert k v m))
        (after_write (puts k v) (λ i. Map.get i m)) (λ i. get-insert k i v m) j
get-working_of (deletes k ∷ ws) m j h =
    get-working_of ws (Map.remove k m) j (remove-IsSorted k m h)
    ∙ after_writes-cong ws (λ i. Map.get i (Map.remove k m))
        (after_write (deletes k) (λ i. Map.get i m)) (λ i. get-remove k i m h) j

-- A transaction that commits succeeds, and a new reader then sees at every key what the writes,
-- in order, make of what was there before; one that rolls back leaves the store as it was. The
-- store stays in key order. (The lock is not poisoned.)
pub transact_lem :
    (commits : Bool) (ws : List Write) (s : MemoryStore)
    → IsSorted s.contents
    → s.poisoned ≡ false
    → ((transact commits ws s).0 ≡ ok tt)
      × IsSorted (transact commits ws s).1.contents
      × ((transact commits ws s).1.poisoned ≡ false)
      × ((k : Bytes)
          → visible (transact commits ws s).1 k
            ≡ ok (
                if commits
                then after_writes ws (λ j. Map.get j s.contents) k
                else Map.get k s.contents))
unfolding transact visible begin_write_txn begin_read_txn read_get commit rollback
transact_lem true ws s so p = rw p (
    rw (perform_all-working ws (record { working = s.contents; committed = false })) (
      refl,
      working_of-IsSorted ws s.contents so,
      refl,
      λ k. ap ok (get-working_of ws s.contents k so),
    ))
transact_lem false ws s so p = rw p (
    rw (perform_all-working ws (record { working = s.contents; committed = false }))
      (refl, so, refl, λ k. refl))
