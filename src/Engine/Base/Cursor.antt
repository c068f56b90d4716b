-- ===== src/Engine/Base/Cursor.antt =====
-- The cursor in the store is the cursor in memory, after every request and whatever its outcome.
use relos.Prelude.{ℕ, ◌<◌, ◌^◌, ◌≡◌, refl, ap, some, Bool-cases, inl, inr}
use relos.Prelude.Words.{add64, add64-lt}
use relos.Core.{LogPos, Entry, Result, ok, err, panic, and_then, ok_or, continue}
use relos.Log.Loglet.{Loglet}
use relos.Store.Map
use relos.Store.Map.Laws.{get-insert_self}
use relos.Store.Memory.{MemoryWriteTx, begin_write_txn, put, commit}
use relos.Engine.Interface.{ReturnValue, Applicator}
use relos.Engine.Base.Invariants.{Continues, handle-Inv}
use relos.Engine.Base.{
  ApplyRequest, Reply, handle, BaseEngine, cursor_key, cursor_from, finish, apply_in, apply_one,
  advance, to_le_bytes, from_le_bytes-to_le_bytes, length-to_le_bytes, expected_entry,
}

module _ {L A : Type 0} (log : Loglet L) (applicator : Applicator A) where
  -- What one application at `pos` leaves in the store: the next cursor if it succeeded, and
  -- otherwise what was there before.
  abbrev pub Persisted : LogPos → BaseEngine L A → Result ReturnValue → BaseEngine L A → Type 0
  Persisted pos s (ok rv) s' =
      (s'.cursor ≡ s.cursor)
      × (Map.get cursor_key s'.local_store.contents ≡ some (to_le_bytes 8 (add64 pos 1)))
  Persisted pos s (err e) s' = (s'.cursor ≡ s.cursor) × (s'.local_store ≡ s.local_store)
  Persisted pos s (panic m) s' = (s'.cursor ≡ s.cursor) × (s'.local_store ≡ s.local_store)

  finish-Persisted :
      (pos : LogPos) (rv : ReturnValue) (txn : MemoryWriteTx) (s : BaseEngine L A)
      → Persisted pos s
          (finish log applicator pos rv txn s).0
          (finish log applicator pos rv txn s).1
  unfolding finish put commit
  finish-Persisted pos rv txn s = elim (Bool-cases s.local_store.poisoned) [
    | inl bad ↦ rw bad (refl, refl)
    | inr fine ↦
        rw fine (refl, get-insert_self cursor_key (to_le_bytes 8 (add64 pos 1)) txn.working)
  ]

  apply_in-Persisted :
      (pos : LogPos) (e : Entry) (txn : MemoryWriteTx) (s : BaseEngine L A)
      → Persisted pos s
          (apply_in log applicator pos e txn s).0
          (apply_in log applicator pos e txn s).1
  unfolding apply_in
  apply_in-Persisted pos e txn s =
      go (applicator.apply e pos (txn, s.app)).0 (applicator.apply e pos (txn, s.app)).1
    where
      go :
          (r : Result ReturnValue) (st : MemoryWriteTx × A)
          → let after =
              continue r
                (λ rv s₁. finish log applicator pos rv st.0 s₁)
                (record s { app = st.1 }) in
            Persisted pos s after.0 after.1
      go (ok rv) st = finish-Persisted pos rv st.0 (record s { app = st.1 })
      go (err x) st = (refl, refl)
      go (panic m) st = (refl, refl)

  pub apply_one-Persisted :
      (pos : LogPos) (s : BaseEngine L A)
      → Persisted pos s (apply_one log applicator pos s).0 (apply_one log applicator pos s).1
  unfolding apply_one
  apply_one-Persisted pos s =
      read_case (and_then (log.read pos s.loglet) λ found. ok_or found (expected_entry pos))
    where
      begin_case :
          (e : Entry) (r : Result MemoryWriteTx)
          → let after = continue r (λ txn s₂. apply_in log applicator pos e txn s₂) s in
            Persisted pos s after.0 after.1
      begin_case e (ok txn) = apply_in-Persisted pos e txn s
      begin_case e (err x) = (refl, refl)
      begin_case e (panic m) = (refl, refl)

      read_case :
          (r : Result Entry)
          → let after =
              continue r
                (λ entry s₁.
                  continue
                    (begin_write_txn s₁.local_store)
                    (λ txn s₂. apply_in log applicator pos entry txn s₂)
                    s₁)
                s in
            Persisted pos s after.0 after.1
      read_case (ok e) = begin_case e (begin_write_txn s.local_store)
      read_case (err x) = (refl, refl)
      read_case (panic m) = (refl, refl)

  -- The store holds the cursor that a restart would read.
  abbrev pub CursorStored : BaseEngine L A → Type 0
  CursorStored s = cursor_from (Map.get cursor_key s.local_store.contents) ≡ ok s.cursor

  cursor_from-to_le_bytes : (n : LogPos) → n < 2 ^ 64 → cursor_from (some (to_le_bytes 8 n)) ≡ ok n
  unfolding cursor_from
  cursor_from-to_le_bytes n h =
      rw (length-to_le_bytes 8 n) (ap ok (from_le_bytes-to_le_bytes 8 n h))

  advance-CursorStored :
      (s s' : BaseEngine L A) (rv : ReturnValue)
      → Persisted s.cursor s (ok rv) s'
      → CursorStored (advance log applicator s')
  advance-CursorStored s s' rv (same, stored) =
      rw (stored, same) (cursor_from-to_le_bytes (add64 s.cursor 1) (add64-lt s.cursor 1))

  unchanged-CursorStored :
      (s s' : BaseEngine L A)
      → s'.cursor ≡ s.cursor
      → s'.local_store ≡ s.local_store
      → CursorStored s
      → CursorStored s'
  unchanged-CursorStored s s' c st h = rw (c, st) h

  pub Continues-CursorStored :
      (r : Result ReturnValue) (s s' : BaseEngine L A)
      → Persisted s.cursor s r s'
      → CursorStored s
      → Continues log applicator CursorStored r s'
  Continues-CursorStored (ok rv) s s' p h = advance-CursorStored s s' rv p
  Continues-CursorStored (err e) s s' p h = unchanged-CursorStored s s' p.0 p.1 h
  Continues-CursorStored (panic m) s s' p h = unchanged-CursorStored s s' p.0 p.1 h

  pub handle-CursorStored :
      (fuel : ℕ) (q : ApplyRequest) (s t : BaseEngine L A) (x : Reply)
      → CursorStored s
      → handle log applicator fuel q s ≡ some (x, t)
      → CursorStored t
  handle-CursorStored fuel q s t x h =
      handle-Inv log applicator CursorStored
        (λ u k. Continues-CursorStored _ u _ (apply_one-Persisted u.cursor u) k) fuel q s t x h
