-- ===== src/Engine/Base/Playback.antt =====
-- The loops of the engine against a specification: the log's entries applied one after the other.
pub mod Syncing
pub mod Proposing
use relos.Prelude.{
  ℕ, zero, suc, ◌+◌, ◌<◌, ◌≤◌, ◌^◌, ◌≡◌, refl, ap, ◌∙◌, true, false, Option, none, some, List, [],
  ◌∷◌, arith, leb, ◌==◌, if◌then◌else◌, length, ap₂, lt→ltb,
}
use relos.Prelude.Words.{add64, add64-eq}
use relos.Core.{LogPos, Entry, Result, ok, err, panic, continue}
use relos.Log.Loglet.{Loglet}
use relos.Store.Map
use relos.Store.Map.{StoreData}
use relos.Store.Memory.{MemoryWriteTx, begin_write_txn, put, commit}
use relos.Engine.Interface.{ReturnValue, success, Applicator}
use relos.Engine.Base.{
  BaseEngine, cursor_key, finish, apply_in, apply_one, advance, propose_loop, sync_loop,
  handle_propose, handle_sync, to_le_bytes,
}

module _ {L A : Type 0} (log : Loglet L) (applicator : Applicator A) where
  -- The state machine alone: a store's contents and what the applicator keeps.
  abbrev pub Machine : Type 0
  Machine = StoreData × A

  abbrev pub accepted :
      LogPos → Result ReturnValue → MemoryWriteTx × A → Option (ReturnValue × Machine)
  accepted pos (ok rv) st =
      some (rv, (Map.insert cursor_key (to_le_bytes 8 (add64 pos 1)) st.0.working, st.1))
  accepted pos (err x) st = none
  accepted pos (panic m) st = none

  -- One entry that the applicator accepts.
  unfoldable pub accept : Entry → LogPos → Machine → Option (ReturnValue × Machine)
  accept e pos (contents, a) =
      let (r, st) = applicator.apply e pos (record { working = contents; committed = false }, a) in
      accepted pos r st

  -- The entries from `pos` on, all accepted: the last return value and the machine after them.
  unfoldable pub replay :
      List Entry → LogPos → ReturnValue → Machine → Option (ReturnValue × Machine)
  replay [] pos rv m = some (rv, m)
  replay (e ∷ es) pos rv m = elim (accept e pos m) [
    | none ↦ none
    | some (rv', m') ↦ replay es (pos + 1) rv' m'
  ]

  abbrev pub machine_of : BaseEngine L A → Machine
  machine_of s = (s.local_store.contents, s.app)

  abbrev pub with_machine : BaseEngine L A → Machine → LogPos → BaseEngine L A
  with_machine s m cursor = record s {
    local_store = record { contents = m.0; poisoned = false };
    app = m.1;
    cursor = cursor;
  }

  -- The log holds these entries from `pos` on.
  abbrev pub Holds : L → LogPos → List Entry → Type 0
  Holds l pos [] = Unit
  Holds l pos (e ∷ es) = (log.read pos l ≡ ok (some e)) × Holds l (pos + 1) es

  -- The machine after an entry that leaves this of its transaction: the next cursor is in it.
  abbrev pub committed : LogPos → MemoryWriteTx × A → Machine
  committed pos st = (Map.insert cursor_key (to_le_bytes 8 (add64 pos 1)) st.0.working, st.1)

  pub replay-applied :
      (e : Entry) (pos : LogPos) (rv₀ rv : ReturnValue) (m : Machine) (st : MemoryWriteTx × A)
      → applicator.apply e pos (record { working = m.0; committed = false }, m.1) ≡ (ok rv, st)
      → replay (e ∷ []) pos rv₀ m ≡ some (rv, committed pos st)
  unfolding replay accept
  replay-applied e pos rv₀ rv m st applied =
      ap
        (λ (x : Result ReturnValue × (MemoryWriteTx × A)). elim (accepted pos x.0 x.1) [
          | none ↦ none
          | some (rv', m') ↦ some (rv', m')
        ])
        applied

  finish-eq :
      (pos : LogPos) (rv : ReturnValue) (txn : MemoryWriteTx) (s : BaseEngine L A)
      → s.local_store.poisoned ≡ false
      → finish log applicator pos rv txn s ≡ (
        ok rv,
        with_machine s
            (Map.insert cursor_key (to_le_bytes 8 (add64 pos 1)) txn.working, s.app)
            s.cursor,
      )
  unfolding finish put commit
  finish-eq pos rv txn s fine = rw fine

  accepted_inj :
      {rv rv' : ReturnValue} {m m' : Machine}
      → ◌≡◌ {A = Option (ReturnValue × Machine)} (some (rv, m)) (some (rv', m'))
      → ◌≡◌ {A = ReturnValue × Machine} (rv, m) (rv', m')
  accepted_inj e = cc

  apply_in-accept :
      (pos : LogPos) (s : BaseEngine L A) (rv : ReturnValue) (m : Machine) (r : Result ReturnValue)
      (st : MemoryWriteTx × A)
      → s.local_store.poisoned ≡ false
      → accepted pos r st ≡ some (rv, m)
      → continue r (λ rv' s₁. finish log applicator pos rv' st.0 s₁) (record s { app = st.1 })
        ≡ (ok rv, with_machine s m s.cursor)
  apply_in-accept pos s rv m (ok rv') st fine acc =
      finish-eq pos rv' st.0 (record s { app = st.1 }) fine
      ∙ ap (λ (p : ReturnValue × Machine). (ok p.0, with_machine s p.1 s.cursor)) (accepted_inj acc)
  apply_in-accept pos s rv m (err x) st fine acc = cc
  apply_in-accept pos s rv m (panic x) st fine acc = cc

  pub apply_one-accept :
      (s : BaseEngine L A) (e : Entry) (rv : ReturnValue) (m : Machine)
      → s.local_store.poisoned ≡ false
      → log.read s.cursor s.loglet ≡ ok (some e)
      → accept e s.cursor (machine_of s) ≡ some (rv, m)
      → apply_one log applicator s.cursor s ≡ (ok rv, with_machine s m s.cursor)
  unfolding apply_one apply_in begin_write_txn accept
  apply_one-accept s e rv m fine found acc =
      let st =
        applicator.apply e s.cursor
          (record { working = s.local_store.contents; committed = false }, s.app) in
      rw found (simp fine (apply_in-accept s.cursor s rv m st.0 st.1 fine acc))

  with_machine_self :
      (s : BaseEngine L A) (pos : LogPos)
      → s.local_store.poisoned ≡ false
      → s.cursor ≡ pos
      → s ≡ with_machine s (machine_of s) pos
  with_machine_self s pos fine at = ground arith

  pub replay-cons :
      (e : Entry) (es : List Entry) (pos : LogPos) (rv rv' : ReturnValue) (m m' : Machine)
      → replay (e ∷ es) pos rv m ≡ some (rv', m')
      → (x : ReturnValue × Machine) × (accept e pos m ≡ some x)
        × (replay es (pos + 1) x.0 x.1 ≡ some (rv', m'))
  unfolding replay
  replay-cons e es pos rv rv' m m' h = go (accept e pos m) refl h
    where
      go :
          (o : Option (ReturnValue × Machine))
          → accept e pos m ≡ o
          → elim o [ none ↦ none | some (y, m₁) ↦ replay es (pos + 1) y m₁ ] ≡ some (rv', m')
          → (x : ReturnValue × Machine) × (accept e pos m ≡ some x)
            × (replay es (pos + 1) x.0 x.1 ≡ some (rv', m'))
      go none eq h' = cc
      go (some x) eq h' = (x, eq, h')

  pub replay-one :
      (e : Entry) (pos : LogPos) (rv rv' : ReturnValue) (m m' : Machine)
      → accept e pos m ≡ some (rv', m')
      → replay (e ∷ []) pos rv m ≡ some (rv', m')
  unfolding replay
  replay-one e pos rv rv' m m' h = rw (replay, h) refl

  pub replay-nil :
      (s : BaseEngine L A) (pos : LogPos) (rv rv' : ReturnValue) (m : Machine)
      → s.local_store.poisoned ≡ false
      → s.cursor ≡ pos
      → replay [] s.cursor rv (machine_of s) ≡ some (rv', m)
      → (rv ≡ rv') × (s ≡ with_machine s m pos)
  unfolding replay
  replay-nil s pos rv rv' m fine at run =
      let e = accepted_inj run in
      (
        ap (λ (p : ReturnValue × Machine). p.0) e,
        with_machine_self s pos fine at
            ∙ ap (λ (p : ReturnValue × Machine). with_machine s p.1 pos) e,
      )
