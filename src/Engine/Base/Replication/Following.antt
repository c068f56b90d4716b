-- ===== src/Engine/Base/Replication/Following.antt =====
-- One application of an entry against the log that the engine follows.
use relos.Prelude.{ℕ, ◌≡◌, refl, ap, ◌∙◌, Option, none, some, Bool-cases, inl, inr}
use relos.Core.{Entry, Result, ok, err, panic, and_then, ok_or, continue}
use relos.Log.Loglet.{Loglet}
use relos.Store.Memory.{MemoryWriteTx, begin_write_txn, put, commit}
use relos.Engine.Interface.{ReturnValue, Applicator}
use relos.Engine.Base.{
  BaseEngine, finish, apply_in, apply_one, expected_entry, ApplyRequest, Reply, handle,
}
use relos.Engine.Base.Invariants.{Continues, requested, handle-Inv}
use relos.Engine.Base.Cursor.{CursorStored, Continues-CursorStored, apply_one-Persisted}
use relos.Engine.Base.Playback.{accept, accepted, machine_of}
use relos.Engine.Base.Replication.{Played, after}

module _ {L : Type 0} (log : Loglet L) (applicator : Applicator (Unit {0})) where
  -- The engine's machine is where the log, played to its cursor, leads.
  abbrev pub Follows : BaseEngine L (Unit {0}) → Type 0
  Follows s = Played log applicator s.loglet s.cursor (machine_of log applicator s)

  record IsSame (s s' : BaseEngine L (Unit {0})) : Type 0 where
    loglet_same : s'.loglet ≡ s.loglet
    cursor_same : s'.cursor ≡ s.cursor

  -- What one application of an entry that was read leaves.
  abbrev PlayedOn :
      Entry → BaseEngine L (Unit {0}) → Result ReturnValue → BaseEngine L (Unit {0}) → Type 0
  PlayedOn e s (ok rv) s' =
      (accept log applicator e s.cursor (machine_of log applicator s)
        ≡ some (rv, machine_of log applicator s'))
      × IsSame s s'
  PlayedOn e s (err x) s' = s' ≡ s
  PlayedOn e s (panic m) s' = s' ≡ s

  finish-PlayedOn :
      (e : Entry) (s : BaseEngine L (Unit {0})) (rv : ReturnValue) (txn : MemoryWriteTx)
      → accept log applicator e s.cursor (machine_of log applicator s)
        ≡ accepted log applicator s.cursor (ok rv) (txn, tt)
      → PlayedOn e s
          (finish log applicator s.cursor rv txn s).0
          (finish log applicator s.cursor rv txn s).1
  unfolding finish put commit
  finish-PlayedOn e s rv txn acc = elim (Bool-cases s.local_store.poisoned) [
    | inl bad ↦ rw bad refl
    | inr fine ↦ rw fine (acc, record { loglet_same = refl; cursor_same = refl })
  ]

  apply_in-PlayedOn :
      (e : Entry) (s : BaseEngine L (Unit {0})) (r : Result ReturnValue)
      (st : MemoryWriteTx × Unit {0})
      → accept log applicator e s.cursor (machine_of log applicator s)
        ≡ accepted log applicator s.cursor r st
      → let done =
          continue r
            (λ rv s₁. finish log applicator s.cursor rv st.0 s₁)
            (record s { app = st.1 }) in
        PlayedOn e s done.0 done.1
  apply_in-PlayedOn e s (ok rv) st acc = finish-PlayedOn e s rv st.0 acc
  apply_in-PlayedOn e s (err x) st acc = refl
  apply_in-PlayedOn e s (panic m) st acc = refl

  begin-PlayedOn :
      (e : Entry) (s : BaseEngine L (Unit {0}))
      → let done =
          continue
            (begin_write_txn s.local_store)
            (λ txn s₂. apply_in log applicator s.cursor e txn s₂)
            s in
        PlayedOn e s done.0 done.1
  unfolding begin_write_txn apply_in accept
  begin-PlayedOn e s = elim (Bool-cases s.local_store.poisoned) [
    | inl bad ↦ rw bad refl
    | inr fine ↦ simp fine (apply_in-PlayedOn e s _ _ refl)
  ]

  -- An application of what is read at the cursor, if anything is.
  abbrev Advanced : BaseEngine L (Unit {0}) → Result ReturnValue → BaseEngine L (Unit {0}) → Type 0
  Advanced s (ok rv) s' =
      (e : Entry) × (log.read s.cursor s.loglet ≡ ok (some e)) × PlayedOn e s (ok rv) s'
  Advanced s (err x) s' = s' ≡ s
  Advanced s (panic m) s' = s' ≡ s

  read-Advanced :
      (e : Entry) (s s' : BaseEngine L (Unit {0})) (r : Result ReturnValue)
      → log.read s.cursor s.loglet ≡ ok (some e)
      → PlayedOn e s r s'
      → Advanced s r s'
  read-Advanced e s s' (ok rv) found p = (e, found, p)
  read-Advanced e s s' (err x) found p = p
  read-Advanced e s s' (panic m) found p = p

  apply_one-Advanced :
      (s : BaseEngine L (Unit {0}))
      → Advanced s (apply_one log applicator s.cursor s).0 (apply_one log applicator s.cursor s).1
  unfolding apply_one
  apply_one-Advanced s = go (log.read s.cursor s.loglet) refl
    where
      go :
          (r : Result (Option Entry))
          → log.read s.cursor s.loglet ≡ r
          → let done =
              continue
                (and_then r λ found. ok_or found (expected_entry s.cursor))
                (λ entry s₁.
                  continue
                    (begin_write_txn s₁.local_store)
                    (λ txn s₂. apply_in log applicator s.cursor entry txn s₂)
                    s₁)
                s in
            Advanced s done.0 done.1
      go (ok (some e)) eq = read-Advanced e s _ _ eq (begin-PlayedOn e s)
      go (ok none) eq = refl
      go (err x) eq = refl
      go (panic m) eq = refl

  Continues-Follows :
      (r : Result ReturnValue) (s s' : BaseEngine L (Unit {0}))
      → Advanced s r s'
      → Follows s
      → Continues log applicator Follows r s'
  Continues-Follows (ok rv) s s' (e, found, (acc, same)) f =
      rw (same.loglet_same, same.cursor_same)
        (after s.cursor (machine_of log applicator s) e rv f found acc refl)
  Continues-Follows (err x) s s' is f = rw is f
  Continues-Follows (panic m) s s' is f = rw is f

  -- What an engine of the system keeps while it handles a request: it follows the log, which is
  -- not changed meanwhile, and its store has its cursor.
  pub record IsFollower (l : L) (s : BaseEngine L (Unit {0})) : Type 0 where
    pub follows : Follows s
    pub cursor_stored : CursorStored log applicator s
    pub on_log : s.loglet ≡ l

  Advanced-loglet :
      (r : Result ReturnValue) (s s' : BaseEngine L (Unit {0}))
      → Advanced s r s'
      → s'.loglet ≡ s.loglet
  Advanced-loglet (ok rv) s s' (e, found, (acc, same)) = same.loglet_same
  Advanced-loglet (err x) s s' is = ap (λ (u : BaseEngine L (Unit {0})). u.loglet) is
  Advanced-loglet (panic m) s s' is = ap (λ (u : BaseEngine L (Unit {0})). u.loglet) is

  Continues-IsFollower :
      (l : L) (r : Result ReturnValue) (s' : BaseEngine L (Unit {0}))
      → Continues log applicator Follows r s'
      → Continues log applicator (CursorStored log applicator) r s'
      → s'.loglet ≡ l
      → Continues log applicator (IsFollower l) r s'
  Continues-IsFollower l (ok rv) s' f c is = record { follows = f; cursor_stored = c; on_log = is }
  Continues-IsFollower l (err x) s' f c is = record { follows = f; cursor_stored = c; on_log = is }
  Continues-IsFollower l (panic m) s' f c is = record {
    follows = f;
    cursor_stored = c;
    on_log = is;
  }

  pub handle-IsFollower :
      (l : L) (fuel : ℕ) (q : ApplyRequest) (s t : BaseEngine L (Unit {0})) (x : Reply)
      → IsFollower l (record s { loglet = requested log q s.loglet })
      → handle log applicator fuel q s ≡ some (x, t)
      → IsFollower l t
  handle-IsFollower l = handle-Inv log applicator (IsFollower l) (λ s f.
      let a = apply_one-Advanced s in
      let p = apply_one-Persisted log applicator s.cursor s in
      Continues-IsFollower l _ _ (Continues-Follows _ s _ a f.follows)
        (Continues-CursorStored log applicator _ s _ p f.cursor_stored)
        (Advanced-loglet _ s _ a ∙ f.on_log))
