-- ===== src/Engine/Base/Recovery.antt =====
-- A restart reads the cursor at which the engine had stopped.
use relos.Prelude.{
  ℕ, ◌≡◌, refl, subst, false, Option, none, some, List, [], ◌∷◌, Bool-cases, inl, inr,
}
use relos.Core.{ok_inj, LogPos, Result, ok, err, panic, and_then}
use relos.Log.Loglet.{Loglet}
use relos.Store.Map
use relos.Store.Memory.{MemoryStore, begin_read_txn, read_get}
use relos.Engine.Interface.{Applicator}
use relos.Engine.Base.{
  BaseEngine, cursor_key, cursor_from, new, ApplyRequest, handle, apply_loop, received, Reply,
}
use relos.Engine.Base.Cursor.{CursorStored, handle-CursorStored}

module _ {L A : Type 0} (log : Loglet L) (applicator : Applicator A) where
  abbrev at_cursor : L → MemoryStore → A → LogPos → BaseEngine L A
  at_cursor l st a cursor = record { loglet = l; local_store = st; app = a; cursor = cursor }

  new-CursorStored :
      (l : L) (st : MemoryStore) (a : A) (s : BaseEngine L A)
      → new log applicator l st a ≡ ok s
      → CursorStored log applicator s
  unfolding new begin_read_txn read_get
  new-CursorStored l st a s e = elim (Bool-cases st.poisoned) [
    | inl bad ↦ cc (rw bad at e)
    | inr fine ↦ go (cursor_from (Map.get cursor_key st.contents)) refl (simp fine at e)
  ]
    where
      go :
          (r : Result LogPos)
          → cursor_from (Map.get cursor_key st.contents) ≡ r
          → and_then r (λ cursor. ok (at_cursor l st a cursor)) ≡ ok s
          → CursorStored log applicator s
      go (ok c) eq e' = subst (λ (u : BaseEngine L A). CursorStored log applicator u) (ok_inj e') eq
      go (err x) eq e' = cc
      go (panic m) eq e' = cc

  stopped : {s t : BaseEngine L A} → some s ≡ some t → s ≡ t
  stopped e = cc

  apply_loop-CursorStored :
      (fuel : ℕ) (qs : List ApplyRequest) (s t : BaseEngine L A)
      → CursorStored log applicator s
      → apply_loop log applicator fuel qs s ≡ some t
      → CursorStored log applicator t
  unfolding apply_loop
  apply_loop-CursorStored fuel [] s t h e =
      subst (λ (u : BaseEngine L A). CursorStored log applicator u) (stopped e) h
  apply_loop-CursorStored fuel (q ∷ qs) s t h e =
      go (λ s' h' e'. apply_loop-CursorStored fuel qs s' t h' e') (handle log applicator fuel q s)
        refl e
    where
      go :
          ((s' : BaseEngine L A)
            → CursorStored log applicator s'
            → apply_loop log applicator fuel qs s' ≡ some t
            → CursorStored log applicator t)
          → (r : Option (Reply × BaseEngine L A)) → handle log applicator fuel q s ≡ r
          → ◌≡◌ {A = Option (BaseEngine L A)}
              (received log applicator (λ s'. apply_loop log applicator fuel qs s') r)
              (some t)
          → CursorStored log applicator t
      go rest none eq e' = cc
      go rest (some (x, s')) eq e' =
          rest s' (handle-CursorStored log applicator fuel q s s' x h eq) e'

  -- Start an engine, let it answer any requests, whatever the applicator and the log return, and
  -- start another on the store that it leaves: the new engine goes on at the cursor of the old one,
  -- so no entry is applied twice and none is skipped. (The store's lock is not poisoned.)
  pub restart_resumes :
      (fuel : ℕ) (qs : List ApplyRequest) (l l' : L) (st : MemoryStore) (a a' : A)
      (s t : BaseEngine L A)
      → new log applicator l st a ≡ ok s
      → apply_loop log applicator fuel qs s ≡ some t
      → t.local_store.poisoned ≡ false
      → new log applicator l' t.local_store a'
        ≡ ok (record { loglet = l'; local_store = t.local_store; app = a'; cursor = t.cursor })
  unfolding new begin_read_txn read_get
  restart_resumes fuel qs l l' st a a' s t started ran fine =
      rw fine (rw (apply_loop-CursorStored fuel qs s t (new-CursorStored l st a s started) ran))
