-- ===== src/Engine/Base.antt =====
-- crates/relos-engine/src/base_engine.rs: the apply loop. A request is handled whole before the
-- next one is received, so the loop is a function over the list of requests.
mod LittleEndian
pub mod Invariants
pub mod Cursor
pub mod Recovery
pub mod Playback
pub mod Failure
pub mod Replication
pub mod OnVirtualLog
pub mod Front
unfoldable pub use LittleEndian.{to_le_bytes, from_le_bytes}
pub use LittleEndian.{from_le_bytes-to_le_bytes, length-to_le_bytes}
use relos.Prelude.{
  ℕ, zero, suc, ◌≡◌, Bool, true, false, Option, none, some, List, [], ◌∷◌, ◌++◌, length, leb, ltb,
  ◌==◌, if◌then◌else◌,
}
use relos.Prelude.Words.{add64}
use relos.Prelude.Bytes.{Bytes, text}
use relos.Core.{
  LogPos, log_pos_begin, Entry, RelosError, Result, ok, err, panic, internal, store, and_then,
  ok_or, Exec, pure, continue,
}
use relos.Log.Decimal.{decimal}
use relos.Log.Loglet.{Loglet}
use relos.Store.Memory
use relos.Store.Memory.{
  MemoryStore, MemoryWriteTx, begin_read_txn, begin_write_txn, read_get, put, commit,
}
use relos.Engine.Interface.{ReturnValue, success, Engine, Applicator}

-- `CURSOR_KEY`
unfoldable pub cursor_key : Bytes
cursor_key = text "__cursor__"

pub record BaseEngine (L A : Type 0) : Type 0 where
  pub loglet : L
  pub local_store : MemoryStore
  pub app : A
  pub cursor : LogPos

pub invalid_cursor : RelosError
invalid_cursor = store (text "invalid cursor bytes")

pub expected_entry : LogPos → RelosError
expected_entry pos =
    internal (text "expected entry at position " ++ decimal pos ++ text " but got None")

-- The `match` on the persisted cursor in `BaseEngine::new`
unfoldable pub cursor_from : Option Bytes → Result LogPos
cursor_from none = ok log_pos_begin
cursor_from (some bytes) =
    if length bytes == 8 then ok (from_le_bytes bytes) else err invalid_cursor

module _ {L A : Type 0} (log : Loglet L) (applicator : Applicator A) where
  -- `BaseEngine::new`
  unfoldable pub new : L → MemoryStore → A → Result (BaseEngine L A)
  unfolding cursor_from
  new loglet local_store app = and_then (begin_read_txn local_store) λ txn.
      and_then (read_get cursor_key txn) λ bytes. and_then (cursor_from bytes) λ cursor.
        ok (record { loglet = loglet; local_store = local_store; app = app; cursor = cursor })

  -- The end of `apply_one`: persist the next cursor in the same transaction, and commit it
  unfoldable pub finish : LogPos → ReturnValue → MemoryWriteTx → Exec (BaseEngine L A) ReturnValue
  finish pos rv txn s =
      let (r, txn') = put cursor_key (to_le_bytes 8 (add64 pos 1)) txn in
      continue r
        (λ _ s₁.
          let (r', st) = commit txn' s₁.local_store in
          continue r' (λ _. pure rv) (record s₁ { local_store = st }))
        s

  -- The call of the applicator: if it fails, the transaction is dropped
  unfoldable pub apply_in : LogPos → Entry → MemoryWriteTx → Exec (BaseEngine L A) ReturnValue
  apply_in pos entry txn s =
      let (r, st) = applicator.apply entry pos (txn, s.app) in
      continue r (λ rv s₁. finish pos rv st.0 s₁) (record s { app = st.1 })

  unfoldable pub apply_one : LogPos → Exec (BaseEngine L A) ReturnValue
  apply_one pos s =
      continue (and_then (log.read pos s.loglet) λ found. ok_or found (expected_entry pos))
        (λ entry s₁.
          continue (begin_write_txn s₁.local_store) (λ txn s₂. apply_in pos entry txn s₂) s₁)
        s

  -- Each loop has fuel; `none` means that it is still going round.
  abbrev pub Run : Type 0 → Type 0
  Run R = Option (Result R × BaseEngine L A)

  abbrev pub advance : BaseEngine L A → BaseEngine L A
  advance s = record s { cursor = add64 s.cursor 1 }

  abbrev pub loop_on :
      {R : Type 0}
      → Result ReturnValue
      → BaseEngine L A
      → (ReturnValue → BaseEngine L A → Run R)
      → Run R
  loop_on (ok rv) s next = next rv (advance s)
  loop_on (err e) s next = some (err e, s)
  loop_on (panic m) s next = some (panic m, s)

  -- `while *cursor <= target_pos`
  unfoldable pub propose_loop : ℕ → LogPos → ReturnValue → BaseEngine L A → Run ReturnValue
  propose_loop zero target rv s = none
  propose_loop (suc fuel) target rv s =
      let round =
        let (r, s') = apply_one s.cursor s in
        loop_on r s'
          (λ rv' s''. propose_loop fuel target (if s.cursor == target then rv' else rv) s'') in
      if leb s.cursor target then round else some (ok rv, s)

  -- `while *cursor < tail`
  unfoldable pub sync_loop : ℕ → LogPos → BaseEngine L A → Run LogPos
  sync_loop zero tail s = none
  sync_loop (suc fuel) tail s =
      let round =
        let (r, s') = apply_one s.cursor s in loop_on r s' (λ _ s''. sync_loop fuel tail s'') in
      if ltb s.cursor tail then round else some (ok tail, s)

  abbrev pub when_ok :
      {R T : Type 0} → Result T → BaseEngine L A → (T → BaseEngine L A → Run R) → Run R
  when_ok (ok t) s next = next t s
  when_ok (err e) s next = some (err e, s)
  when_ok (panic m) s next = some (panic m, s)

  unfoldable pub handle_propose : ℕ → Entry → BaseEngine L A → Run ReturnValue
  handle_propose fuel entry s =
      let (r, l) = log.append entry s.loglet in
      when_ok r (record s { loglet = l }) (λ target s₁. propose_loop fuel target success s₁)

  unfoldable pub handle_sync : ℕ → BaseEngine L A → Run LogPos
  handle_sync fuel s = when_ok (log.check_tail s.loglet) s (λ tail s₁. sync_loop fuel tail s₁)

-- A call whose loop returns within its fuel
abbrev pub within : {S R : Type 0} → (S → Option (Result R × S)) → Exec S R
within f s = elim (f s) [ none ↦ (panic (text "still going round"), s) | some x ↦ x ]

-- The engine for those above it, with the fuel of its loops
abbrev pub base_engine : {L A : Type 0} → Loglet L → Applicator A → ℕ → Engine (BaseEngine L A)
base_engine log applicator fuel = record {
  propose = λ entry. within (handle_propose log applicator fuel entry);
  sync = within (handle_sync log applicator fuel);
}

-- `ApplyRequest`, without the channel for the reply
pub data ApplyRequest : Type 0 where
  propose : Entry → ApplyRequest
  sync : ApplyRequest

pub data Reply : Type 0 where
  proposed : Result ReturnValue → Reply
  synced : Result LogPos → Reply

module _ {L A : Type 0} (log : Loglet L) (applicator : Applicator A) where
  -- `result_tx.send(result)`
  abbrev pub replied :
      {R : Type 0} → (Result R → Reply) → Run log applicator R → Option (Reply × BaseEngine L A)
  replied f none = none
  replied f (some (r, s)) = some (f r, s)

  -- One turn of `apply_loop`
  unfoldable pub handle : ℕ → ApplyRequest → BaseEngine L A → Option (Reply × BaseEngine L A)
  handle fuel (propose entry) s = replied proposed (handle_propose log applicator fuel entry s)
  handle fuel sync s = replied synced (handle_sync log applicator fuel s)

  abbrev pub received :
      (BaseEngine L A → Option (BaseEngine L A))
      → Option (Reply × BaseEngine L A)
      → Option (BaseEngine L A)
  received rest none = none
  received rest (some (r, s)) = rest s

  -- The engine after some requests, if each of them was answered
  unfoldable pub apply_loop : ℕ → List ApplyRequest → BaseEngine L A → Option (BaseEngine L A)
  apply_loop fuel [] s = some s
  apply_loop fuel (q ∷ qs) s = received (λ s'. apply_loop fuel qs s') (handle fuel q s)
