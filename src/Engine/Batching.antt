-- ===== src/Engine/Batching.antt =====
-- crates/relos-engine/src/batching.rs: the group commit. The flush task is a function over what
-- it receives: a request, a timeout while proposals wait, or the close of its channel. The sender
-- of a request's answer is a number.
pub mod Answers
pub mod Bounds
pub mod Unbatching
pub mod GroupCommit
pub mod Front
use relos.Prelude.{
  ℕ, Bool, true, false, Option, none, some, List, [], ◌∷◌, ◌++◌, map, length, leb, ◌==◌,
  if◌then◌else◌,
}
use relos.Prelude.Bytes.{Bytes, Text, text}
use relos.Core
use relos.Core.{
  Entry, LogPos, RelosError, Result, ok, err, panic, internal, Codec, Coded, coded, failed,
  or_serialization_error, serialization, with_header, get_header, Exec, lift, pure, continue, ◌>>=◌,
  ◌>>◌,
}
use relos.Log.Decimal.{decimal}
use relos.Store.Memory.{MemoryWriteTx}
use relos.Engine.Interface.{ReturnValue, success, Engine, Applicator}
use relos.Engine.Base.{Reply, proposed, synced}

abbrev pub default_max_batch_size : ℕ
default_max_batch_size = 100

-- `BATCHING_HEADER`
pub batching_header : Text
batching_header = text "batching"

pub record BatchMetadata : Type 0 where
  pub count : ℕ

-- What `bincode` serializes here.
pub record BatchCodecs : Type 0 where
  pub payloads : Codec (List Bytes)
  pub metadata : Codec BatchMetadata

pub record PendingPropose : Type 0 where
  pub payload : Bytes
  pub result_tx : ℕ

pub data BatchRequest : Type 0 where
  propose : PendingPropose → BatchRequest
  sync : ℕ → BatchRequest

-- What the task wakes up to.
pub data Wake : Type 0 where
  received : BatchRequest → Wake
  timed_out : Wake

-- The task's `pending`, the engine below, and the answers that were sent, in order.
pub record Flusher (S : Type 0) : Type 0 where
  pub pending : List PendingPropose
  pub downstream : S
  pub answers : List (ℕ × Reply)

-- `for p in batch { p.result_tx.send(r) }`
unfoldable pub send_all : List PendingPropose → Result ReturnValue → List (ℕ × Reply)
send_all [] r = []
send_all (p ∷ batch) r = (p.result_tx, proposed r) ∷ send_all batch r

module _ {S : Type 0} where
  abbrev pub answer_all : List PendingPropose → Result ReturnValue → Exec (Flusher S) (Unit {0})
  answer_all batch r s = (ok tt, record s { answers = s.answers ++ send_all batch r })

  -- The answer of the engine below; a panic in it ends the task before anything is sent
  abbrev pub answer_with : List PendingPropose → Result ReturnValue → Exec (Flusher S) (Unit {0})
  answer_with batch (ok rv) s = answer_all batch (ok rv) s
  answer_with batch (err e) s = answer_all batch (err e) s
  answer_with batch (panic m) s = (panic m, s)

  module _ (c : BatchCodecs) (downstream : Engine S) where
    abbrev pub propose_batch :
        List PendingPropose → Coded Bytes → Coded Bytes → Exec (Flusher S) (Unit {0})
    propose_batch batch (failed e) header s = answer_all batch (err (serialization e)) s
    propose_batch batch (coded b) (failed e) s = answer_all batch (err (serialization e)) s
    propose_batch batch (coded b) (coded header) s =
        let (r, d) =
          downstream.propose (with_header (Core.new b) batching_header header) s.downstream in
        answer_with batch r (record s { downstream = d })

    abbrev pub flush : List PendingPropose → Exec (Flusher S) (Unit {0})
    flush [] s = (ok tt, s)
    flush (p ∷ ps) s =
        let batch = p ∷ ps in
        propose_batch batch (c.payloads.serialize (map (λ q. q.payload) batch))
          (c.metadata.serialize (record { count = length batch })) s

    unfoldable pub flush_batch : Exec (Flusher S) (Unit {0})
    flush_batch s = flush s.pending (record s { pending = [] })

    abbrev pub send_synced : ℕ → Result LogPos → Exec (Flusher S) (Unit {0})
    send_synced tx (ok p) s = (ok tt, record s { answers = s.answers ++ (tx, synced (ok p)) ∷ [] })
    send_synced tx (err e) s =
        (ok tt, record s { answers = s.answers ++ (tx, synced (err e)) ∷ [] })
    send_synced tx (panic m) s = (panic m, s)

    unfoldable pub sync_below : ℕ → Exec (Flusher S) (Unit {0})
    sync_below tx s =
        let (r, d) = downstream.sync s.downstream in send_synced tx r (record s { downstream = d })

    -- One turn of `flush_loop`. A flush of nothing does nothing, as its guards there.
    unfoldable pub flush_step : ℕ → Wake → Exec (Flusher S) (Unit {0})
    flush_step max_batch (received (propose p)) s =
        let s' = record s { pending = s.pending ++ p ∷ [] } in
        if leb max_batch (length s'.pending) then flush_batch s' else (ok tt, s')
    flush_step max_batch (received (sync tx)) s = (flush_batch >> sync_below tx) s
    flush_step max_batch timed_out s = flush_batch s

    -- `flush_loop`, until the channel is closed: then what is pending is flushed
    unfoldable pub flush_loop : ℕ → List Wake → Exec (Flusher S) (Unit {0})
    flush_loop max_batch [] s = flush_batch s
    flush_loop max_batch (w ∷ ws) s = (flush_step max_batch w >> flush_loop max_batch ws) s

pub wrong_count : ℕ → ℕ → RelosError
wrong_count count payloads = internal (
    text "batch metadata count "
    ++ (decimal count ++ (text " != actual payload count " ++ decimal payloads)))

-- The state of a transaction and of an applicator, as `Applicator.apply` has them.
module _ {A : Type 0} (inner : Applicator A) where
  -- `for payload in &payloads { last_rv = inner.apply(..)? }`
  unfoldable pub apply_payloads :
      LogPos → ReturnValue → List Bytes → Exec (MemoryWriteTx × A) ReturnValue
  apply_payloads pos last_rv [] s = (ok last_rv, s)
  apply_payloads pos last_rv (b ∷ bs) s =
      (inner.apply (Core.new b) pos >>= λ rv. apply_payloads pos rv bs) s

  abbrev pub apply_counted :
      LogPos → BatchMetadata → List Bytes → Exec (MemoryWriteTx × A) ReturnValue
  apply_counted pos metadata payloads =
      if length payloads == metadata.count
      then apply_payloads pos success payloads
      else lift (err (wrong_count metadata.count (length payloads)))

  abbrev pub apply_if_batched :
      BatchCodecs → Entry → LogPos → Option Bytes → Exec (MemoryWriteTx × A) ReturnValue
  apply_if_batched c entry pos none = inner.apply entry pos
  apply_if_batched c entry pos (some header) =
      lift (or_serialization_error (c.metadata.deserialize header)) >>= λ metadata.
      lift (or_serialization_error (c.payloads.deserialize entry.payload))
      >>= apply_counted pos metadata

  -- `BatchingApplicator::apply`
  unfoldable pub apply_batched : BatchCodecs → Entry → LogPos → Exec (MemoryWriteTx × A) ReturnValue
  apply_batched c entry pos = apply_if_batched c entry pos (get_header entry batching_header)

-- `impl Applicator for BatchingApplicator`
abbrev pub batching_applicator : {A : Type 0} → BatchCodecs → Applicator A → Applicator A
batching_applicator c inner = record { apply = apply_batched inner c }
