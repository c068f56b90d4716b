-- ===== src/Engine/Batching/Front.antt =====
-- The callers' side of `BatchingEngine` in crates/relos-engine/src/batching.rs: how it starts, what
-- a call sends to the flush task, and what the caller receives when the task has ended.
use relos.Prelude.{
  ℕ, ◌≡◌, refl, ap, ◌∙◌, Bool, true, false, Option, none, some, List, [], ◌∷◌, ◌++◌, ◌==◌,
  if◌then◌else◌, Bool-cases, inl, inr,
}
use relos.Prelude.Bytes.{text}
use relos.Core.{Entry, RelosError, Result, err, internal}
use relos.Engine.Interface.{ReturnValue, Engine}
use relos.Engine.Base.{Reply, proposed}
use relos.Engine.Batching.{
  BatchCodecs, Wake, received, BatchRequest, Flusher, flush_loop, default_max_batch_size,
}
use relos.Engine.Batching.Answers.{tickets, brought_all, NoPanic, flush_loop_lem}

pub record BatchingEngine (S : Type 0) : Type 0 where
  pub max_batch : ℕ
  pub flusher : Flusher S

abbrev unwrap_or : Option ℕ → ℕ → ℕ
unwrap_or none d = d
unwrap_or (some n) d = n

-- `BatchingEngine::new`. The timeout decides only when the task wakes up without a request.
unfoldable pub new : {S : Type 0} → S → Option ℕ → BatchingEngine S
new downstream max_batch_size = record {
  max_batch = unwrap_or max_batch_size default_max_batch_size;
  flusher = record { pending = []; downstream = downstream; answers = [] };
}

-- What `propose` sends: of the entry, its payload.
unfoldable pub propose : ℕ → Entry → Wake
propose result_tx entry =
    received (BatchRequest.propose (record { payload = entry.payload; result_tx = result_tx }))

unfoldable pub sync : ℕ → Wake
sync result_tx = received (BatchRequest.sync result_tx)

pub dropped_result : RelosError
dropped_result = internal (text "batching flush loop dropped result")

-- The first answer that was sent to a caller
unfoldable pub answer_to : ℕ → List (ℕ × Reply) → Option Reply
answer_to tx [] = none
answer_to tx ((t, r) ∷ answers) = if t == tx then some r else answer_to tx answers

-- What `propose` returns in the end
unfoldable pub proposal_result : Option Reply → Result ReturnValue
proposal_result (some (proposed r)) = r
proposal_result _ = err dropped_result

abbrev pub member : ℕ → List ℕ → Bool
member tx [] = false
member tx (t ∷ ts) = if t == tx then true else member tx ts

member-append : (tx : ℕ) (xs ys : List ℕ) → member tx ys ≡ true → member tx (xs ++ ys) ≡ true
member-append tx [] ys h = h
member-append tx (x ∷ xs) ys h = elim (Bool-cases (x == tx)) [
  | inl same ↦ rw same refl
  | inr other ↦ rw other (member-append tx xs ys h)
]

answer_to-member :
    (tx : ℕ) (answers : List (ℕ × Reply))
    → member tx (tickets answers) ≡ true
    → (r : Reply) × (answer_to tx answers ≡ some r)
unfolding answer_to
answer_to-member tx [] h = cc
answer_to-member tx (a ∷ answers) h = elim (Bool-cases (a.0 == tx)) [
  | inl same ↦ (a.1, rw same refl)
  | inr other ↦ let (r, is) = answer_to-member tx answers (rw other at h) in (r, rw other is)
]

-- Every caller of a batching engine receives an answer: over an engine that does not panic, whatever
-- the batch size and whatever else the task wakes up to, once it has ended there is an answer to
-- every call that it was sent.
pub every_caller_answered :
    {S : Type 0} (c : BatchCodecs) (downstream : Engine S)
    → NoPanic downstream
    → (max_batch_size : Option ℕ) (s : S) (ws : List Wake) (tx : ℕ)
    → member tx (brought_all ws) ≡ true
    → let engine = new s max_batch_size in
      (r : Reply) × (answer_to tx
          (flush_loop c downstream engine.max_batch ws engine.flusher).1.answers
        ≡ some r)
unfolding new
every_caller_answered c downstream steady max_batch_size s ws tx asked =
    let engine = new s max_batch_size in
    let all = (flush_loop_lem c downstream steady engine.max_batch ws engine.flusher).2 in
    answer_to-member tx _ (ap (λ l. member tx l) all ∙ asked)
