-- ===== src/Engine/Batching/Answers.antt =====
-- Every request that the flush task receives is answered once, in the order of their arrival.
use relos.Prelude.{
  ℕ, ◌≡◌, ◌≢◌, refl, ap, sym, ◌∙◌, List, [], ◌∷◌, ◌++◌, length, leb, Bool-cases, inl, inr,
}
use relos.Prelude.Bytes.{Bytes, Text}
use relos.Core.{Entry, Result, ok, err, panic, LogPos, Coded, coded, failed, continue, Exec}
use relos.Engine.Interface.{ReturnValue, Engine}
use relos.Engine.Base.{Reply}
use relos.Engine.Batching.{
  BatchCodecs, PendingPropose, propose, sync, Wake, received, timed_out, Flusher, send_all,
  answer_all, answer_with, propose_batch, flush, flush_batch, send_synced, sync_below, flush_step,
  flush_loop,
}

-- The requests that are answered, those that wait, and those that a wake brings.
abbrev pub tickets : List (ℕ × Reply) → List ℕ
tickets [] = []
tickets (a ∷ as') = a.0 ∷ tickets as'

abbrev pub waiting : List PendingPropose → List ℕ
waiting [] = []
waiting (p ∷ ps) = p.result_tx ∷ waiting ps

abbrev pub brought : Wake → List ℕ
brought (received (propose p)) = p.result_tx ∷ []
brought (received (sync tx)) = tx ∷ []
brought timed_out = []

abbrev pub brought_all : List Wake → List ℕ
brought_all [] = []
brought_all (w ∷ ws) = brought w ++ brought_all ws

append_assoc : {A : Type 0} → (a b c : List A) → (a ++ b) ++ c ≡ a ++ (b ++ c)
append_assoc [] b c = refl
append_assoc (x ∷ a) b c = ap (λ r. x ∷ r) (append_assoc a b c)

append_nil : {A : Type 0} → (a : List A) → a ++ [] ≡ a
append_nil [] = refl
append_nil (x ∷ a) = ap (λ r. x ∷ r) (append_nil a)

tickets-append : (a b : List (ℕ × Reply)) → tickets (a ++ b) ≡ tickets a ++ tickets b
tickets-append [] b = refl
tickets-append (x ∷ a) b = ap (λ r. x.0 ∷ r) (tickets-append a b)

waiting-append : (a b : List PendingPropose) → waiting (a ++ b) ≡ waiting a ++ waiting b
waiting-append [] b = refl
waiting-append (x ∷ a) b = ap (λ r. x.result_tx ∷ r) (waiting-append a b)

tickets-send_all :
    (batch : List PendingPropose) (r : Result ReturnValue)
    → tickets (send_all batch r) ≡ waiting batch
unfolding send_all
tickets-send_all [] r = refl
tickets-send_all (p ∷ batch) r = ap (λ l. p.result_tx ∷ l) (tickets-send_all batch r)

module _ {S : Type 0} where
  -- All that was received, in order: first what is answered, then what waits.
  abbrev pub seen : Flusher S → List ℕ
  seen s = tickets s.answers ++ waiting s.pending

  -- The task goes on, with nothing pending, and has answered these besides.
  abbrev Answers : List ℕ → Flusher S → Result (Unit {0}) × Flusher S → Type 0
  Answers ids s r =
      (r.0 ≡ ok tt) × (r.1.pending ≡ []) × (tickets r.1.answers ≡ tickets s.answers ++ ids)

  answer_all-Answers :
      (batch : List PendingPropose) (r : Result ReturnValue) (s : Flusher S)
      → s.pending ≡ []
      → Answers (waiting batch) s (answer_all batch r s)
  answer_all-Answers batch r s none_left = (
    refl,
    none_left,
    tickets-append s.answers (send_all batch r)
        ∙ ap (λ l. tickets s.answers ++ l) (tickets-send_all batch r),
  )

  -- No call of the engine below panics.
  pub record NoPanic (downstream : Engine S) : Type 0 where
    pub proposes : (e : Entry) (d : S) (m : Text) → (downstream.propose e d).0 ≢ panic m
    pub syncs : (d : S) (m : Text) → (downstream.sync d).0 ≢ panic m

  answer_with-Answers :
      (batch : List PendingPropose) (r : Result ReturnValue) (s : Flusher S)
      → ((m : Text) → r ≢ panic m)
      → s.pending ≡ []
      → Answers (waiting batch) s (answer_with batch r s)
  answer_with-Answers batch (ok rv) s calm e = answer_all-Answers batch (ok rv) s e
  answer_with-Answers batch (err x) s calm e = answer_all-Answers batch (err x) s e
  answer_with-Answers batch (panic m) s calm e = absurd (calm m refl)

  module _ (c : BatchCodecs) (downstream : Engine S) (steady : NoPanic downstream) where
    propose_batch-Answers :
        (batch : List PendingPropose) (b header : Coded Bytes) (s : Flusher S)
        → s.pending ≡ []
        → Answers (waiting batch) s (propose_batch c downstream batch b header s)
    propose_batch-Answers batch (failed x) header s e = answer_all-Answers batch (err _) s e
    propose_batch-Answers batch (coded b) (failed x) s e = answer_all-Answers batch (err _) s e
    propose_batch-Answers batch (coded b) (coded header) s e =
        answer_with-Answers batch _ (record s { downstream = _ })
          (λ m. steady.proposes _ s.downstream m) e

    flush-Answers :
        (ps : List PendingPropose) (s : Flusher S)
        → s.pending ≡ []
        → Answers (waiting ps) s (flush c downstream ps s)
    flush-Answers [] s e = (refl, e, sym (append_nil (tickets s.answers)))
    flush-Answers (p ∷ ps) s e = propose_batch-Answers (p ∷ ps) _ _ s e

    pub flush_batch-Answers :
        (s : Flusher S) → Answers (waiting s.pending) s (flush_batch c downstream s)
    unfolding flush_batch
    flush_batch-Answers s = flush-Answers s.pending (record s { pending = [] }) refl

    -- The task goes on, and has seen these besides.
    abbrev Sees : List ℕ → Flusher S → Result (Unit {0}) × Flusher S → Type 0
    Sees ids s r = (r.0 ≡ ok tt) × (seen r.1 ≡ seen s ++ ids)

    Answers-Sees :
        (s : Flusher S) (r : Result (Unit {0}) × Flusher S)
        → Answers (waiting s.pending) s r
        → Sees [] s r
    Answers-Sees s r h = (
      h.0,
      ap (λ l. tickets r.1.answers ++ waiting l) h.1
          ∙ (append_nil (tickets r.1.answers) ∙ (h.2 ∙ sym (append_nil (seen s)))),
    )

    push_seen :
        (p : PendingPropose) (s : Flusher S)
        → seen (record s { pending = s.pending ++ p ∷ [] }) ++ [] ≡ seen s ++ p.result_tx ∷ []
    push_seen p s =
        append_nil (tickets s.answers ++ waiting (s.pending ++ p ∷ []))
        ∙ (ap (λ l. tickets s.answers ++ l) (waiting-append s.pending (p ∷ []))
            ∙ sym (append_assoc (tickets s.answers) (waiting s.pending) (p.result_tx ∷ [])))

    send_synced-Sees :
        (tx : ℕ) (r : Result LogPos) (s : Flusher S)
        → ((m : Text) → r ≢ panic m)
        → s.pending ≡ []
        → ((send_synced c downstream tx r s).0 ≡ ok tt)
          × ((send_synced c downstream tx r s).1.pending ≡ [])
          × (tickets (send_synced c downstream tx r s).1.answers ≡ tickets s.answers ++ tx ∷ [])
    send_synced-Sees tx (ok p) s calm e = (refl, e, tickets-append s.answers _)
    send_synced-Sees tx (err x) s calm e = (refl, e, tickets-append s.answers _)
    send_synced-Sees tx (panic m) s calm e = absurd (calm m refl)

    sync_below-Sees :
        (tx : ℕ) (s : Flusher S) → s.pending ≡ [] → Sees (tx ∷ []) s (sync_below c downstream tx s)
    unfolding sync_below
    sync_below-Sees tx s e =
        let h =
          send_synced-Sees tx (downstream.sync s.downstream).0
            (record s { downstream = (downstream.sync s.downstream).1 }) (steady.syncs s.downstream)
            e in
        let sent = tickets (sync_below c downstream tx s).1.answers in
        (
          h.0,
          ap (λ l. sent ++ waiting l) h.1
              ∙ (append_nil sent
                  ∙ (h.2
                      ∙ ap (λ l. l ++ tx ∷ [])
                          (sym (
                            ap (λ l. tickets s.answers ++ waiting l) e
                            ∙ append_nil (tickets s.answers))))),
        )

    then_Sees :
        (ids : List ℕ) (s : Flusher S) (r : Result (Unit {0}) × Flusher S)
        (next : Exec (Flusher S) (Unit {0})) (more : List ℕ)
        → Sees ids s r
        → Sees more r.1 (next r.1)
        → Sees (ids ++ more) s (continue r.0 (λ _. next) r.1)
    then_Sees ids s r next more h k =
        rw h.0 (k.0, k.1 ∙ (ap (λ l. l ++ more) h.1 ∙ append_assoc (seen s) ids more))

    pub flush_step-Sees :
        (max_batch : ℕ) (w : Wake) (s : Flusher S)
        → Sees (brought w) s (flush_step c downstream max_batch w s)
    unfolding flush_step
    flush_step-Sees max_batch (received (propose p)) s =
        let s' = record s { pending = s.pending ++ p ∷ [] } in
        elim (Bool-cases (leb max_batch (length s'.pending))) [
          | inl full ↦
              let h = Answers-Sees s' (flush_batch c downstream s') (flush_batch-Answers s') in
              rw full (h.0, h.1 ∙ push_seen p s)
          | inr room ↦ rw room (refl, sym (append_nil (seen s')) ∙ push_seen p s)
        ]
    flush_step-Sees max_batch (received (sync tx)) s =
        let h = flush_batch-Answers s in
        then_Sees [] s (flush_batch c downstream s) (sync_below c downstream tx) (tx ∷ [])
          (Answers-Sees s (flush_batch c downstream s) h)
          (sync_below-Sees tx (flush_batch c downstream s).1 h.1)
    flush_step-Sees max_batch timed_out s =
        Answers-Sees s (flush_batch c downstream s) (flush_batch-Answers s)

    flush_loop-Sees :
        (max_batch : ℕ) (ws : List Wake) (s : Flusher S)
        → Sees (brought_all ws) s (flush_loop c downstream max_batch ws s)
    unfolding flush_loop
    flush_loop-Sees max_batch [] s =
        Answers-Sees s (flush_batch c downstream s) (flush_batch-Answers s)
    flush_loop-Sees max_batch (w ∷ ws) s =
        then_Sees (brought w) s (flush_step c downstream max_batch w s)
          (flush_loop c downstream max_batch ws) (brought_all ws) (flush_step-Sees max_batch w s)
          (flush_loop-Sees max_batch ws (flush_step c downstream max_batch w s).1)

    flush_loop-pending :
        (max_batch : ℕ) (ws : List Wake) (s : Flusher S)
        → (flush_loop c downstream max_batch ws s).1.pending ≡ []
    unfolding flush_loop
    flush_loop-pending max_batch [] s = (flush_batch-Answers s).1
    flush_loop-pending max_batch (w ∷ ws) s =
        rw (flush_step-Sees max_batch w s).0
          (flush_loop-pending max_batch ws (flush_step c downstream max_batch w s).1)

    -- Over an engine that does not panic, the task runs until its channel is closed, with nothing
    -- left pending, and the answers it has sent by then are, in order and one each, those to the
    -- earlier requests and to every request it received: whatever the batch size, the timeouts
    -- and the errors on the way.
    pub flush_loop_lem :
        (max_batch : ℕ) (ws : List Wake) (s : Flusher S)
        → ((flush_loop c downstream max_batch ws s).0 ≡ ok tt)
          × ((flush_loop c downstream max_batch ws s).1.pending ≡ [])
          × (tickets (flush_loop c downstream max_batch ws s).1.answers
              ≡ (tickets s.answers ++ waiting s.pending) ++ brought_all ws)
    flush_loop_lem max_batch ws s =
        let h = flush_loop-Sees max_batch ws s in
        let left = flush_loop-pending max_batch ws s in
        let sent = tickets (flush_loop c downstream max_batch ws s).1.answers in
        (h.0, left, sym (ap (λ l. sent ++ waiting l) left ∙ append_nil sent) ∙ h.1)
