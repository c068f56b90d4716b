-- ===== src/Engine/Batching/Bounds.antt =====
-- How many proposals wait in the flush task.
use relos.Prelude.{
  ℕ, ◌-◌, ◌≤◌, ◌≡◌, refl, ap, List, [], ◌∷◌, ◌++◌, length, leb, Bool-cases, inl, inr, arith,
}
use relos.Core.{ok, err, panic, LogPos, Result, Exec, ◌>>◌}
use relos.Engine.Interface.{Engine}
use relos.Engine.Batching.{
  BatchCodecs, propose, sync, Wake, received, timed_out, Flusher, flush_batch, send_synced,
  sync_below, flush_step, flush_loop,
}
use relos.Engine.Batching.Answers.{NoPanic, flush_batch-Answers, flush_step-Sees}

module _ {S : Type 0} (c : BatchCodecs) (downstream : Engine S) where
  -- The turns of `flush_loop` before its channel is closed
  unfoldable pub flush_turns : ℕ → List Wake → Exec (Flusher S) (Unit {0})
  flush_turns max_batch [] s = (ok tt, s)
  flush_turns max_batch (w ∷ ws) s =
      (flush_step c downstream max_batch w >> flush_turns max_batch ws) s

  -- A sync adds no proposal.
  send_synced-pending :
      (tx : ℕ) (r : Result LogPos) (s : Flusher S)
      → (send_synced c downstream tx r s).1.pending ≡ s.pending
  send_synced-pending tx (ok p) s = refl
  send_synced-pending tx (err e) s = refl
  send_synced-pending tx (panic m) s = refl

  sync_below-pending :
      (tx : ℕ) (s : Flusher S) → (sync_below c downstream tx s).1.pending ≡ s.pending
  unfolding sync_below
  sync_below-pending tx s =
      send_synced-pending tx (downstream.sync s.downstream).0
        (record s { downstream = (downstream.sync s.downstream).1 })

  module _ (steady : NoPanic downstream) where
    flushed-pending : (s : Flusher S) → length (flush_batch c downstream s).1.pending ≡ 0
    flushed-pending s = ap length (flush_batch-Answers c downstream steady s).1

    flush_step-bounded :
        (max_batch : ℕ) (w : Wake) (s : Flusher S)
        → length (flush_step c downstream max_batch w s).1.pending ≤ max_batch - 1
    unfolding flush_step
    flush_step-bounded max_batch (received (propose p)) s =
        let s' = record s { pending = s.pending ++ p ∷ [] } in
        elim (Bool-cases (leb max_batch (length s'.pending))) [
          | inl full ↦ rw full (omega (arith, flushed-pending s'))
          | inr room ↦ rw room (ground (arith, room))
        ]
    flush_step-bounded max_batch (received (sync tx)) s =
        let done = flush_batch c downstream s in
        rw (flush_batch-Answers c downstream steady s).0
          (omega (arith, ap length (sync_below-pending tx done.1), flushed-pending s))
    flush_step-bounded max_batch timed_out s = omega (arith, flushed-pending s)

    turns_bounded :
        (max_batch : ℕ) (ws : List Wake) (s : Flusher S)
        → length s.pending ≤ max_batch - 1
        → length (flush_turns max_batch ws s).1.pending ≤ max_batch - 1
    unfolding flush_turns
    turns_bounded max_batch [] s h = h
    turns_bounded max_batch (w ∷ ws) s h =
        rw (flush_step-Sees c downstream steady max_batch w s).0 (
          turns_bounded max_batch ws (flush_step c downstream max_batch w s).1
            (flush_step-bounded max_batch w s))

    loop-turns :
        (max_batch : ℕ) (ws : List Wake) (s : Flusher S)
        → flush_loop c downstream max_batch ws s
          ≡ flush_batch c downstream (flush_turns max_batch ws s).1
    unfolding flush_loop flush_turns
    loop-turns max_batch [] s = refl
    loop-turns max_batch (w ∷ ws) s =
        rw (flush_step-Sees c downstream steady max_batch w s).0
          (loop-turns max_batch ws (flush_step c downstream max_batch w s).1)

    -- Whatever the flush task receives, fewer proposals than the maximal batch size wait when it
    -- takes the next request, and none with a maximal size of 0, if so it was at first; when
    -- its channel is closed it flushes what waits. (The engine below does not panic.)
    pub flush_turns-bounded :
        (max_batch : ℕ) (ws : List Wake) (s : Flusher S)
        → length s.pending ≤ max_batch - 1
        → (length (flush_turns max_batch ws s).1.pending ≤ max_batch - 1)
          × (flush_loop c downstream max_batch ws s
              ≡ flush_batch c downstream (flush_turns max_batch ws s).1)
    flush_turns-bounded max_batch ws s few =
        (turns_bounded max_batch ws s few, loop-turns max_batch ws s)
