-- ===== src/Engine/Base/Playback/Syncing.antt =====
-- `handle_sync` against the specification.
use relos.Prelude.{
  ℕ, zero, suc, ◌+◌, ◌<◌, ◌^◌, ◌≡◌, refl, ap, ◌∙◌, false, some, List, [], ◌∷◌, arith, length,
  lt→ltb,
}
use relos.Prelude.Words.{add64-eq}
use relos.Core.{LogPos, Entry, ok}
use relos.Log.Loglet.{Loglet}
use relos.Engine.Interface.{ReturnValue, success, Applicator}
use relos.Engine.Base.{BaseEngine, apply_one, advance, sync_loop, handle_sync}
use relos.Engine.Base.Playback.{
  Machine, replay, machine_of, with_machine, Holds, apply_one-accept, replay-cons, replay-nil,
}

module _ {L A : Type 0} (log : Loglet L) (applicator : Applicator A) where
  sync_round :
      (fuel : ℕ) (tail : LogPos) (s s' : BaseEngine L A) (rv : ReturnValue)
      → s.cursor < tail
      → apply_one log applicator s.cursor s ≡ (ok rv, s')
      → sync_loop log applicator (suc fuel) tail s
        ≡ sync_loop log applicator fuel tail (advance log applicator s')
  unfolding sync_loop
  sync_round fuel tail s s' rv lt one = rw (lt→ltb s.cursor tail lt) (rw one)

  sync_done :
      (fuel : ℕ) (tail : LogPos) (s : BaseEngine L A)
      → s.cursor ≡ tail
      → sync_loop log applicator (suc fuel) tail s ≡ some (ok tail, s)
  unfolding sync_loop
  sync_done fuel tail s at = ground arith

  sync_loop-replay :
      (es : List Entry) (fuel : ℕ) (tail : LogPos) (s : BaseEngine L A) (rv rv' : ReturnValue)
      (m : Machine log applicator)
      → length es < fuel
      → s.local_store.poisoned ≡ false
      → s.cursor + length es ≡ tail
      → tail < 2 ^ 64
      → Holds log applicator s.loglet s.cursor es
      → replay log applicator es s.cursor rv (machine_of log applicator s) ≡ some (rv', m)
      → sync_loop log applicator fuel tail s ≡ some (ok tail, with_machine log applicator s m tail)
  sync_loop-replay es zero tail s rv rv' m lt fine to b holds run = absurd (omega arith)
  sync_loop-replay [] (suc fuel) tail s rv rv' m lt fine to b holds run =
      let at : s.cursor ≡ tail = omega arith in
      sync_done fuel tail s at
      ∙ ap (λ (u : BaseEngine L A). some (ok tail, u))
          (replay-nil log applicator s tail rv rv' m fine at run).1
  sync_loop-replay (e ∷ es) (suc fuel) tail s rv rv' m lt fine to b holds run =
      let (x, acc, rest) =
        replay-cons log applicator e es s.cursor rv rv' (machine_of log applicator s) m run in
      sync_round fuel tail s (with_machine log applicator s x.1 s.cursor) x.0 (omega arith)
        (apply_one-accept log applicator s e x.0 x.1 fine holds.0 acc)
      ∙ ap
          (λ (c : LogPos). sync_loop log applicator fuel tail (with_machine log applicator s x.1 c))
          (add64-eq s.cursor 1 (omega arith))
      ∙ sync_loop-replay es fuel tail (with_machine log applicator s x.1 (s.cursor + 1)) x.0 rv' m
          (omega arith) refl (omega arith) b holds.1 rest

  -- A sync whose log holds the entries from the cursor up to the tail, all accepted by the
  -- applicator, returns the tail and leaves the machine that these entries, applied in order from
  -- the machine of before, make; the cursor is then the tail. One round more than there are entries
  -- is enough fuel. (The lock is not poisoned, and the tail fits in a word.)
  pub handle_sync-replay :
      (es : List Entry) (fuel : ℕ) (tail : LogPos) (s : BaseEngine L A) (rv : ReturnValue)
      (m : Machine log applicator)
      → length es < fuel
      → s.local_store.poisoned ≡ false
      → log.check_tail s.loglet ≡ ok tail
      → s.cursor + length es ≡ tail
      → tail < 2 ^ 64
      → Holds log applicator s.loglet s.cursor es
      → replay log applicator es s.cursor success (machine_of log applicator s) ≡ some (rv, m)
      → handle_sync log applicator fuel s ≡ some (ok tail, with_machine log applicator s m tail)
  unfolding handle_sync
  handle_sync-replay es fuel tail s rv m lt fine checked to b holds run =
      rw checked (sync_loop-replay es fuel tail s success rv m lt fine to b holds run)
