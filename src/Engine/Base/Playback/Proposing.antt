-- ===== src/Engine/Base/Playback/Proposing.antt =====
-- `handle_propose` against the specification.
use relos.Prelude.{
  ℕ, zero, suc, ◌+◌, ◌<◌, ◌≤◌, ◌^◌, ◌≡◌, refl, ap, ◌∙◌, true, false, some, List, [], ◌∷◌, arith,
  leb, ◌==◌, if◌then◌else◌, length, ap₂,
}
use relos.Prelude.Words.{add64-eq}
use relos.Core.{LogPos, Entry, ok}
use relos.Log.Loglet.{Loglet}
use relos.Engine.Interface.{ReturnValue, success, Applicator}
use relos.Engine.Base.{BaseEngine, apply_one, advance, propose_loop, handle_propose}
use relos.Engine.Base.Playback.{
  Machine, replay, machine_of, with_machine, Holds, apply_one-accept, replay-cons, replay-nil,
}

module _ {L A : Type 0} (log : Loglet L) (applicator : Applicator A) where
  propose_round :
      (fuel : ℕ) (target : LogPos) (rv₀ rv : ReturnValue) (s s' : BaseEngine L A)
      → s.cursor ≤ target
      → apply_one log applicator s.cursor s ≡ (ok rv, s')
      → propose_loop log applicator (suc fuel) target rv₀ s
        ≡ propose_loop log applicator fuel target
            (if s.cursor == target then rv else rv₀)
            (advance log applicator s')
  unfolding propose_loop
  propose_round fuel target rv₀ rv s s' le one =
      let go_on : leb s.cursor target ≡ true = ground arith in rw go_on (rw one)

  propose_done :
      (fuel : ℕ) (target : LogPos) (rv : ReturnValue) (s : BaseEngine L A)
      → target < s.cursor
      → propose_loop log applicator (suc fuel) target rv s ≡ some (ok rv, s)
  unfolding propose_loop
  propose_done fuel target rv s past = ground arith

  -- The last application is the one at the target, and its return value is the result.
  propose_loop-replay :
      (e : Entry) (es : List Entry) (fuel : ℕ) (target : LogPos) (s : BaseEngine L A)
      (rv₀ rv rv' : ReturnValue) (m : Machine log applicator)
      → length es + 1 < fuel
      → s.local_store.poisoned ≡ false
      → s.cursor + length es ≡ target
      → target + 1 < 2 ^ 64
      → Holds log applicator s.loglet s.cursor (e ∷ es)
      → replay log applicator (e ∷ es) s.cursor rv (machine_of log applicator s) ≡ some (rv', m)
      → propose_loop log applicator fuel target rv₀ s
        ≡ some (ok rv', with_machine log applicator s m (target + 1))
  propose_loop-replay e es zero target s rv₀ rv rv' m lt fine to b holds run = absurd (omega arith)
  propose_loop-replay e es (suc zero) target s rv₀ rv rv' m lt fine to b holds run =
      absurd (omega arith)
  propose_loop-replay e [] (suc (suc fuel)) target s rv₀ rv rv' m lt fine to b holds run =
      let (x, acc, rest) =
        replay-cons log applicator e [] s.cursor rv rv' (machine_of log applicator s) m run in
      let u = with_machine log applicator s x.1 (s.cursor + 1) in
      let last = replay-nil log applicator u (target + 1) x.0 rv' m refl (omega arith) rest in
      let at : (if s.cursor == target then x.0 else rv₀) ≡ x.0 = ground arith in
      propose_round (suc fuel) target rv₀ x.0 s (with_machine log applicator s x.1 s.cursor)
        (omega arith) (apply_one-accept log applicator s e x.0 x.1 fine holds.0 acc)
      ∙ ap
          (λ (c : LogPos).
            propose_loop log applicator (suc fuel) target (if s.cursor == target then x.0 else rv₀)
              (with_machine log applicator s x.1 c))
          (add64-eq s.cursor 1 (omega arith))
      ∙ propose_done fuel target (if s.cursor == target then x.0 else rv₀) u (omega arith)
      ∙ ap₂ (λ (r : ReturnValue) (w : BaseEngine L A). some (ok r, w)) (at ∙ last.0) last.1
  propose_loop-replay e (e' ∷ es) (suc (suc fuel)) target s rv₀ rv rv' m lt fine to b holds run =
      let (x, acc, rest) =
        replay-cons log applicator e (e' ∷ es) s.cursor rv rv' (machine_of log applicator s) m
          run in
      propose_round (suc fuel) target rv₀ x.0 s (with_machine log applicator s x.1 s.cursor)
        (omega arith) (apply_one-accept log applicator s e x.0 x.1 fine holds.0 acc)
      ∙ ap
          (λ (c : LogPos).
            propose_loop log applicator (suc fuel) target (if s.cursor == target then x.0 else rv₀)
              (with_machine log applicator s x.1 c))
          (add64-eq s.cursor 1 (omega arith))
      ∙ propose_loop-replay e' es (suc fuel) target
          (with_machine log applicator s x.1 (s.cursor + 1))
          (if s.cursor == target then x.0 else rv₀) x.0 rv' m (omega arith) refl (omega arith) b
          holds.1 rest

  -- A propose that was appended at `target`, in a log that then holds the entries from the cursor
  -- up to and with that position, all accepted by the applicator, returns what the applicator
  -- returned for the last of them, its own, and leaves the machine that these entries, applied in
  -- order, make; the cursor is then the next position. One round more than there are entries is
  -- enough fuel. (The lock is not poisoned, and the positions fit in a word.)
  pub handle_propose-replay :
      (entry e : Entry) (es : List Entry) (fuel : ℕ) (target : LogPos) (l : L) (s : BaseEngine L A)
      (rv : ReturnValue) (m : Machine log applicator)
      → length es + 1 < fuel
      → s.local_store.poisoned ≡ false
      → log.append entry s.loglet ≡ (ok target, l)
      → s.cursor + length es ≡ target
      → target + 1 < 2 ^ 64
      → Holds log applicator l s.cursor (e ∷ es)
      → replay log applicator (e ∷ es) s.cursor success (machine_of log applicator s) ≡ some (rv, m)
      → handle_propose log applicator fuel entry s
        ≡ some (ok rv, with_machine log applicator (record s { loglet = l }) m (target + 1))
  unfolding handle_propose
  handle_propose-replay entry e es fuel target l s rv m lt fine appended to b holds run =
      rw appended (
        propose_loop-replay e es fuel target (record s { loglet = l }) success success rv m lt fine
          to b holds run)
