-- ===== src/Engine/Base/Front.antt =====
-- `impl Engine for BaseEngine` in crates/relos-engine/src/base_engine.rs: what a caller sees of the
-- apply loop's task. A panic ends the task; the reply that it owes is then dropped, and nothing
-- can be sent to it any more.
use relos.Prelude.{ℕ, ◌≡◌, refl, Option, none, some}
use relos.Prelude.Bytes.{Text, text}
use relos.Core.{LogPos, Entry, RelosError, Result, ok, err, panic, internal}
use relos.Log.Loglet.{Loglet}
use relos.Engine.Interface.{ReturnValue, Applicator}
use relos.Engine.Base.{BaseEngine, handle_propose, handle_sync}

-- `apply_tx` and the task behind it
pub data ApplyTask (L A : Type 0) : Type 0 where
  running : BaseEngine L A → ApplyTask L A
  ended : ApplyTask L A

pub shut_down : RelosError
shut_down = internal (text "apply loop has shut down")

pub dropped_channel : RelosError
dropped_channel = internal (text "apply loop dropped result channel")

-- What the caller receives of an outcome, and the task after it
abbrev pub awaited : {L A R : Type 0} → Result R × BaseEngine L A → Result R × ApplyTask L A
awaited (ok r, s) = (ok r, running s)
awaited (err e, s) = (err e, running s)
awaited (panic m, s) = (err dropped_channel, ended)

abbrev pub mapped : {X Y : Type 0} → (X → Y) → Option X → Option Y
mapped f none = none
mapped f (some x) = some (f x)

module _ {L A : Type 0} (log : Loglet L) (applicator : Applicator A) where
  -- With the fuel of the loop; `none` means that the caller is still waiting.
  unfoldable pub propose : ℕ → Entry → ApplyTask L A → Option (Result ReturnValue × ApplyTask L A)
  propose fuel entry ended = some (err shut_down, ended)
  propose fuel entry (running s) = mapped awaited (handle_propose log applicator fuel entry s)

  unfoldable pub sync : ℕ → ApplyTask L A → Option (Result LogPos × ApplyTask L A)
  sync fuel ended = some (err shut_down, ended)
  sync fuel (running s) = mapped awaited (handle_sync log applicator fuel s)

  -- A call returns what its request did, or it ends with an error and so does the task.
  abbrev pub Outcome :
      {R : Type 0} → Option (Result R × BaseEngine L A) → Option (Result R × ApplyTask L A) → Type 0
  Outcome handled none = handled ≡ none
  Outcome handled (some (r, running s)) = handled ≡ some (r, s)
  Outcome handled (some (r, ended)) =
      (r ≡ err dropped_channel)
      × ((m : Text) × (s : BaseEngine L A) × (handled ≡ some (panic m, s)))

  awaited-Outcome :
      {R : Type 0} (handled : Option (Result R × BaseEngine L A))
      → Outcome handled (mapped awaited handled)
  awaited-Outcome none = refl
  awaited-Outcome (some (ok r, s)) = refl
  awaited-Outcome (some (err e, s)) = refl
  awaited-Outcome (some (panic m, s)) = (refl, (m, s, refl))

  -- What a caller of the engine receives is what its request was answered, and the task goes on
  -- from the state that this left; only if the handling of the request panicked does the caller
  -- receive the error of a dropped channel instead, and from then on every call, a proposal or a
  -- sync, is refused since the loop has shut down.
  pub calls_answered :
      (fuel : ℕ) (entry : Entry) (s : BaseEngine L A)
      → Outcome (handle_propose log applicator fuel entry s) (propose fuel entry (running s))
        × Outcome (handle_sync log applicator fuel s) (sync fuel (running s))
        × (propose fuel entry ended ≡ some (err shut_down, ended))
        × (sync fuel ended ≡ some (err shut_down, ended))
  unfolding propose sync
  calls_answered fuel entry s = (
    awaited-Outcome (handle_propose log applicator fuel entry s),
    awaited-Outcome (handle_sync log applicator fuel s),
    refl,
    refl,
  )
