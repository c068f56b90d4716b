-- ===== src/Engine/ViewTracking.antt =====
-- crates/relos-engine/src/view_tracking.rs. The view map is shared by the engine and the
-- applicator: it is part of the applicator's state, and the engine is given a way to read it.
pub mod Trimming
use relos.Prelude.{
  ℕ, ◌≤◌, ◌<◌, ◌≡◌, ◌≢◌, refl, ap, Bool, true, false, Option, none, some, List, [], ◌∷◌, arith, min,
  ◌==◌, leb, Bool-cases, inl, inr, if◌then◌else◌,
}
use relos.Prelude.Bytes.{Bytes, Text, text}
use relos.Core.{
  Entry, LogPos, ServerId, Result, ok, err, and_then, Codec, Coded, coded, failed, RoundTrips,
  or_serialization_error, with_header, get_header, get_header-with_header, Exec, lift, pure,
  continue, ◌>>=◌, ◌>>◌,
}
use relos.Store.Memory.{MemoryWriteTx}
use relos.Engine.Interface.{ReturnValue, Engine, Applicator}

-- `VIEW_TRACKING_HEADER`
pub view_tracking_header : Text
view_tracking_header = text "view_tracking"

pub record ViewTrackingMetadata : Type 0 where
  pub server_id : ServerId
  pub cursor : LogPos

-- The `HashMap<ServerId, LogPos>` behind its lock, and whether another task holds the lock.
pub record Views : Type 0 where
  pub positions : List (ServerId × LogPos)
  pub locked : Bool

abbrev pub new : Views
new = record { positions = []; locked = false }

unfoldable pub view_of : ServerId → List (ServerId × LogPos) → Option LogPos
view_of i [] = none
view_of i ((j, p) ∷ m) = if j == i then some p else view_of i m

unfoldable pub set_view : ServerId → LogPos → List (ServerId × LogPos) → List (ServerId × LogPos)
set_view i p [] = (i, p) ∷ []
set_view i p ((j, q) ∷ m) =
    let rest = (j, q) ∷ set_view i p m in if j == i then (i, p) ∷ m else rest

-- `views.values().copied().min()`
unfoldable pub least : List (ServerId × LogPos) → Option LogPos
least [] = none
least ((i, p) ∷ m) = some (elim (least m) [ none ↦ p | some q ↦ if leb p q then p else q ])

unfoldable pub trim_prefix : Views → Option LogPos
trim_prefix v = least v.positions

-- `.unwrap_or(0)`
abbrev pub cursor_or_zero : Option LogPos → LogPos
cursor_or_zero none = 0
cursor_or_zero (some p) = p

module _ (c : Codec ViewTrackingMetadata) where
  -- `ViewTrackingEngine::propose`
  unfoldable pub propose :
      {S : Type 0} → Engine S → ServerId → (S → Views) → Entry → Exec S ReturnValue
  propose inner server_id views entry s =
      let cursor = cursor_or_zero (view_of server_id (views s).positions) in
      (lift (
            or_serialization_error
              (c.serialize (record { server_id = server_id; cursor = cursor })))
          >>= λ header. inner.propose (with_header entry view_tracking_header header))
        s

  -- `impl Engine for ViewTrackingEngine`
  abbrev pub view_tracking_engine : {S : Type 0} → Engine S → ServerId → (S → Views) → Engine S
  view_tracking_engine inner server_id views = record {
    propose = propose inner server_id views;
    sync = inner.sync;
  }

  -- `views.try_write()`: on a held lock the view is skipped
  unfoldable pub record_view : ViewTrackingMetadata → LogPos → Views → Views
  record_view metadata pos v =
      if v.locked then v else record v { positions = set_view metadata.server_id pos v.positions }

  -- The `if let` on the header
  abbrev pub tracked : Option Bytes → LogPos → Views → Result Views
  tracked none pos v = ok v
  tracked (some header) pos v =
      and_then (or_serialization_error (c.deserialize header))
        λ metadata. ok (record_view metadata pos v)

  -- `ViewTrackingApplicator::apply`, over the view map and the state of the inner applicator
  unfoldable pub apply :
      {A : Type 0} → Applicator A → Entry → LogPos → Exec (MemoryWriteTx × (Views × A)) ReturnValue
  apply inner entry pos s =
      continue (tracked (get_header entry view_tracking_header) pos s.1.0)
        (λ views s₁.
          let (r, st) = inner.apply entry pos (s₁.0, s₁.1.1) in (r, (st.0, (views, st.1))))
        s

  -- `impl Applicator for ViewTrackingApplicator`
  abbrev pub view_tracking_applicator : {A : Type 0} → Applicator A → Applicator (Views × A)
  view_tracking_applicator inner = record { apply = apply inner }
