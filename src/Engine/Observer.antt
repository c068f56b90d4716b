-- ===== src/Engine/Observer.antt =====
-- crates/relos-engine/src/observer.rs: the layer that measures how long each call takes. The clock
-- is outside the program, and so is a reporter's own state.
pub mod Transparency
use relos.Prelude.{ℕ, ◌-◌, ◌≡◌}
use relos.Core.{Entry, LogPos, Result, Exec}
use relos.Store.Memory.{MemoryWriteTx}
use relos.Engine.Interface.{ReturnValue, Engine, Applicator}

-- `MetricsReporter`, over what the reporter keeps; a duration is a number of ticks of the clock
pub record MetricsReporter (M : Type 0) : Type 0 where
  pub record_propose_latency : ℕ → M → M
  pub record_sync_latency : ℕ → M → M
  pub record_apply_latency : ℕ → M → M

-- What the layer adds to the state below it: the clock and the reporter's state.
pub record Observed (S C M : Type 0) : Type 0 where
  pub below : S
  pub clock : C
  pub metrics : M

-- `ObserverEngine` and `ObserverApplicator`: `now` is `Instant::now`, which also moves the clock on
module _ {C M : Type 0} (now : C → ℕ × C) (metrics : MetricsReporter M) where
  -- A call between two readings of the clock, and the record of their distance
  abbrev pub timed : {S A : Type 0} → (ℕ → M → M) → Exec S A → Exec (Observed S C M) A
  timed report call s =
      let (start, c) = now s.clock in
      let (result, below) = call s.below in
      let (stop, c') = now c in
      (result, record { below = below; clock = c'; metrics = report (stop - start) s.metrics })

  unfoldable pub propose : {S : Type 0} → Engine S → Entry → Exec (Observed S C M) ReturnValue
  propose inner entry = timed metrics.record_propose_latency (inner.propose entry)

  unfoldable pub sync : {S : Type 0} → Engine S → Exec (Observed S C M) LogPos
  sync inner = timed metrics.record_sync_latency inner.sync

  -- `ObserverEngine`
  abbrev pub observer_engine : {S : Type 0} → Engine S → Engine (Observed S C M)
  observer_engine inner = record { propose = propose inner; sync = sync inner }

  -- The transaction is shared with the applicator below; the clock and the metrics are the layer's.
  unfoldable pub apply :
      {A : Type 0}
      → Applicator A
      → Entry
      → LogPos
      → Exec (MemoryWriteTx × Observed A C M) ReturnValue
  apply inner entry pos (txn, s) =
      let (start, c) = now s.clock in
      let (result, (txn', below)) = inner.apply entry pos (txn, s.below) in
      let (stop, c') = now c in
      (
        result,
        (
          txn',
          record {
            below = below;
            clock = c';
            metrics = metrics.record_apply_latency (stop - start) s.metrics;
          },
        ),
      )

  -- `ObserverEngine::applicator`
  abbrev pub observer_applicator : {A : Type 0} → Applicator A → Applicator (Observed A C M)
  observer_applicator inner = record { apply = apply inner }
