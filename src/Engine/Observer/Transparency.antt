-- ===== src/Engine/Observer/Transparency.antt =====
-- The calls of an observed engine and of an observed applicator against those of what is below.
use relos.Prelude.{ℕ, suc, ◌+◌, ◌≡◌, refl, ap, ◌∙◌, List, [], ◌∷◌, arith, length}
use relos.Core.{Entry, LogPos, Result}
use relos.Store.Memory.{MemoryWriteTx}
use relos.Engine.Interface.{ReturnValue, Engine, Applicator}
use relos.Engine.Observer.{
  MetricsReporter, Observed, propose, sync, observer_engine, apply, observer_applicator,
}

-- The calls of a client of an engine, and their answers.
pub data Call : Type 0 where
  proposing : Entry → Call
  syncing : Call

pub data Answer : Type 0 where
  proposed : Result ReturnValue → Answer
  synced : Result LogPos → Answer

unfoldable pub call : {S : Type 0} → Engine S → Call → S → Answer × S
call engine (proposing e) s = let (r, s') = engine.propose e s in (proposed r, s')
call engine syncing s = let (r, s') = engine.sync s in (synced r, s')

unfoldable pub calls : {S : Type 0} → Engine S → List Call → S → List Answer × S
calls engine [] s = ([], s)
calls engine (q ∷ qs) s =
    let (r, s') = call engine q s in let (rs, s'') = calls engine qs s' in (r ∷ rs, s'')

-- The entries that an applicator is given, from a position on, one after the other.
unfoldable pub applies :
    {A : Type 0}
    → Applicator A
    → List Entry
    → LogPos
    → MemoryWriteTx × A
    → List (Result ReturnValue) × (MemoryWriteTx × A)
applies applicator [] pos s = ([], s)
applies applicator (e ∷ es) pos s =
    let (r, s') = applicator.apply e pos s in
    let (rs, s'') = applies applicator es (pos + 1) s' in (r ∷ rs, s'')

module _ {C M : Type 0} (now : C → ℕ × C) (metrics : MetricsReporter M) where
  -- Whatever calls are made of an observed engine, the answers are those of the engine alone, in
  -- order, and what is below is left as the engine alone leaves it. A reporter that counts one for
  -- each latency of a proposal or of a sync has counted as many as there were calls.
  pub calls-observer_engine :
      {S : Type 0} (inner : Engine S) (count : M → ℕ)
      → ((d : ℕ) (m : M) → count (metrics.record_propose_latency d m) ≡ suc (count m))
      → ((d : ℕ) (m : M) → count (metrics.record_sync_latency d m) ≡ suc (count m))
      → (qs : List Call) (s : Observed S C M)
      → ((calls (observer_engine now metrics inner) qs s).0 ≡ (calls inner qs s.below).0)
        × ((calls (observer_engine now metrics inner) qs s).1.below ≡ (calls inner qs s.below).1)
        × (count (calls (observer_engine now metrics inner) qs s).1.metrics
            ≡ count s.metrics + length qs)
  unfolding calls call propose sync
  calls-observer_engine inner count p y [] s = (refl, refl, omega arith)
  calls-observer_engine inner count p y (proposing e ∷ qs) s =
      let rest = calls-observer_engine inner count p y qs (propose now metrics inner e s).1 in
      (
        ap (λ rs. proposed (inner.propose e s.below).0 ∷ rs) rest.0,
        rest.1,
        rest.2 ∙ omega (arith, p _ s.metrics),
      )
  calls-observer_engine inner count p y (syncing ∷ qs) s =
      let rest = calls-observer_engine inner count p y qs (sync now metrics inner s).1 in
      (
        ap (λ rs. synced (inner.sync s.below).0 ∷ rs) rest.0,
        rest.1,
        rest.2 ∙ omega (arith, y _ s.metrics),
      )

  -- Whatever entries an observed applicator is given, its results are those of the applicator
  -- alone, and so are the writes in the transaction and what the applicator keeps. A reporter that
  -- counts one for each latency of an application has counted as many as there were entries.
  pub applies-observer_applicator :
      {A : Type 0} (inner : Applicator A) (count : M → ℕ)
      → ((d : ℕ) (m : M) → count (metrics.record_apply_latency d m) ≡ suc (count m))
      → (es : List Entry) (pos : LogPos) (txn : MemoryWriteTx) (s : Observed A C M)
      → let seen = applies (observer_applicator now metrics inner) es pos (txn, s) in
        let alone = applies inner es pos (txn, s.below) in
        (seen.0 ≡ alone.0)
        × (seen.1.0 ≡ alone.1.0)
        × (seen.1.1.below ≡ alone.1.1)
        × (count seen.1.1.metrics ≡ count s.metrics + length es)
  unfolding applies apply
  applies-observer_applicator inner count a [] pos txn s = (refl, refl, refl, omega arith)
  applies-observer_applicator inner count a (e ∷ es) pos txn s =
      let next = (apply now metrics inner e pos (txn, s)).1 in
      let rest = applies-observer_applicator inner count a es (pos + 1) next.0 next.1 in
      (
        ap (λ rs. (inner.apply e pos (txn, s.below)).0 ∷ rs) rest.0,
        rest.1,
        rest.2,
        rest.3 ∙ omega (arith, a _ s.metrics),
      )
