-- ===== src/Engine/Base/Failure.antt =====
-- An entry that the applicator refuses stops the engine for good: its position is tried again by
-- every later request.
use relos.Prelude.{◌+◌, ◌<◌, ◌^◌, ◌≡◌, ◌∙◌, false, some, arith}
use relos.Core.{Entry, RelosError, Result, ok, err}
use relos.Log.Loglet.{Loglet, LogletLaws}
use relos.Store.Memory.{MemoryWriteTx}
use relos.Engine.Interface.{ReturnValue, Applicator}
use relos.Engine.Base.{BaseEngine, ApplyRequest, propose, sync, Reply, proposed, synced}

module _ {L A : Type 0} (log : Loglet L) (applicator : Applicator A) where
  -- The transaction in which an entry is applied, and what the applicator says to it.
  abbrev pub verdict : Entry → BaseEngine L A → Result ReturnValue × (MemoryWriteTx × A)
  verdict e s =
      applicator.apply e s.cursor
        (record { working = s.local_store.contents; committed = false }, s.app)

  -- The reply to a request that ends with an error.
  abbrev pub refusal : RelosError → ApplyRequest → Reply
  refusal x (propose entry) = proposed (err x)
  refusal x sync = synced (err x)

  module _ (laws : LogletLaws log) where
    open laws use {Valid, tail, is_sealed}

    -- The log holds an entry at the cursor that the applicator refuses.
    pub record Stuck (e : Entry) (x : RelosError) (s : BaseEngine L A) : Type 0 where
      pub fine : s.local_store.poisoned ≡ false
      pub valid : Valid s.loglet
      pub opened : is_sealed s.loglet ≡ false
      pub pending : s.cursor < tail s.loglet
      pub found : log.read s.cursor s.loglet ≡ ok (some e)
      pub no_result : (verdict e s).0 ≡ err x
      pub same : (verdict e s).1.1 ≡ s.app

    -- What a request that is refused may change: only the log.
    pub record Unmoved (s t : BaseEngine L A) : Type 0 where
      pub cursor : t.cursor ≡ s.cursor
      pub local_store : t.local_store ≡ s.local_store
      pub app : t.app ≡ s.app

    after_append :
        (e entry : Entry) (x : RelosError) (s : BaseEngine L A)
        → Stuck e x s
        → tail s.loglet + 1 < 2 ^ 64
        → Stuck e x (record s { loglet = (log.append entry s.loglet).1 })
    after_append e entry x s k b = record {
      fine = k.fine;
      valid = laws.append-Valid s.loglet entry k.valid k.opened b;
      opened = laws.append-is_sealed s.loglet entry k.valid k.opened b;
      pending = omega (arith, laws.append-tail s.loglet entry k.valid k.opened b, k.pending);
      found = laws.read-append_below s.loglet entry s.cursor k.valid b k.pending ∙ k.found;
      no_result = k.no_result;
      same = k.same;
    }
