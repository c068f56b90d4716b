-- ===== src/Engine/Base/Replication.antt =====
-- Several engines over one log, as one system: each has its own store, and they share the log.
-- Their requests, their restarts and what other clients do to the log come in any order.
pub mod Following
pub mod Invariant
pub mod Safety
pub mod Freshness
pub mod Events
pub mod Progress
pub mod OverVirtualLog
use relos.Prelude.{ℕ, zero, ◌≡◌, ◌<◌, ◌^◌, refl, ap, Option, none, some, [], ◌==◌, if◌then◌else◌}
use relos.Prelude.Words.{add64}
use relos.Core.{LogPos, log_pos_begin, Entry, Result, ok}
use relos.Log.Loglet.{Loglet}
use relos.Store.Memory.{MemoryStore}
use relos.Store.Memory
use relos.Engine.Interface.{ReturnValue, Applicator}
use relos.Engine.Base.{BaseEngine, ApplyRequest, Reply, handle, new}
use relos.Engine.Base.Invariants.{requested}
use relos.Engine.Base.Playback.{Machine, accept}

module _ {L : Type 0} (log : Loglet L) (applicator : Applicator (Unit {0})) where
  -- What is read from the one log is read from the other.
  abbrev pub Keeps : L → L → Type 0
  Keeps l l' =
      (p : LogPos) (e : Entry)
      → p < 2 ^ 64
      → log.read p l ≡ ok (some e)
      → log.read p l' ≡ ok (some e)

  -- The machine that the log's entries lead to, played from its beginning to a cursor, without the
  -- engine: each was accepted by the applicator.
  pub data Played (l : L) : LogPos → Machine log applicator → Type 0 where
    begin :
        {c : LogPos} {m : Machine log applicator} → c ≡ log_pos_begin → m ≡ ([], tt) → Played l c m
    after :
        {c : LogPos} {m : Machine log applicator} (p : LogPos) (n : Machine log applicator)
        (e : Entry) (rv : ReturnValue)
        → Played l p n
        → log.read p l ≡ ok (some e)
        → accept log applicator e p n ≡ some (rv, m)
        → c ≡ add64 p 1
        → Played l c m

  pub record Replicas : Type 0 where
    pub shared : L
    pub engines : ℕ → BaseEngine L (Unit {0})

  -- An engine of the system, with the log as it is at that moment.
  abbrev pub engine : ℕ → Replicas → BaseEngine L (Unit {0})
  engine i s = record (s.engines i) { loglet = s.shared }

  abbrev pub with_engine : ℕ → BaseEngine L (Unit {0}) → Replicas → Replicas
  with_engine i u s = record { shared = u.loglet; engines = λ j. if i == j then u else s.engines j }

  pub data Turn (s t : Replicas) : Type 0 where
    handled :
        (i fuel : ℕ) (q : ApplyRequest) (x : Reply) (u : BaseEngine L (Unit {0}))
        → Keeps s.shared (requested log q s.shared)
        → handle log applicator fuel q (engine i s) ≡ some (x, u)
        → t ≡ with_engine i u s
        → Turn s t
    restarted :
        (i : ℕ) (u : BaseEngine L (Unit {0}))
        → new log applicator s.shared (s.engines i).local_store tt ≡ ok u
        → t ≡ with_engine i u s
        → Turn s t
    other_client : (l : L) → Keeps s.shared l → t ≡ record s { shared = l } → Turn s t

  -- Every engine starts on an empty store.
  abbrev pub fresh : L → Replicas
  fresh l = record {
    shared = l;
    engines =
        λ i. record { loglet = l; local_store = Memory.new; app = tt; cursor = log_pos_begin };
  }

  pub data Turns (s : Replicas) : Replicas → Type 0 where
    here : Turns s s
    next : {t u : Replicas} → Turns s t → Turn t u → Turns s u
