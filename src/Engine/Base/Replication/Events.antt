-- ===== src/Engine/Base/Replication/Events.antt =====
-- Several engines over one virtual log: requests to the engines, restarts of them and
-- reconfigurations of the log, in the order in which they happen.
use relos.Prelude.{ℕ, Option, none, some, List, [], ◌∷◌}
use relos.Prelude.Bytes.{Text}
use relos.Core.{Result, ok, err, panic}
use relos.Log.Loglet.{Loglet}
use relos.Log.VirtualLog.{VirtualLog, reconfigure, virtual_loglet}
use relos.Engine.Interface.{Applicator}
use relos.Engine.Base.{BaseEngine, ApplyRequest, handle, Reply, new}
use relos.Engine.Base.Replication.{Replicas, engine, with_engine}

pub data Event : Type 0 where
  request : ℕ → ApplyRequest → Event
  restart : ℕ → Event
  reconfiguration : Event

module _ {L : Type 0} (ops : Loglet L) (factory : Text → Result L)
    (applicator : Applicator (Unit {0})) where
  abbrev pub System : Type 0
  System = Replicas (virtual_loglet ops factory) applicator

  abbrev pub after_request :
      ℕ → System → Option (Reply × BaseEngine (VirtualLog L) (Unit {0})) → Option System
  after_request i s none = none
  after_request i s (some (x, u)) = some (with_engine (virtual_loglet ops factory) applicator i u s)

  abbrev pub after_restart :
      ℕ → System → Result (BaseEngine (VirtualLog L) (Unit {0})) → Option System
  after_restart i s (ok u) = some (with_engine (virtual_loglet ops factory) applicator i u s)
  after_restart i s (err e) = none
  after_restart i s (panic m) = none

  -- None when the request is still being handled after so many rounds, or the engine does not start.
  unfoldable pub happen : ℕ → Event → System → Option System
  happen fuel (request i q) s = after_request i s (
      handle (virtual_loglet ops factory) applicator fuel q
        (engine (virtual_loglet ops factory) applicator i s))
  happen fuel (restart i) s =
      after_restart i s
        (new (virtual_loglet ops factory) applicator s.shared (s.engines i).local_store tt)
  happen fuel reconfiguration s = some (record s { shared = (reconfigure ops factory s.shared).1 })

  abbrev pub then_run : (System → Option System) → Option System → Option System
  then_run rest none = none
  then_run rest (some s) = rest s

  unfoldable pub run : ℕ → List Event → System → Option System
  run fuel [] s = some s
  run fuel (x ∷ xs) s = then_run (λ t. run fuel xs t) (happen fuel x s)
