-- ===== src/Engine/Base/OnVirtualLog.antt =====
-- The engine over the virtual log, whatever loglets that is made of.
use relos.Prelude.{◌+◌, ◌<◌, ◌^◌, ◌≡◌, ap, sym, ◌∙◌, false, some, [], arith}
use relos.Prelude.Bytes.{Text}
use relos.Core.{LogPos, Entry, Result, ok}
use relos.Log.Loglet.{Loglet, LogletLaws}
use relos.Log.VirtualLog.{VirtualLog, returned, virtual_loglet}
use relos.Log.VirtualLog.Consistency.{IsConsistent, IsNew, global_tail}
use relos.Log.VirtualLog.Appending.{Appended, append_total}
use relos.Engine.Interface.{ReturnValue, success, Applicator}
use relos.Engine.Base.{BaseEngine, handle_propose}
use relos.Engine.Base.Playback.{Machine, accept, replay-one, machine_of, with_machine}
use relos.Engine.Base.Playback.Proposing.{handle_propose-replay}

module _ {L A : Type 0} {ops : Loglet L} (laws : LogletLaws ops) (factory : Text → Result L)
    (applicator : Applicator A) where
  -- An engine that has applied all of a virtual log, proposing an entry that its applicator
  -- accepts, returns what the applicator returned for it, and its machine is the applicator's, at
  -- the next position. The entry is then in the log, also where the active loglet was sealed and
  -- the log had to be reconfigured first, and all that the log held before is as it was. (The
  -- factory returns empty open loglets, the store's lock is not poisoned, and the positions fit in a
  -- word.)
  pub propose_on_virtual_log :
      ((id : Text) → (l : L) × (factory id ≡ ok l) × IsNew laws factory l)
      → (s : BaseEngine (VirtualLog L) A) (c : IsConsistent laws factory s.loglet) (e : Entry)
        (rv : ReturnValue) (m : Machine (virtual_loglet ops factory) applicator)
      → global_tail laws factory s.loglet c + 2 < 2 ^ 64
      → s.cursor ≡ global_tail laws factory s.loglet c
      → s.local_store.poisoned ≡ false
      → accept
          (virtual_loglet ops factory)
          applicator
          e
          s.cursor
          (machine_of (virtual_loglet ops factory) applicator s)
        ≡ some (rv, m)
      → (v : VirtualLog L) × (handle_propose (virtual_loglet ops factory) applicator 2 e s
          ≡ some (
            ok rv,
            with_machine
                (virtual_loglet ops factory)
                applicator
                (record s { loglet = v })
                m
                (s.cursor + 1),
          ))
        × Appended laws factory e s.loglet c v
  propose_on_virtual_log fresh s c e rv m room at fine acc =
      let (v, appended, a) = append_total laws factory fresh s.loglet c e room in
      (
        v,
        handle_propose-replay (virtual_loglet ops factory) applicator e e [] 2 s.cursor v s rv m
            (omega arith) fine
            (ap (λ o. returned ops factory s.loglet o) appended
              ∙ ap (λ (p : LogPos). (ok p, v)) (sym at))
            (omega arith) (omega (arith, at)) (rw at a.stored, tt)
            (replay-one (virtual_loglet ops factory) applicator e s.cursor success rv _ m acc),
        a,
      )
