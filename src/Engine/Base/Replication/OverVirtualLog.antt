-- ===== src/Engine/Base/Replication/OverVirtualLog.antt =====
-- Several engines over one virtual log, from empty stores.
use relos.Prelude.{ℕ, ◌+◌, ◌<◌, ◌≤◌, ◌^◌, ◌≡◌, some, List, length, arith}
use relos.Prelude.Bytes.{Text}
use relos.Core.{LogPos, Result, ok}
use relos.Log.Loglet.{Loglet, LogletLaws}
use relos.Log.VirtualLog.{VirtualLog, virtual_loglet}
use relos.Log.VirtualLog.Consistency.{IsConsistent, global_tail}
use relos.Engine.Interface.{Applicator}
use relos.Engine.Base.{BaseEngine, sync, handle, synced}
use relos.Engine.Base.Playback.{machine_of}
use relos.Engine.Base.Replication.{Played, Replicas, engine, fresh, here}
use relos.Engine.Base.Replication.Invariant.{Turns-AllFollow}
use relos.Engine.Base.Replication.Safety.{replicas_agree}
use relos.Engine.Base.Replication.Freshness.{Onward, sync_catches_up}
use relos.Engine.Base.Replication.Events.{Event, run}
use relos.Engine.Base.Replication.Progress.{
  MakesNew, consistent-Fits, consistent-ShownBelowTail, run-Ran,
}

module _ {L : Type 0} {ops : Loglet L} (laws : LogletLaws ops) (factory : Text → Result L)
    (applicator : Applicator (Unit {0})) where
  abbrev log : Loglet (VirtualLog L)
  log = virtual_loglet ops factory

  -- Engines that start on empty stores over one virtual log agree, whatever requests they are sent,
  -- whichever of them are restarted and however often the log is reconfigured, in any order: two
  -- engines at one cursor have the same contents in their stores, and these are what the log's
  -- entries, played from its beginning, lead to. (The log starts in a consistent state, its
  -- factory returns empty open loglets, the positions fit in a word, every request is answered and
  -- every restart succeeds, and the applicator keeps no state of its own.)
  pub replicas_agree_over_virtual_log :
      MakesNew laws factory applicator
      → (v : VirtualLog L) (c : IsConsistent laws factory v) (fuel : ℕ) (xs : List Event)
        (s : Replicas log applicator) (i j : ℕ)
      → global_tail laws factory v c + 2 + length xs < 2 ^ 64
      → run ops factory applicator fuel xs (fresh log applicator v) ≡ some s
      → (s.engines i).cursor ≡ (s.engines j).cursor
      → ((s.engines i).local_store.contents ≡ (s.engines j).local_store.contents)
        × Played log applicator s.shared
            (s.engines i).cursor
            (machine_of log applicator (s.engines i))
  replicas_agree_over_virtual_log makes v c fuel xs s i j room ran same =
      let start = fresh log applicator v in
      let (c', turns, le) =
        run-Ran laws factory applicator makes fuel xs start start s c room
          (Turns-AllFollow log applicator v here) here ran in
      replicas_agree log applicator v s i j turns
        (consistent-Fits laws factory applicator s.shared c') same

  -- Over one virtual log a read after a sync is linearizable: after any requests, restarts and
  -- reconfigurations, a sync that returns on any engine leaves it at least as far as any engine had
  -- been at any moment before the sync began, with the machine that the log's entries lead to from
  -- the machine of that engine at that moment. (The log starts in a consistent state, its factory
  -- returns empty open loglets, the positions fit in a word, every request is answered and every
  -- restart succeeds, and the applicator keeps no state of its own.)
  pub sync_catches_up_over_virtual_log :
      MakesNew laws factory applicator
      → (v : VirtualLog L) (c : IsConsistent laws factory v) (fuel : ℕ) (xs ys : List Event)
        (s t : Replicas log applicator) (i j : ℕ) (tail : LogPos)
        (u : BaseEngine (VirtualLog L) (Unit {0}))
      → global_tail laws factory v c + 2 + length xs + length ys < 2 ^ 64
      → run ops factory applicator fuel xs (fresh log applicator v) ≡ some s
      → run ops factory applicator fuel ys s ≡ some t
      → handle log applicator fuel sync (engine log applicator j t) ≡ some (synced (ok tail), u)
      → ((s.engines i).cursor ≤ u.cursor)
        × Onward log applicator t.shared
            (s.engines i).cursor
            (machine_of log applicator (s.engines i))
            u.cursor
            (machine_of log applicator u)
  sync_catches_up_over_virtual_log makes v c fuel xs ys s t i j tail u room ran more synced_u =
      let start = fresh log applicator v in
      let (c', turns, le) =
        run-Ran laws factory applicator makes fuel xs start start s c (omega (arith, room))
          (Turns-AllFollow log applicator v here) here ran in
      let (c'', turns', le') =
        run-Ran laws factory applicator makes fuel ys s s t c' (omega (arith, room, le))
          (Turns-AllFollow log applicator v turns) here more in
      sync_catches_up log applicator v s t i j fuel tail u turns turns'
        (consistent-Fits laws factory applicator t.shared c'')
        (consistent-ShownBelowTail laws factory applicator t.shared c'') synced_u
