-- ===== src/Engine/Base/Replication/Progress.antt =====
-- A virtual log and the engines over it, event by event.
use relos.Prelude.{
  ℕ, suc, ◌+◌, ◌<◌, ◌≤◌, ◌^◌, ◌≡◌, refl, ap, sym, ◌∙◌, subst, Option, none, some, List, [], ◌∷◌,
  length, arith,
}
use relos.Prelude.Bytes.{Text}
use relos.Core.{ok_inj, LogPos, Result, ok, err, panic}
use relos.Log.Loglet.{Loglet, LogletLaws}
use relos.Log.VirtualLog.{VirtualLog, read, reconfigure, returned, virtual_loglet}
use relos.Log.VirtualLog.Consistency.{IsConsistent, IsNew, active_bound, global_tail}
use relos.Log.VirtualLog.Rounds.{check_tail-eq}
use relos.Log.VirtualLog.Visibility.{shown-within}
use relos.Log.VirtualLog.Reconfiguration.{reconfigure_lem}
use relos.Log.VirtualLog.Appending.{append_total}
use relos.Engine.Interface.{Applicator}
use relos.Engine.Base.{BaseEngine, ApplyRequest, propose, sync, handle, Reply, new}
use relos.Engine.Base.Invariants.{requested}
use relos.Engine.Base.Replication.{
  Keeps, Replicas, engine, with_engine, Turn, handled, restarted, other_client, Turns, next,
}
use relos.Engine.Base.Replication.Following.{handle-IsFollower}
use relos.Engine.Base.Replication.Invariant.{AllFollow, new-same, IsFollower-Keeps, Turn-AllFollow}
use relos.Engine.Base.Replication.Safety.{Fits}
use relos.Engine.Base.Replication.Freshness.{ShownBelowTail}
use relos.Engine.Base.Replication.Events.{
  Event, request, restart, reconfiguration, after_request, after_restart, happen, then_run, run,
}

module _ {L : Type 0} {ops : Loglet L} (laws : LogletLaws ops) (factory : Text → Result L)
    (applicator : Applicator (Unit {0})) where
  abbrev log : Loglet (VirtualLog L)
  log = virtual_loglet ops factory

  -- The factory returns empty open loglets.
  abbrev pub MakesNew : Type 0
  MakesNew = (id : Text) → (l : L) × (factory id ≡ ok l) × IsNew laws factory l

  Keeps-kept :
      (v v' : VirtualLog L) (c : IsConsistent laws factory v)
      → ((q : LogPos)
          → 1 ≤ q
          → q < global_tail laws factory v c
          → read ops factory q v' ≡ read ops factory q v)
      → Keeps log applicator v v'
  Keeps-kept v v' c kept p e word shown =
      let (from, below) = shown-within laws factory v c p e word shown in kept p from below ∙ shown

  pub consistent-Fits : (v : VirtualLog L) → IsConsistent laws factory v → Fits log applicator v
  unfolding global_tail
  consistent-Fits v c p e word shown =
      let (from, below) = shown-within laws factory v c p e word shown in
      omega (arith, active_bound laws factory v c)

  pub consistent-ShownBelowTail :
      (v : VirtualLog L) → IsConsistent laws factory v → ShownBelowTail log applicator v
  consistent-ShownBelowTail v c p e tail word shown at =
      let (from, below) = shown-within laws factory v c p e word shown in
      let is : global_tail laws factory v c ≡ tail =
        ok_inj (sym (check_tail-eq laws factory v c) ∙ at) in
      omega arith

  -- What an event does to the log.
  record Advances (v : VirtualLog L) (c : IsConsistent laws factory v) (v' : VirtualLog L)
      : Type 0 where
    consistent : IsConsistent laws factory v'
    keeps : Keeps log applicator v v'
    tail_le : global_tail laws factory v' consistent ≤ global_tail laws factory v c + 1

  requested-Advances :
      MakesNew
      → (v : VirtualLog L) (c : IsConsistent laws factory v) (q : ApplyRequest)
      → global_tail laws factory v c + 2 < 2 ^ 64
      → Advances v c (requested log q v)
  requested-Advances makes v c (propose e) room =
      let (v', appended, a) = append_total laws factory makes v c e room in
      subst (λ (o : Result LogPos × VirtualLog L). Advances v c o.1)
        (sym (ap (λ o. returned ops factory v o) appended))
        (record {
          consistent = a.consistent;
          keeps = Keeps-kept v v' c a.kept;
          tail_le = omega (arith, a.tail_moved);
        })
  requested-Advances makes v c sync room = record {
    consistent = c;
    keeps = λ p e word shown. shown;
    tail_le = omega arith;
  }

  reconfigure-Advances :
      MakesNew
      → (v : VirtualLog L) (c : IsConsistent laws factory v)
      → global_tail laws factory v c + 2 < 2 ^ 64
      → Advances v c (reconfigure ops factory v).1
  unfolding global_tail
  reconfigure-Advances makes v c room =
      let (v', done, r) = reconfigure_lem laws factory makes v c (omega arith) in
      rw done (record {
        consistent = r.consistent;
        keeps = Keeps-kept v v' c r.kept;
        tail_le = omega (arith, r.start, r.empty);
      })

  the_system : {s t : Replicas log applicator} → some s ≡ some t → s ≡ t
  the_system e = cc

  -- An engine of the system changed, on the log that is now shared.
  with_engine-Advances :
      (i : ℕ) (l : VirtualLog L) (u : BaseEngine (VirtualLog L) (Unit {0}))
      (s t : Replicas log applicator) (c : IsConsistent laws factory s.shared)
      → u.loglet ≡ l
      → with_engine log applicator i u s ≡ t
      → Advances s.shared c l
      → Advances s.shared c t.shared
  with_engine-Advances i l u s t c at is adv =
      subst (λ (r : Replicas log applicator). Advances s.shared c r.shared) is
        (subst (λ (m : VirtualLog L). Advances s.shared c m) (sym at) adv)

  happen-Turn :
      MakesNew
      → (fuel : ℕ) (x : Event) (s t : Replicas log applicator)
        (c : IsConsistent laws factory s.shared)
      → global_tail laws factory s.shared c + 2 < 2 ^ 64
      → AllFollow log applicator s
      → happen ops factory applicator fuel x s ≡ some t
      → Turn log applicator s t × Advances s.shared c t.shared
  unfolding happen
  happen-Turn makes fuel (request i q) s t c room all ran =
      go (handle log applicator fuel q (engine log applicator i s)) refl ran
    where
      go :
          (o : Option (Reply × BaseEngine (VirtualLog L) (Unit {0})))
          → handle log applicator fuel q (engine log applicator i s) ≡ o
          → after_request ops factory applicator i s o ≡ some t
          → Turn log applicator s t × Advances s.shared c t.shared
      go none eq h = absurd (cc)
      go (some (x, u)) eq h =
          let l = requested log q s.shared in
          let adv = requested-Advances makes s.shared c q room in
          let f =
            handle-IsFollower log applicator l fuel q (engine log applicator i s) u x
              (IsFollower-Keeps log applicator s.shared l (s.engines i) adv.keeps (all i)) eq in
          (
            handled i fuel q x u adv.keeps eq (sym (the_system h)),
            with_engine-Advances i l u s t c f.on_log (the_system h) adv,
          )
  happen-Turn makes fuel (restart i) s t c room all ran =
      go (new log applicator s.shared (s.engines i).local_store tt) refl ran
    where
      go :
          (r : Result (BaseEngine (VirtualLog L) (Unit {0})))
          → new log applicator s.shared (s.engines i).local_store tt ≡ r
          → after_restart ops factory applicator i s r ≡ some t
          → Turn log applicator s t × Advances s.shared c t.shared
      go (ok u) eq h =
          let same = new-same log applicator s.shared (s.engines i) u (all i).cursor_stored eq in
          (
            restarted i u eq (sym (the_system h)),
            with_engine-Advances i s.shared u s t c
                (ap (λ (e : BaseEngine (VirtualLog L) (Unit {0})). e.loglet) (sym same))
                (the_system h) (requested-Advances makes s.shared c sync room),
          )
      go (err e) eq h = absurd (cc)
      go (panic m) eq h = absurd (cc)
  happen-Turn makes fuel reconfiguration s t c room all ran =
      let adv = reconfigure-Advances makes s.shared c room in
      (
        other_client (reconfigure ops factory s.shared).1 adv.keeps (sym (the_system ran)),
        subst (λ (r : Replicas log applicator). Advances s.shared c r.shared) (the_system ran) adv,
      )

  pub run-Ran :
      MakesNew
      → (fuel : ℕ) (xs : List Event) (first s t : Replicas log applicator)
        (c : IsConsistent laws factory s.shared)
      → global_tail laws factory s.shared c + 2 + length xs < 2 ^ 64
      → AllFollow log applicator s
      → Turns log applicator first s
      → run ops factory applicator fuel xs s ≡ some t
      → (c' : IsConsistent laws factory t.shared) × Turns log applicator first t
        × (global_tail laws factory t.shared c' ≤ global_tail laws factory s.shared c + length xs)
  unfolding run
  run-Ran makes fuel [] first s t c room all r ran =
      subst
        (λ (u : Replicas log applicator).
          (c' : IsConsistent laws factory u.shared) × Turns log applicator first u
          × (global_tail laws factory u.shared c' ≤ global_tail laws factory s.shared c + 0))
        (the_system ran) (c, r, omega arith)
  run-Ran makes fuel (x ∷ xs) first s t c room all r ran =
      go (happen ops factory applicator fuel x s) refl ran (λ u adv turn.
        run-Ran makes fuel xs first u t adv.consistent (omega (arith, adv.tail_le))
          (Turn-AllFollow log applicator turn all) (next r turn))
    where
      go :
          (o : Option (Replicas log applicator))
          → happen ops factory applicator fuel x s ≡ o
          → then_run ops factory applicator (λ u. run ops factory applicator fuel xs u) o ≡ some t
          → ((u : Replicas log applicator) (adv : Advances s.shared c u.shared)
              → Turn log applicator s u
              → run ops factory applicator fuel xs u ≡ some t
              → (c' : IsConsistent laws factory t.shared) × Turns log applicator first t
                × (global_tail laws factory t.shared c'
                    ≤ global_tail laws factory u.shared adv.consistent + length xs))
          → (c' : IsConsistent laws factory t.shared) × Turns log applicator first t
            × (global_tail laws factory t.shared c'
                ≤ global_tail laws factory s.shared c + suc (length xs))
      go none eq h rest = absurd (cc)
      go (some u) eq h rest =
          let (turn, adv) = happen-Turn makes fuel x s u c (omega (arith, room)) all eq in
          let (c', turns, le) = rest u adv turn h in (c', turns, omega (arith, le, adv.tail_le))
