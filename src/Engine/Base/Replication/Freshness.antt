-- ===== src/Engine/Base/Replication/Freshness.antt =====
-- A sync on one engine, against what the others had applied before it.
use relos.Prelude.{
  ℕ, zero, suc, ◌<◌, ◌≤◌, ◌^◌, ◌≡◌, refl, ap, subst, sym, Option, none, some, arith, ltb, ◌==◌,
  Bool-cases, inl, inr,
}
use relos.Prelude.Words.{add64}
use relos.Core.{LogPos, Entry, Result, ok, err, panic}
use relos.Log.Loglet.{Loglet}
use relos.Engine.Interface.{ReturnValue, Applicator}
use relos.Engine.Base.{
  BaseEngine, apply_one, advance, Run, loop_on, when_ok, sync_loop, handle_sync, sync, handle,
  Reply, synced, replied,
}
use relos.Engine.Base.Playback.{Machine, accept, machine_of}
use relos.Engine.Base.Replication.{Played, begin, after, Replicas, engine, fresh, Turns}
use relos.Engine.Base.Replication.Following.{handle-IsFollower}
use relos.Engine.Base.Replication.Invariant.{
  Turns-AllFollow, Turns-Keeps, Played-Keeps, Played-word,
}
use relos.Engine.Base.Replication.Safety.{Fits, Played-pos, Played-unique, next_cursor}

module _ {L : Type 0} (log : Loglet L) (applicator : Applicator (Unit {0})) where
  -- Played on from one machine at a cursor, the log's entries lead to another at a later cursor.
  pub data Onward (l : L) (c : LogPos) (m : Machine log applicator)
      : LogPos → Machine log applicator → Type 0 where
    there : {c' : LogPos} {m' : Machine log applicator} → c' ≡ c → m' ≡ m → Onward l c m c' m'
    further :
        {c' : LogPos} {m' : Machine log applicator} (p : LogPos) (n : Machine log applicator)
        (e : Entry) (rv : ReturnValue)
        → Onward l c m p n
        → log.read p l ≡ ok (some e)
        → accept log applicator e p n ≡ some (rv, m')
        → c' ≡ add64 p 1
        → Onward l c m c' m'

  -- Every entry that the log shows is below the tail that it reports.
  abbrev pub ShownBelowTail : L → Type 0
  ShownBelowTail l =
      (p : LogPos) (e : Entry) (tail : LogPos)
      → p < 2 ^ 64
      → log.read p l ≡ ok (some e)
      → log.check_tail l ≡ ok tail
      → p < tail

  Played-Onward :
      (l : L) (c c' : LogPos) (m m' : Machine log applicator)
      → Fits log applicator l
      → Played log applicator l c m
      → Played log applicator l c' m'
      → c ≤ c'
      → Onward l c m c' m'
  Played-Onward l c c' m m' fits first (begin at is) le =
      let from = Played-pos log applicator l c m fits first in
      let same : c ≡ c' = omega (arith, at, from, le) in
      there (sym same)
        (sym (Played-unique log applicator l c c' m m' fits first (begin at is) same))
  Played-Onward l c c' m m' fits first (after p n e rv played found acc at) le =
      elim (Bool-cases (c == c')) [
        | inl same ↦
            let eq : c ≡ c' = ground (arith, same) in
            there (sym eq) (
              sym (
                Played-unique log applicator l c c' m m' fits first
                  (after p n e rv played found acc at) eq))
        | inr other ↦
            further p n e rv
              (Played-Onward l c p m n fits first played (
                ground
                  (arith, other, le, next_cursor log applicator l c' p e fits n played found at)))
              found acc at
      ]

  Played-below_tail :
      (l : L) (c tail d : LogPos) (m : Machine log applicator)
      → Fits log applicator l
      → ShownBelowTail l
      → log.check_tail l ≡ ok tail
      → Played log applicator l c m
      → tail ≤ d
      → 1 ≤ d
      → c ≤ d
  Played-below_tail l c tail d m fits below at (begin is _) le pos = omega (arith, is)
  Played-below_tail l c tail d m fits below at (after p n e rv played found acc is) le pos =
      let word = Played-word log applicator l p n played in
      omega (
        arith,
        next_cursor log applicator l c p e fits n played found is,
        below p e tail word found at,
      )

  ended :
      (tail y : LogPos) (s t : BaseEngine L (Unit {0}))
      → tail ≤ s.cursor
      → ◌≡◌ {A = Run log applicator LogPos} (some (ok tail, s)) (some (ok y, t))
      → (tail ≤ t.cursor) × (tail ≡ y)
  ended tail y s t le e =
      let at : s ≡ t = cc in (subst (λ (u : BaseEngine L (Unit {0})). tail ≤ u.cursor) at le, cc)

  -- The loop ends with a tail only when the cursor has reached it.
  sync_loop-reaches :
      (fuel : ℕ) (tail y : LogPos) (s t : BaseEngine L (Unit {0}))
      → sync_loop log applicator fuel tail s ≡ some (ok y, t)
      → (tail ≤ t.cursor) × (tail ≡ y)
  unfolding sync_loop
  sync_loop-reaches zero tail y s t e = absurd (cc)
  sync_loop-reaches (suc fuel) tail y s t e = elim (Bool-cases (ltb s.cursor tail)) [
    | inl more ↦
        go (apply_one log applicator s.cursor s).0 (apply_one log applicator s.cursor s).1
          (λ rv u. sync_loop-reaches fuel tail y u t) (rw more at e)
    | inr done ↦ ended tail y s t (ground (arith, done)) (rw done at e)
  ]
    where
      go :
          (r : Result ReturnValue) (s' : BaseEngine L (Unit {0}))
          → ((rv : ReturnValue) (u : BaseEngine L (Unit {0}))
              → sync_loop log applicator fuel tail u ≡ some (ok y, t)
              → (tail ≤ t.cursor) × (tail ≡ y))
          → loop_on log applicator r s' (λ rv u. sync_loop log applicator fuel tail u)
            ≡ some (ok y, t)
          → (tail ≤ t.cursor) × (tail ≡ y)
      go (ok rv) s' step h = step rv (advance log applicator s') h
      go (err x) s' step h = absurd (cc)
      go (panic x) s' step h = absurd (cc)

  handle_sync-reaches :
      (fuel : ℕ) (y : LogPos) (s t : BaseEngine L (Unit {0}))
      → handle_sync log applicator fuel s ≡ some (ok y, t)
      → (log.check_tail s.loglet ≡ ok y) × (y ≤ t.cursor)
  unfolding handle_sync
  handle_sync-reaches fuel y s t e = go (log.check_tail s.loglet) refl e
    where
      go :
          (r : Result LogPos)
          → log.check_tail s.loglet ≡ r
          → when_ok log applicator r s (λ tail s₁. sync_loop log applicator fuel tail s₁)
            ≡ some (ok y, t)
          → (log.check_tail s.loglet ≡ ok y) × (y ≤ t.cursor)
      go (ok tail) eq h =
          let r = sync_loop-reaches fuel tail y s t h in (rw eq (ap ok r.1), rw (← r.1) r.0)
      go (err x) eq h = absurd (cc)
      go (panic x) eq h = absurd (cc)

  synced-reply :
      (o : Run log applicator LogPos) (y : LogPos) (t : BaseEngine L (Unit {0}))
      → ◌≡◌ {A = Option (Reply × BaseEngine L (Unit {0}))}
          (replied log applicator synced o)
          (some (synced (ok y), t))
      → o ≡ some (ok y, t)
  synced-reply none y t e = absurd (cc)
  synced-reply (some r) y t e = cc

  handle-reaches :
      (fuel : ℕ) (y : LogPos) (s t : BaseEngine L (Unit {0}))
      → handle log applicator fuel sync s ≡ some (synced (ok y), t)
      → (log.check_tail s.loglet ≡ ok y) × (y ≤ t.cursor)
  unfolding handle
  handle-reaches fuel y s t e =
      handle_sync-reaches fuel y s t (synced-reply (handle_sync log applicator fuel s) y t e)

  -- A read after a sync is linearizable: whatever any engine had applied before the sync began is
  -- in the machine that the sync leaves, whichever engine it runs on and whatever happened in
  -- between. The engine that synced is at least as far as that other engine was, and its machine is
  -- what the log's entries lead to, played on from the machine of the other. (What the log has
  -- shown at a position it shows there after every append and every change by others, it shows no
  -- entry at the last position of a word or at or above the tail that it reports, and the
  -- applicator keeps no state of its own.)
  pub sync_catches_up :
      (l : L) (s t : Replicas log applicator) (i j fuel : ℕ) (tail : LogPos)
      (u : BaseEngine L (Unit {0}))
      → Turns log applicator (fresh log applicator l) s
      → Turns log applicator s t
      → Fits log applicator t.shared
      → ShownBelowTail t.shared
      → handle log applicator fuel sync (engine log applicator j t) ≡ some (synced (ok tail), u)
      → ((s.engines i).cursor ≤ u.cursor)
        × Onward t.shared
            (s.engines i).cursor
            (machine_of log applicator (s.engines i))
            u.cursor
            (machine_of log applicator u)
  sync_catches_up l s t i j fuel tail u r r' fits below ran =
      let all = Turns-AllFollow log applicator l r in
      let (all', kept) = Turns-Keeps log applicator all r' in
      let was =
        Played-Keeps log applicator s.shared t.shared (s.engines i).cursor
          (machine_of log applicator (s.engines i)) kept (all i).follows in
      let after_sync =
        handle-IsFollower log applicator t.shared fuel sync (engine log applicator j t) u
          (synced (ok tail)) (all' j) ran in
      let now : Played log applicator t.shared u.cursor (machine_of log applicator u) =
        subst (λ (m : L). Played log applicator m u.cursor (machine_of log applicator u))
          after_sync.on_log after_sync.follows in
      let (at, reached) = handle-reaches fuel tail (engine log applicator j t) u ran in
      let ahead =
        Played-below_tail t.shared (s.engines i).cursor tail u.cursor
          (machine_of log applicator (s.engines i)) fits below at was reached
          (Played-pos log applicator t.shared u.cursor (machine_of log applicator u) fits now) in
      (
        ahead,
        Played-Onward t.shared (s.engines i).cursor u.cursor
            (machine_of log applicator (s.engines i)) (machine_of log applicator u) fits was now
            ahead,
      )
