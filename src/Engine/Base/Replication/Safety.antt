-- ===== src/Engine/Base/Replication/Safety.antt =====
-- State machine replication: the machines of two engines over one log.
use relos.Prelude.{ℕ, ◌+◌, ◌<◌, ◌≤◌, ◌^◌, ◌≡◌, ap, sym, ◌∙◌, Option, some, arith}
use relos.Prelude.Words.{add64, add64-eq}
use relos.Core.{LogPos, Entry, Result, ok}
use relos.Log.Loglet.{Loglet}
use relos.Engine.Interface.{ReturnValue, Applicator}
use relos.Engine.Base.Playback.{Machine, machine_of}
use relos.Engine.Base.Replication.{Played, begin, after, Replicas, fresh, Turns}
use relos.Engine.Base.Replication.Invariant.{Turns-AllFollow, Played-word}

module _ {L : Type 0} (log : Loglet L) (applicator : Applicator (Unit {0})) where
  -- No entry stands at the last position of a `u64`.
  abbrev pub Fits : L → Type 0
  Fits l = (p : LogPos) (e : Entry) → p < 2 ^ 64 → log.read p l ≡ ok (some e) → p + 1 < 2 ^ 64

  pub next_cursor :
      (l : L) (c p : LogPos) (e : Entry)
      → Fits l
      → (n : Machine log applicator) → Played log applicator l p n
      → log.read p l ≡ ok (some e)
      → c ≡ add64 p 1
      → c ≡ p + 1
  next_cursor l c p e fits n played found at =
      at ∙ add64-eq p 1 (fits p e (Played-word log applicator l p n played) found)

  pub Played-pos :
      (l : L) (c : LogPos) (m : Machine log applicator)
      → Fits l
      → Played log applicator l c m
      → 1 ≤ c
  Played-pos l c m fits (begin at is) = omega (arith, at)
  Played-pos l c m fits (after p n e rv played found acc at) =
      omega (arith, next_cursor l c p e fits n played found at)

  same_entry : {r : Result (Option Entry)} {e x : Entry} → r ≡ ok (some e) → r ≡ ok (some x) → e ≡ x
  same_entry h k = cc

  same_machine :
      {o : Option (ReturnValue × Machine log applicator)} {rv rv' : ReturnValue}
      {m m' : Machine log applicator}
      → o ≡ some (rv, m)
      → o ≡ some (rv', m')
      → m ≡ m'
  same_machine h k = cc

  pub Played-unique :
      (l : L) (c c' : LogPos) (m m' : Machine log applicator)
      → Fits l
      → Played log applicator l c m
      → Played log applicator l c' m'
      → c ≡ c'
      → m ≡ m'
  Played-unique l c c' m m' fits (begin at is) (begin at' is') same = is ∙ sym is'
  Played-unique l c c' m m' fits (begin at is) (after p n e rv played found acc at') same =
      let from = Played-pos l p n fits played in
      absurd (omega (arith, at, same, from, next_cursor l c' p e fits n played found at'))
  Played-unique l c c' m m' fits (after p n e rv played found acc at) (begin at' is') same =
      let from = Played-pos l p n fits played in
      absurd (omega (arith, at', same, from, next_cursor l c p e fits n played found at))
  Played-unique l c c' m m' fits (after p n e rv played found acc at)
        (after p' n' e' rv' played' found' acc' at') same =
      let p_same : p ≡ p' = omega (
        arith,
        same,
        next_cursor l c p e fits n played found at,
        next_cursor l c' p' e' fits n' played' found' at',
      ) in
      let n_same = Played-unique l p p' n n' fits played played' p_same in
      let e_same = same_entry (rw p_same at found) found' in
      same_machine (rw (p_same, n_same, e_same) at acc) acc'

  -- Engines that start on empty stores and share one log agree: after any requests to any of them,
  -- failed ones too, any restarts on the stores they left, and any changes of the log by others, two
  -- engines at one cursor have the same contents in their stores, and these are what the log's
  -- entries, played from its beginning, lead to. (What the log has shown at a position it shows
  -- there after every append and every change by others, no entry stands at the last position of a
  -- word, and the applicator keeps no state of its own.)
  pub replicas_agree :
      (l : L) (s : Replicas log applicator) (i j : ℕ)
      → Turns log applicator (fresh log applicator l) s
      → Fits s.shared
      → (s.engines i).cursor ≡ (s.engines j).cursor
      → ((s.engines i).local_store.contents ≡ (s.engines j).local_store.contents)
        × Played log applicator s.shared
            (s.engines i).cursor
            (machine_of log applicator (s.engines i))
  replicas_agree l s i j r fits same =
      let f = (Turns-AllFollow log applicator l r i).follows in
      let g = (Turns-AllFollow log applicator l r j).follows in
      (
        ap (λ (m : Machine log applicator). m.0)
            (Played-unique s.shared (s.engines i).cursor (s.engines j).cursor
              (machine_of log applicator (s.engines i)) (machine_of log applicator (s.engines j))
              fits f g same),
        f,
      )
