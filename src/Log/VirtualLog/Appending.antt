-- ===== src/Log/VirtualLog/Appending.antt =====
-- `append` on the virtual log: the loop ends, and the entry is read where it was appended.
use relos.Prelude.{
  ℕ, suc, ◌+◌, ◌-◌, ◌<◌, ◌≤◌, ◌^◌, ◌≡◌, refl, sym, ◌∙◌, ap, true, false, Option, none, some, arith,
  Bool-cases, inl, inr,
}
use relos.Prelude.Bytes.{Text}
use relos.Core.{LogPos, log_pos_begin, Entry, Result, ok, pure, ◌>>=◌}
use relos.Log.Loglet.{Loglet, LogletLaws}
use relos.Log.Chain.Extension.{last_start, start-le-last_start}
use relos.Log.VirtualLog.{VirtualLog, read, reconfigure, append_round, append}
use relos.Log.VirtualLog.Backing.{Backed-EndToEnd}
use relos.Log.VirtualLog.Rounds.{append_round_open, append_round_sealed}
use relos.Log.VirtualLog.Reconfiguration.{reconfigure_lem}
use relos.Log.VirtualLog.Consistency.{
  IsConsistent, IsNew, active, global_tail, with_active, active_bound, with_active-IsConsistent,
  active-with_active,
}
use relos.Log.VirtualLog.Stability.{read_active, read-with_active}

module _ {L : Type 0} {ops : Loglet L} (laws : LogletLaws ops) (factory : Text → Result L) where
  open laws use {Valid, tail, horizon, is_sealed}

  -- What an append has done: the entry stands at the old tail, the tail has moved by one, and
  -- nothing below has changed.
  pub record Appended (e : Entry) (v : VirtualLog L) (c : IsConsistent laws factory v)
      (v' : VirtualLog L) : Type 0 where
    pub consistent : IsConsistent laws factory v'
    pub tail_moved : global_tail laws factory v' consistent ≡ global_tail laws factory v c + 1
    pub stored : read ops factory (global_tail laws factory v c) v' ≡ ok (some e)
    pub kept :
        (q : LogPos)
        → 1 ≤ q
        → q < global_tail laws factory v c
        → read ops factory q v' ≡ read ops factory q v

  append_open :
      (v : VirtualLog L) (c : IsConsistent laws factory v) (e : Entry)
      → is_sealed (active laws factory v c).loglet ≡ false
      → global_tail laws factory v c + 2 < 2 ^ 64
      → Appended e v c
          (with_active laws factory v (ops.append e (active laws factory v c).loglet).1)
  unfolding global_tail
  append_open v c e o b =
      let a = active laws factory v c in
      let l = (ops.append e a.loglet).1 in
      let start = last_start v.chain.segments in
      let pos = laws.tail_pos a.loglet a.backs.valid in
      let from = start_pos v c in
      let room : tail a.loglet + 1 < 2 ^ 64 = omega arith in
      let moved = laws.append-tail a.loglet e a.backs.valid o room in
      let c' =
        with_active-IsConsistent laws factory v c l
          (laws.append-Valid a.loglet e a.backs.valid o room) (omega (arith, moved))
          (omega (arith, moved, laws.append-horizon a.loglet e a.backs.valid o room, a.readable)) in
      let is : (active laws factory (with_active laws factory v l) c').loglet ≡ l =
        active-with_active laws factory v c l c' in
      let at : start + tail a.loglet - 1 - start + 1 ≡ tail a.loglet = omega arith in
      record {
        consistent = c';
        tail_moved = rw is (omega (arith, moved, pos));
        stored =
            read_active laws factory (with_active laws factory v l) c' (start + tail a.loglet - 1)
              (omega arith) (omega arith)
            ∙ rw (is, at) (laws.read-append_self a.loglet e a.backs.valid o room a.readable);
        kept =
            read-with_active laws factory v c l c' is
              (λ i lt. laws.read-append_below a.loglet e i a.backs.valid room lt);
      }
    where
      start_pos :
          (v : VirtualLog L) (c : IsConsistent laws factory v) → 1 ≤ last_start v.chain.segments
      start_pos v c =
          start-le-last_start log_pos_begin v.chain.segments
            (Backed-EndToEnd laws log_pos_begin v.chain.segments v.loglets c.backed)

  round_returns :
      (fuel : ℕ) (e : Entry) (v v' : VirtualLog L) (p : LogPos)
      → append_round ops factory e v ≡ (ok (some p), v')
      → append ops factory (suc fuel) e v ≡ some (ok p, v')
  unfolding append
  round_returns fuel e v v' p h = rw h

  round_again :
      (fuel : ℕ) (e : Entry) (v v' : VirtualLog L)
      → append_round ops factory e v ≡ (ok none, v')
      → append ops factory (suc fuel) e v ≡ append ops factory fuel e v'
  unfolding append
  round_again fuel e v v' h = rw h

  append_once :
      (v : VirtualLog L) (c : IsConsistent laws factory v) (e : Entry) (fuel : ℕ)
      → is_sealed (active laws factory v c).loglet ≡ false
      → global_tail laws factory v c + 2 < 2 ^ 64
      → (v' : VirtualLog L) × (append ops factory (suc fuel) e v
          ≡ some (ok (global_tail laws factory v c), v'))
        × Appended e v c v'
  append_once v c e fuel o b =
      let v' = with_active laws factory v (ops.append e (active laws factory v c).loglet).1 in
      (
        v',
        round_returns fuel e v v' (global_tail laws factory v c)
            (append_round_open laws factory v c e o (room v c b)),
        append_open v c e o b,
      )
    where
      room :
          (v : VirtualLog L) (c : IsConsistent laws factory v)
          → global_tail laws factory v c + 2 < 2 ^ 64
          → tail (active laws factory v c).loglet + 1 < 2 ^ 64
      room v c b = unfold global_tail in omega arith

  -- A sealed active loglet costs one round: the next state is consistent, its active loglet is
  -- open, and its contents and tail are those of before.
  record Ready (v : VirtualLog L) (c : IsConsistent laws factory v) (v' : VirtualLog L)
      : Type 0 where
    consistent : IsConsistent laws factory v'
    opened : is_sealed (active laws factory v' consistent).loglet ≡ false
    same_tail : global_tail laws factory v' consistent ≡ global_tail laws factory v c
    kept :
        (q : LogPos)
        → 1 ≤ q
        → q < global_tail laws factory v c
        → read ops factory q v' ≡ read ops factory q v

  round_sealed :
      ((id : Text) → (l : L) × (factory id ≡ ok l) × IsNew laws factory l)
      → (v : VirtualLog L) (c : IsConsistent laws factory v) (e : Entry)
      → is_sealed (active laws factory v c).loglet ≡ true
      → global_tail laws factory v c + 2 < 2 ^ 64
      → (v' : VirtualLog L) × (append_round ops factory e v ≡ (ok none, v')) × Ready v c v'
  unfolding global_tail
  round_sealed fresh v c e s b =
      let l = (active laws factory v c).loglet in
      let v₁ = with_active laws factory v l in
      let c₁ =
        with_active-IsConsistent laws factory v c l (active laws factory v c).backs.valid
          (active_bound laws factory v c) (active laws factory v c).readable in
      let is : (active laws factory v₁ c₁).loglet ≡ l = active-with_active laws factory v c l c₁ in
      let (v', eq, r) = reconfigure_lem laws factory fresh v₁ c₁ (rw is (omega arith)) in
      (
        v',
        append_round_sealed laws factory v c e s ∙ after_reconfigure v₁ v' eq,
        record {
          consistent = r.consistent;
          opened = r.opened;
          same_tail = omega (arith, r.start, r.empty, ap tail is);
          kept = λ q pos below.
              r.kept q pos (rw is below)
              ∙ read-with_active laws factory v c l c₁ is (λ i lt. refl) q pos below;
        },
      )
    where
      after_reconfigure :
          (v₁ v' : VirtualLog L)
          → reconfigure ops factory v₁ ≡ (ok tt, v')
          → (reconfigure ops factory >>= λ _. pure {A = Option LogPos} none) v₁ ≡ (ok none, v')
      after_reconfigure v₁ v' eq = rw eq

  -- Two rounds of the loop are enough: from a consistent state, whether or not the active loglet
  -- is sealed, `append` returns the position at the tail; the entry is then read there, the tail
  -- has moved by one, every read below is as it was, and the state is consistent again. The
  -- factory is to return empty open loglets, and the positions to fit in a word.
  pub append_total :
      ((id : Text) → (l : L) × (factory id ≡ ok l) × IsNew laws factory l)
      → (v : VirtualLog L) (c : IsConsistent laws factory v) (e : Entry)
      → global_tail laws factory v c + 2 < 2 ^ 64
      → (v' : VirtualLog L) × (append ops factory 2 e v
          ≡ some (ok (global_tail laws factory v c), v'))
        × Appended e v c v'
  append_total fresh v c e b = elim (Bool-cases (is_sealed (active laws factory v c).loglet)) [
    | inr o ↦ append_once v c e 1 o b
    | inl s ↦
        let (v₁, again, r) = round_sealed fresh v c e s b in
        let (v', eq, a) = append_once v₁ r.consistent e 0 r.opened (rw r.same_tail b) in
        (
          v',
          round_again 1 e v v₁ again ∙ eq ∙ ap (λ (p : LogPos). some (ok p, v')) r.same_tail,
          record {
            consistent = a.consistent;
            tail_moved = a.tail_moved ∙ ap (λ (p : LogPos). p + 1) r.same_tail;
            stored = ap (λ (p : LogPos). read ops factory p v') (sym r.same_tail) ∙ a.stored;
            kept = λ q pos below. a.kept q pos (omega (arith, r.same_tail)) ∙ r.kept q pos below;
          },
        )
  ]
