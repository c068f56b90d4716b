-- ===== src/Log/VirtualLog/Reconfiguration.antt =====
-- `reconfigure`: a new segment at the old tail, and nothing lost.
use relos.Prelude.{◌+◌, ◌<◌, ◌≤◌, ◌^◌, ◌≡◌, ◌∙◌, false, arith, length}
use relos.Prelude.Bytes.{Text}
use relos.Core.{LogPos, Result, ok}
use relos.Log.Loglet.{Loglet, LogletLaws}
use relos.Log.Chain.{extend, open_segment}
use relos.Log.Chain.Extension.{last_start}
use relos.Log.VirtualLog.{VirtualLog, generate_loglet_id, read, reconfigure}
use relos.Log.VirtualLog.Rounds.{reconfigure-eq}
use relos.Log.VirtualLog.Consistency.{
  IsConsistent, IsNew, active, global_tail, with_active, active_bound, with_active-IsConsistent,
  length-seal_last, active-with_active, installed, installed-IsConsistent,
}
use relos.Log.VirtualLog.Stability.{
  last_start-seal_last, read-with_active, read-installed, active-installed,
}

module _ {L : Type 0} {ops : Loglet L} (laws : LogletLaws ops) (factory : Text → Result L) where
  open laws use {Valid, tail, horizon, is_sealed}

  -- A seal of the active loglet keeps the log consistent and its contents as they were.
  pub sealed_state :
      (v : VirtualLog L) (c : IsConsistent laws factory v)
      → IsConsistent laws factory
          (with_active laws factory v (ops.seal (active laws factory v c).loglet).1)
  sealed_state v c =
      let a = active laws factory v c in
      with_active-IsConsistent laws factory v c (ops.seal a.loglet).1
        (laws.seal-Valid a.loglet a.backs.valid)
        (omega (arith, laws.seal-tail a.loglet a.backs.valid, active_bound laws factory v c))
        (omega (
          arith,
          laws.seal-tail a.loglet a.backs.valid,
          laws.seal-horizon a.loglet a.backs.valid,
          a.readable,
        ))

  -- The state after `reconfigure`: its last segment begins at the old tail, backed by a new loglet.
  pub record Reconfigured (v : VirtualLog L) (c : IsConsistent laws factory v) (v' : VirtualLog L)
      : Type 0 where
    pub consistent : IsConsistent laws factory v'
    pub opened : is_sealed (active laws factory v' consistent).loglet ≡ false
    pub empty : tail (active laws factory v' consistent).loglet ≡ 1
    pub start : last_start v'.chain.segments ≡ global_tail laws factory v c
    pub one_more : length v'.chain.segments ≡ length v.chain.segments + 1
    pub kept :
        (q : LogPos)
        → 1 ≤ q
        → q < global_tail laws factory v c
        → read ops factory q v' ≡ read ops factory q v

  installed-Reconfigured :
      (v : VirtualLog L) (c : IsConsistent laws factory v) (l : L)
      → IsNew laws factory l
      → global_tail laws factory v c + 1 < 2 ^ 64
      → Reconfigured v c (
          installed laws factory
            (with_active laws factory v (ops.seal (active laws factory v c).loglet).1)
            (global_tail laws factory v c)
            l)
  unfolding global_tail extend
  installed-Reconfigured v c l n b =
      let a = active laws factory v c in
      let l₁ = (ops.seal a.loglet).1 in
      let v₁ = with_active laws factory v l₁ in
      let c₁ = sealed_state v c in
      let p = global_tail laws factory v c in
      let is : (active laws factory v₁ c₁).loglet ≡ l₁ =
        active-with_active laws factory v c l₁ c₁ in
      let pos = laws.tail_pos a.loglet a.backs.valid in
      let c₂ : IsConsistent laws factory (installed laws factory v₁ p l) =
        installed-IsConsistent laws factory v₁ p l c₁
          (rw is (laws.seal-is_sealed a.loglet a.backs.valid))
          (rw is (omega (arith, laws.seal-tail a.loglet a.backs.valid, pos))) n b in
      let is₂ = active-installed laws factory v₁ p l c₂ in
      record {
        consistent = c₂;
        opened = rw is₂ n.opened;
        empty = rw is₂ n.empty;
        start = last_start-seal_last p (generate_loglet_id v.chain) v.chain.segments;
        one_more =
            length-seal_last p (open_segment p (generate_loglet_id v.chain)) v.chain.segments
            ∙ omega arith;
        kept = λ q from below.
            read-installed laws factory v₁ c₁ p l q (omega (arith, pos)) below
            ∙ read-with_active laws factory v c l₁ c₁ is
                (λ i lt. laws.read-seal a.loglet i a.backs.valid) q from below;
      }

  -- From a consistent state `reconfigure` succeeds: it seals the active loglet, opens a new segment
  -- exactly at the tail, backed by an empty open loglet, stores the new chain, and changes no read
  -- below the tail.
  pub reconfigure_lem :
      ((id : Text) → (l : L) × (factory id ≡ ok l) × IsNew laws factory l)
      → (v : VirtualLog L) (c : IsConsistent laws factory v)
      → global_tail laws factory v c + 1 < 2 ^ 64
      → (v' : VirtualLog L) × (reconfigure ops factory v ≡ (ok tt, v')) × Reconfigured v c v'
  reconfigure_lem fresh v c b =
      let (l, made, n) = fresh (generate_loglet_id v.chain) in
      (
        installed laws factory
            (with_active laws factory v (ops.seal (active laws factory v c).loglet).1)
            (global_tail laws factory v c) l,
        reconfigure-eq laws factory v c l made (sealed_state v c),
        installed-Reconfigured v c l n b,
      )
