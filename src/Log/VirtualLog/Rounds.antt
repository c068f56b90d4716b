-- ===== src/Log/VirtualLog/Rounds.antt =====
-- One round of `append`, `reconfigure` and `check_tail` on a consistent virtual log, as equations.
use relos.Prelude.{◌+◌, ◌<◌, ◌^◌, ◌≡◌, true, false, none, some}
use relos.Prelude.Bytes.{Text}
use relos.Core.{Entry, Result, ok, pure, ◌>>=◌}
use relos.Log.Loglet.{Loglet, LogletLaws}
use relos.Log.Chain.Extension.{last_start}
use relos.Log.VirtualLog.{
  VirtualLog, local_to_global, generate_loglet_id, check_tail, reconfigure, append_round,
}
use relos.Log.VirtualLog.Reading.{local_to_global-eq}
use relos.Log.VirtualLog.Consistency.{
  IsConsistent, active, global_tail, get_active_loglet-eq, with_active, active_bound, installed,
  install-eq,
}

module _ {L : Type 0} {ops : Loglet L} (laws : LogletLaws ops) (factory : Text → Result L) where
  open laws use {Valid, tail, horizon, is_sealed}

  pub local_to_global_tail :
      (v : VirtualLog L) (c : IsConsistent laws factory v)
      → local_to_global (last_start v.chain.segments) (tail (active laws factory v c).loglet)
        ≡ global_tail laws factory v c
  unfolding global_tail
  local_to_global_tail v c =
      local_to_global-eq (last_start v.chain.segments) (tail (active laws factory v c).loglet)
        (laws.tail_pos (active laws factory v c).loglet (active laws factory v c).backs.valid)
        (active_bound laws factory v c)

  pub check_tail-eq :
      (v : VirtualLog L) (c : IsConsistent laws factory v)
      → check_tail ops factory v ≡ ok (global_tail laws factory v c)
  unfolding check_tail
  check_tail-eq v c =
      let a = active laws factory v c in
      rw (get_active_loglet-eq laws factory v c)
        (rw (laws.check_tail_lem a.loglet a.backs.valid) (rw (local_to_global_tail v c)))

  pub append_round_open :
      (v : VirtualLog L) (c : IsConsistent laws factory v) (e : Entry)
      → is_sealed (active laws factory v c).loglet ≡ false
      → tail (active laws factory v c).loglet + 1 < 2 ^ 64
      → append_round ops factory e v ≡ (
        ok (some (global_tail laws factory v c)),
        with_active laws factory v (ops.append e (active laws factory v c).loglet).1,
      )
  unfolding append_round
  append_round_open v c e o b =
      let a = active laws factory v c in
      rw (get_active_loglet-eq laws factory v c)
        (rw (laws.append_pos a.loglet e a.backs.valid o b) (rw (local_to_global_tail v c)))

  pub reconfigure-eq :
      (v : VirtualLog L) (c : IsConsistent laws factory v) (l : L)
      → factory (generate_loglet_id v.chain) ≡ ok l
      → IsConsistent laws factory
          (with_active laws factory v (ops.seal (active laws factory v c).loglet).1)
      → reconfigure ops factory v ≡ (
        ok tt,
        installed laws factory
            (with_active laws factory v (ops.seal (active laws factory v c).loglet).1)
            (global_tail laws factory v c)
            l,
      )
  unfolding reconfigure
  reconfigure-eq v c l made c' =
      let a = active laws factory v c in
      rw (get_active_loglet-eq laws factory v c) (
        rw (laws.seal_pos a.loglet a.backs.valid) (
          rw (local_to_global_tail v c) (
            install-eq laws factory (with_active laws factory v (ops.seal a.loglet).1)
              (global_tail laws factory v c) l c' made)))

  pub append_round_sealed :
      (v : VirtualLog L) (c : IsConsistent laws factory v) (e : Entry)
      → is_sealed (active laws factory v c).loglet ≡ true
      → append_round ops factory e v
        ≡ (reconfigure ops factory >>= λ _. pure none)
            (with_active laws factory v (active laws factory v c).loglet)
  unfolding append_round
  append_round_sealed v c e s =
      let a = active laws factory v c in
      rw (get_active_loglet-eq laws factory v c)
        (rw (laws.append_sealed a.loglet e a.backs.valid s))
