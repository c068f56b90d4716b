-- ===== src/Tests/Replication.antt =====
-- Two engines over one memory loglet, at an applicator that writes each payload under its own key.
use relos.Prelude.{
  ◌≡◌, ◌≤◌, refl, false, Option, none, some, [], ◌∷◌, arith, leb, ltb, Bool-cases, inl, inr,
}
use relos.Prelude.Words.{add64}
use relos.Core.{ok, ok_inj}
use relos.Log.MemoryLoglet
use relos.Log.MemoryLoglet.{MemoryLoglet, memory_loglet, tail_of}
use relos.Store.Map
use relos.Engine.Interface.{ReturnValue, success, output, Applicator}
use relos.Engine.Base.{BaseEngine, sync, handle, synced}
use relos.Engine.Base.Playback.{Machine, with_machine, machine_of, accept, replay}
use relos.Engine.Base.Playback.Syncing.{handle_sync-replay}
use relos.Engine.Base.Replication.{
  Played, Replicas, engine, with_engine, handled, Turns, fresh, here, next,
}
use relos.Engine.Base.Replication.Safety.{Fits, replicas_agree}
use relos.Engine.Base.Replication.Freshness.{Onward, ShownBelowTail, sync_catches_up}
use relos.Tests.Engine.{entry, log_of_two}

abbrev pub keep_payload : Applicator (Unit {0})
keep_payload = record {
  apply = λ e v s. (
    ok (output e.payload),
    (record { working = Map.insert e.payload e.payload s.0.working; committed = false }, s.1),
  );
}

abbrev start : Replicas memory_loglet keep_payload
start = fresh memory_loglet keep_payload log_of_two

abbrev machine_after :
    Option (ReturnValue × Machine memory_loglet keep_payload) → Machine memory_loglet keep_payload
machine_after none = ([], tt)
machine_after (some (rv, m)) = m

abbrev after_two : Machine memory_loglet keep_payload
after_two =
    machine_after (replay memory_loglet keep_payload (entry 10 ∷ entry 20 ∷ []) 1 success ([], tt))

abbrev synced_engine : BaseEngine MemoryLoglet (Unit {0})
synced_engine =
    with_machine memory_loglet keep_payload (engine memory_loglet keep_payload 0 start) after_two 3

synced_0 :
    handle memory_loglet keep_payload 3 sync (engine memory_loglet keep_payload 0 start)
    ≡ some (synced (ok 3), synced_engine)
unfolding handle add64 MemoryLoglet.check_tail MemoryLoglet.read replay accept
synced_0 =
    rw
      (handle_sync-replay memory_loglet keep_payload (entry 10 ∷ entry 20 ∷ []) 3 3
        (engine memory_loglet keep_payload 0 start) (output (20 ∷ [])) after_two (omega arith) refl
        refl refl (omega arith) (refl, (refl, tt)) refl)
      refl

abbrev both_synced : Replicas memory_loglet keep_payload
both_synced =
    with_engine memory_loglet keep_payload 1 synced_engine
      (with_engine memory_loglet keep_payload 0 synced_engine start)

both_synced-Turns : Turns memory_loglet keep_payload start both_synced
both_synced-Turns =
    next (next here (handled 0 3 sync (synced (ok 3)) synced_engine (λ p e b h. h) synced_0 refl))
      (handled 1 3 sync (synced (ok 3)) synced_engine (λ p e b h. h) synced_0 refl)

log_of_two-Fits : Fits memory_loglet keep_payload log_of_two
unfolding MemoryLoglet.read add64
log_of_two-Fits p e b h = elim (Bool-cases (leb 3 p)) [
  | inr inside ↦ ground arith
  | inl beyond ↦
      let untrimmed : ltb p 1 ≡ false = ground (arith, beyond) in
      let nothing : ok none ≡ ok (some e) = simp (untrimmed, beyond) at h in absurd (cc)
]

replicas_agree_example :
    ((both_synced.engines 0).local_store.contents ≡ (both_synced.engines 1).local_store.contents)
    × Played memory_loglet keep_payload log_of_two 3
        (machine_of memory_loglet keep_payload (both_synced.engines 0))
replicas_agree_example =
    replicas_agree memory_loglet keep_payload log_of_two both_synced 0 1 both_synced-Turns
      log_of_two-Fits refl

-- The first engine has applied both entries when the second one syncs.
abbrev one_synced : Replicas memory_loglet keep_payload
one_synced = with_engine memory_loglet keep_payload 0 synced_engine start

one_synced-Turns : Turns memory_loglet keep_payload start one_synced
one_synced-Turns =
    next here (handled 0 3 sync (synced (ok 3)) synced_engine (λ p e b h. h) synced_0 refl)

log_of_two-ShownBelowTail : ShownBelowTail memory_loglet keep_payload log_of_two
unfolding MemoryLoglet.read MemoryLoglet.check_tail add64
log_of_two-ShownBelowTail p e tail b h at = elim (Bool-cases (leb 3 p)) [
  | inr inside ↦ let is : 3 ≡ tail = ok_inj at in ground (arith, is)
  | inl beyond ↦
      let untrimmed : ltb p 1 ≡ false = ground (arith, beyond) in
      let nothing : ok none ≡ ok (some e) = simp (untrimmed, beyond) at h in absurd (cc)
]

sync_catches_up_example :
    (3 ≤ 3)
    × Onward memory_loglet keep_payload log_of_two 3
        (machine_of memory_loglet keep_payload (one_synced.engines 0))
        3
        (machine_of memory_loglet keep_payload synced_engine)
sync_catches_up_example =
    sync_catches_up memory_loglet keep_payload log_of_two one_synced one_synced 0 1 3 3
      synced_engine one_synced-Turns here log_of_two-Fits log_of_two-ShownBelowTail synced_0
