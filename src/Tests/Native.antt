-- ===== src/Tests/Native.antt =====
-- The native loglet's theorems at a few requests, at short schedules of the tasks, and at three
-- servers of which one drops its replies.
use relos.Prelude.{◌≡◌, ◌≢◌, refl, false, true, some, ◌≤◌, ℕ, [], ◌∷◌, arith, ◌⊎◌}
use relos.Prelude.Words.{add64}
use relos.Core.{LogPos, Entry, ok, err}
use relos.Core
use relos.Log.NativeLoglet.{
  SequencerRequest, sequence, new_sequencer, serve, entry_at, new_log_server, LogServerRequest,
}
use relos.Log.NativeLoglet.Cluster.{Cluster, start, assigned_to, served, Step, Reach, here, next}
use relos.Log.NativeLoglet.Safety.{servers_agree}
use relos.Log.NativeLoglet.Durability.{tasks, read_acknowledged}
use relos.Log.NativeLoglet.Operations
use relos.Log.NativeLoglet.SequencerHandle.{answering}
use relos.Log.NativeLoglet.Operations.{
  NativeLoglet, append_at, fan_out, fan_out_seal, count_sealed, conclude, fan_out_store, count_acks,
  acknowledge, read_from, running, dropping,
}
use relos.Log.NativeLoglet.Schedules.{loglet_of, IsSchedule, operations_are_schedules}
use relos.Log.NativeLoglet.Sealing.{seal_stops_appends}
use relos.Log.NativeLoglet.Quorum.{AtLeast, append_durable}

abbrev first : Entry
first = record { headers = []; payload = 7 ∷ [] }

abbrev second : Entry
second = record { headers = []; payload = 8 ∷ [] }

-- Two entries are appended and stored at different servers in different orders, then one server is
-- sealed and another trimmed.
abbrev appended_first : Cluster
appended_first = assigned_to first start

abbrev appended_both : Cluster
appended_both = assigned_to second appended_first

abbrev stored_twice : Cluster
stored_twice =
    served 1 (LogServerRequest.store 1 first)
      (served 0 (LogServerRequest.store 1 first) appended_both)

stored_twice-Reach : Reach start stored_twice
unfolding add64
stored_twice-Reach =
    next
      (next
        (next (next here (Step.next_pos first (omega arith) refl))
          (Step.next_pos second (omega arith) refl))
        (Step.store 0 1 first refl refl))
      (Step.store 1 1 first refl refl)

servers_agree_example : (first ≡ first) × (stored_twice.sent 1 ≡ some first)
unfolding serve entry_at
servers_agree_example = servers_agree stored_twice 0 1 1 first first stored_twice-Reach refl refl

abbrev closed_first : Cluster
closed_first = record appended_first {
  sequencer = (sequence SequencerRequest.seal appended_first.sequencer).1;
}

appended_first-Reach : Reach start appended_first
appended_first-Reach = next here (Step.next_pos first (omega arith) refl)

-- The first server has stored the entry; the read meets the others before they have.
abbrev stored_once : Cluster
stored_once = served 0 (LogServerRequest.store 1 first) appended_first

read_acknowledged_example :
    (read_from 1 (tasks (λ j. stored_once) 0 3) ≡ ok (some first))
    ⊎ (read_from 1 (tasks (λ j. stored_once) 0 3) ≡ err (Core.trimmed 1))
unfolding serve entry_at
read_acknowledged_example =
    read_acknowledged appended_first (λ j. stored_once) 0 3 1 first true appended_first-Reach refl
      refl (λ j. here) (omega arith)

-- Three servers, of which the second drops its replies.
abbrev one_dropping : NativeLoglet
one_dropping = record {
  sequencer_task = answering;
  sequencer = new_sequencer;
  log_servers = running new_log_server ∷ dropping ∷ running new_log_server ∷ [];
  quorum_size = 2;
  is_sealed = false;
}

appended_at_1 : (Operations.append first one_dropping).0 ≡ ok 1
unfolding Operations.append append_at fan_out_store fan_out serve entry_at count_acks acknowledge
appended_at_1 = refl

append_durable_example :
    (1 ≡ one_dropping.sequencer.next_pos)
    × ((k : ℕ) × (2 ≤ k) × AtLeast 1 first k (Operations.append first one_dropping).1.log_servers)
unfolding entry_at
append_durable_example = append_durable first one_dropping 1 (refl, (tt, (refl, tt))) appended_at_1

sealed_at_1 : (Operations.seal one_dropping).0 ≡ ok 1
unfolding Operations.seal fan_out_seal fan_out serve sequence count_sealed conclude
sealed_at_1 = refl

seal_stops_appends_example : (append_at first (some 1) (Operations.seal one_dropping).1).0 ≢ ok 1
seal_stops_appends_example = seal_stops_appends one_dropping 1 first 1 1 (omega arith) sealed_at_1

operations_are_schedules_example :
    ((e : Entry)
      → IsSchedule 3 2 stored_once (Operations.append e (loglet_of 3 2 false stored_once)))
    × ((p : LogPos)
        → IsSchedule 3 2 stored_once (Operations.trim p (loglet_of 3 2 false stored_once)))
    × IsSchedule 3 2 stored_once (Operations.seal (loglet_of 3 2 false stored_once))
unfolding add64
operations_are_schedules_example = operations_are_schedules 3 2 false stored_once (omega arith)
