-- ===== src/Tests/Engine.antt =====
-- The engine's theorems at an applicator that writes each payload under its own key, over a
-- memory loglet.
use relos.Prelude.{ℕ, suc, ◌≡◌, refl, false, Option, none, some, [], ◌∷◌, arith}
use relos.Prelude.Words.{add64}
use relos.Core.{Entry, ok}
use relos.Log.MemoryLoglet
use relos.Log.MemoryLoglet.{MemoryLoglet, memory_loglet}
use relos.Store.Map
use relos.Store.Memory
use relos.Store.Memory.{MemoryStore, MemoryWriteTx}
use relos.Engine.Interface.{ReturnValue, success, output, Applicator}
use relos.Engine.Base
use relos.Engine.Base.{
  BaseEngine, ApplyRequest, propose, sync, apply_loop, handle, handle_sync, handle_propose,
  to_le_bytes, from_le_bytes, cursor_key,
}
use relos.Engine.Base.Recovery.{restart_resumes}
use relos.Engine.Base.Playback.{Machine, with_machine, accept, replay}
use relos.Engine.Base.Playback.Syncing.{handle_sync-replay}
use relos.Engine.Base.Playback.Proposing.{handle_propose-replay}

abbrev pub entry : ℕ → Entry
entry n = record { headers = []; payload = n ∷ [] }

abbrev keep_payload : Applicator ℕ
keep_payload = record {
  apply = λ e pos s. (
    ok (output e.payload),
    (record { working = Map.insert e.payload e.payload s.0.working; committed = false }, suc s.1),
  );
}

abbrev pub log_of_two : MemoryLoglet
log_of_two = record {
  entries = some (entry 10) ∷ some (entry 20) ∷ [];
  is_sealed = false;
  trim_pos = 1;
}

abbrev fresh : BaseEngine MemoryLoglet ℕ
fresh = record { loglet = log_of_two; local_store = Memory.new; app = 0; cursor = 1 }

abbrev machine_after :
    Option (ReturnValue × Machine memory_loglet keep_payload) → Machine memory_loglet keep_payload
machine_after none = ([], 0)
machine_after (some (rv, m)) = m

abbrev after_two : Machine memory_loglet keep_payload
after_two =
    machine_after (replay memory_loglet keep_payload (entry 10 ∷ entry 20 ∷ []) 1 success ([], 0))

handle_sync-replay_example :
    handle_sync memory_loglet keep_payload 3 fresh
    ≡ some (ok 3, with_machine memory_loglet keep_payload fresh after_two 3)
unfolding add64 MemoryLoglet.check_tail MemoryLoglet.read replay accept
handle_sync-replay_example =
    handle_sync-replay memory_loglet keep_payload (entry 10 ∷ entry 20 ∷ []) 3 3 fresh
      (output (20 ∷ [])) after_two (omega arith) refl refl refl (omega arith) (refl, (refl, tt))
      refl

abbrev appended : MemoryLoglet
appended = record log_of_two { entries = some (entry 10) ∷ some (entry 20) ∷ some (entry 10) ∷ [] }

abbrev after_three : Machine memory_loglet keep_payload
after_three =
    machine_after
      (replay memory_loglet keep_payload (entry 10 ∷ entry 20 ∷ entry 10 ∷ []) 1 success ([], 0))

handle_propose-replay_example :
    handle_propose memory_loglet keep_payload 4 (entry 10) fresh
    ≡ some (
      ok (output (10 ∷ [])),
      with_machine memory_loglet keep_payload (record fresh { loglet = appended }) after_three 4,
    )
unfolding add64 MemoryLoglet.append MemoryLoglet.read replay accept
handle_propose-replay_example =
    handle_propose-replay memory_loglet keep_payload (entry 10) (entry 10)
      (entry 20 ∷ entry 10 ∷ []) 4 3 appended fresh (output (10 ∷ [])) after_three (omega arith)
      refl refl refl (omega arith) (refl, (refl, (refl, tt))) refl

abbrev caught_up : BaseEngine MemoryLoglet ℕ
caught_up = with_machine memory_loglet keep_payload fresh after_two 3

restart_resumes_example :
    Base.new memory_loglet keep_payload log_of_two caught_up.local_store 7
    ≡ ok (record {
      loglet = log_of_two;
      local_store = caught_up.local_store;
      app = 7;
      cursor = caught_up.cursor;
    })
unfolding add64 MemoryLoglet.check_tail MemoryLoglet.read replay accept Base.new
    Memory.begin_read_txn Memory.read_get Map.get apply_loop handle handle_sync Base.sync_loop
    Base.apply_one Base.apply_in Base.finish Memory.begin_write_txn Memory.put Memory.commit
    Base.cursor_from
restart_resumes_example =
    restart_resumes memory_loglet keep_payload 3 (sync ∷ []) log_of_two log_of_two Memory.new 0 7
      fresh caught_up refl refl refl
