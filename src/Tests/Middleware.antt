-- ===== src/Tests/Middleware.antt =====
-- The middlewares' theorems at small batches and views, over an engine that answers at once.
use relos.Prelude.{
  ℕ, suc, ◌≡◌, ◌≤◌, ◌-◌, length, arith, refl, false, none, some, List, [], ◌∷◌, ◌++◌, ◌==◌,
  if◌then◌else◌,
}
use relos.Prelude.Bytes.{Bytes}
use relos.Core
use relos.Core.{
  Entry, LogPos, ServerId, Result, ok, err, panic, Codec, Coded, coded, failed, RoundTrips,
  with_header, get_header, and_then, end_of_log,
}
use relos.Store.Memory.{MemoryWriteTx}
use relos.Engine.Interface.{success, output, Engine, Applicator}
use relos.Engine.Batching.{
  BatchCodecs, BatchMetadata, batching_header, PendingPropose, propose, sync, Wake, received,
  timed_out, Flusher, flush_loop, flush_batch, send_all, apply_payloads, apply_batched,
}
use relos.Engine.Batching.Bounds.{flush_turns, flush_turns-bounded}
use relos.Engine.Batching.Answers.{tickets, waiting, brought_all, NoPanic, flush_loop_lem}
use relos.Engine.Batching.Unbatching.{apply_batched_lem}
use relos.Engine.Batching.GroupCommit.{batched_engine, batch_entry, moved_on, group_commit_lem}
use relos.Engine.Base.{BaseEngine}
use relos.Prelude.Words.{add64}
use relos.Log.MemoryLoglet
use relos.Log.MemoryLoglet.{MemoryLoglet}
use relos.Log.MemoryLoglet.Invariant.{new-IsValid}
use relos.Log.MemoryLoglet.Laws.{memory_laws}
use relos.Store.Memory
use relos.Engine.ViewTracking.{ViewTrackingMetadata, Views, view_of, view_tracking_header, apply}
use relos.Engine.ViewTracking.Trimming.{apply_lem}
use relos.Engine.Stack.{MiddleEngine, build, push, build-push}

-- An engine that counts its calls, and refuses every sync.
abbrev counting : Engine ℕ
counting = record { propose = λ e n. (ok success, suc n); sync = λ n. (err end_of_log, n) }

counting-NoPanic : NoPanic counting
counting-NoPanic = record { proposes = λ e d m h. cc; syncs = λ d m h. cc }

-- Payloads of one byte are written one after the other, and a count as one byte.
abbrev write_bytes : List Bytes → Coded Bytes
write_bytes [] = coded []
write_bytes ((n ∷ []) ∷ []) = coded (n ∷ [])
write_bytes ((n ∷ []) ∷ (m ∷ []) ∷ []) = coded (n ∷ m ∷ [])
write_bytes _ = failed []

abbrev read_bytes : Bytes → Coded (List Bytes)
read_bytes [] = coded []
read_bytes (n ∷ []) = coded ((n ∷ []) ∷ [])
read_bytes (n ∷ m ∷ []) = coded ((n ∷ []) ∷ (m ∷ []) ∷ [])
read_bytes _ = failed []

abbrev read_count : Bytes → Coded BatchMetadata
read_count (n ∷ []) = coded (record { count = n })
read_count _ = failed []

abbrev byte_codecs : BatchCodecs
byte_codecs = record {
  payloads = record { serialize = write_bytes; deserialize = read_bytes };
  metadata = record { serialize = λ m. coded (m.count ∷ []); deserialize = read_count };
}

same_bytes : {a b : Bytes} → coded a ≡ coded b → a ≡ b
same_bytes h = cc

payloads-RoundTrips : RoundTrips byte_codecs.payloads
payloads-RoundTrips [] b h = rw (← same_bytes h) refl
payloads-RoundTrips ((n ∷ []) ∷ []) b h = rw (← same_bytes h) refl
payloads-RoundTrips ((n ∷ []) ∷ (m ∷ []) ∷ []) b h = rw (← same_bytes h) refl
payloads-RoundTrips ([] ∷ xs) b h = cc
payloads-RoundTrips ((n ∷ k ∷ ks) ∷ xs) b h = cc
payloads-RoundTrips ((n ∷ []) ∷ [] ∷ xs) b h = cc
payloads-RoundTrips ((n ∷ []) ∷ (m ∷ k ∷ ks) ∷ xs) b h = cc
payloads-RoundTrips ((n ∷ []) ∷ (m ∷ []) ∷ x ∷ xs) b h = cc

metadata-RoundTrips : RoundTrips byte_codecs.metadata
metadata-RoundTrips m b h = rw (← same_bytes h) refl

abbrev waits : ℕ → PendingPropose
waits n = record { payload = n ∷ []; result_tx = n }

abbrev idle : Flusher ℕ
idle = record { pending = waits 1 ∷ []; downstream = 0; answers = [] }

abbrev wakes : List Wake
wakes =
    received (propose (waits 2)) ∷ received (propose (waits 3)) ∷ timed_out ∷ received (sync 4) ∷ []

flush_loop_lem_example :
    ((flush_loop byte_codecs counting 2 wakes idle).0 ≡ ok tt)
    × ((flush_loop byte_codecs counting 2 wakes idle).1.pending ≡ [])
    × (tickets (flush_loop byte_codecs counting 2 wakes idle).1.answers
        ≡ (tickets idle.answers ++ waiting idle.pending) ++ brought_all wakes)
flush_loop_lem_example = flush_loop_lem byte_codecs counting counting-NoPanic 2 wakes idle

flush_turns-bounded_example :
    (length (flush_turns byte_codecs counting 2 wakes idle).1.pending ≤ 2 - 1)
    × (flush_loop byte_codecs counting 2 wakes idle
        ≡ flush_batch byte_codecs counting (flush_turns byte_codecs counting 2 wakes idle).1)
flush_turns-bounded_example =
    flush_turns-bounded byte_codecs counting counting-NoPanic 2 wakes idle (omega arith)

-- An applicator that returns the payload, and counts.
abbrev echo : Applicator ℕ
echo = record { apply = λ e at s. (ok (output e.payload), (s.0, suc s.1)) }

abbrev start : MemoryWriteTx
start = record { working = []; committed = false }

apply_batched_lem_example :
    (apply_batched echo byte_codecs
        (with_header (Core.new (7 ∷ 8 ∷ [])) batching_header (2 ∷ []))
        5
        (start, 0)
      ≡ apply_payloads echo 5 success ((7 ∷ []) ∷ (8 ∷ []) ∷ []) (start, 0))
    × ((e : Entry)
        → get_header e batching_header ≡ none
        → apply_batched echo byte_codecs e 5 (start, 0) ≡ echo.apply e 5 (start, 0))
apply_batched_lem_example =
    apply_batched_lem echo byte_codecs payloads-RoundTrips metadata-RoundTrips
      ((7 ∷ []) ∷ (8 ∷ []) ∷ []) (7 ∷ 8 ∷ []) (2 ∷ []) 5 (start, 0) refl refl

abbrev two_views : Views
two_views = record { positions = (1, 9) ∷ (2, 6) ∷ []; locked = false }

abbrev write_view : ViewTrackingMetadata → Coded Bytes
write_view m = coded (m.server_id ∷ m.cursor ∷ [])

abbrev read_view : Bytes → Coded ViewTrackingMetadata
read_view (i ∷ p ∷ []) = coded (record { server_id = i; cursor = p })
read_view _ = failed []

abbrev views_codec : Codec ViewTrackingMetadata
views_codec = record { serialize = write_view; deserialize = read_view }

views_codec-RoundTrips : RoundTrips views_codec
views_codec-RoundTrips m b h = rw (← same_bytes h) refl

abbrev viewed : Entry
viewed = with_header (Core.new []) view_tracking_header (1 ∷ 3 ∷ [])

apply_lem_example :
    ((apply views_codec echo viewed 12 (start, (two_views, 0))).0
      ≡ (echo.apply viewed 12 (start, 0)).0)
    × ((apply views_codec echo viewed 12 (start, (two_views, 0))).1.0
        ≡ (echo.apply viewed 12 (start, 0)).1.0)
    × ((apply views_codec echo viewed 12 (start, (two_views, 0))).1.1.1
        ≡ (echo.apply viewed 12 (start, 0)).1.1)
    × ((j : ServerId)
        → view_of j (apply views_codec echo viewed 12 (start, (two_views, 0))).1.1.0.positions
          ≡ (if 1 == j then some 12 else view_of j two_views.positions))
apply_lem_example =
    apply_lem views_codec echo views_codec-RoundTrips (Core.new [])
      (record { server_id = 1; cursor = 3 }) (1 ∷ 3 ∷ []) 12 start two_views 0 refl refl

abbrev counted : MiddleEngine ℕ ℕ
counted = record {
  wrap_engine = λ inner. record { propose = inner.propose; sync = λ n. inner.sync (suc n) };
  wrap_applicator = λ inner. record { apply = λ e at s. inner.apply e at (s.0, suc s.1) };
}

build-push_example :
    build (λ app. ok counting) (push counted (counted ∷ [])) echo
    ≡ and_then
        (build (λ app. ok counting) (counted ∷ []) (counted.wrap_applicator echo))
        λ engine. ok (counted.wrap_engine engine)
build-push_example = build-push (λ app. ok counting) (counted ∷ []) counted echo

-- A new engine over a new log, on which two callers wait: the applicator answers each payload with
-- itself, and both callers receive the second.
abbrev new_engine : BaseEngine MemoryLoglet ℕ
new_engine = record { loglet = MemoryLoglet.new; local_store = Memory.new; app = 0; cursor = 1 }

abbrev two_waiting : Flusher (BaseEngine MemoryLoglet ℕ)
two_waiting = record { pending = waits 7 ∷ waits 8 ∷ []; downstream = new_engine; answers = [] }

group_commit_lem_example :
    flush_batch byte_codecs (batched_engine memory_laws echo byte_codecs 2) two_waiting ≡ (
      ok tt,
      record {
        pending = [];
        downstream =
            moved_on memory_laws echo byte_codecs 2
              (batch_entry (7 ∷ 8 ∷ []) (2 ∷ []))
              (start, 2)
              new_engine;
        answers = [] ++ send_all ((waits 7 ∷ []) ++ waits 8 ∷ []) (ok (output (8 ∷ [])));
      },
    )
unfolding apply_payloads memory_laws add64
group_commit_lem_example =
    group_commit_lem memory_laws echo byte_codecs 2 payloads-RoundTrips metadata-RoundTrips
      (waits 7 ∷ []) (waits 8) (7 ∷ 8 ∷ []) (2 ∷ []) two_waiting (output (7 ∷ [])) (output (8 ∷ []))
      (start, 1) (start, 2) refl refl refl (omega arith) refl new-IsValid refl refl (omega arith)
      (omega arith) refl refl
