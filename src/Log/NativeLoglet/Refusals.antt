-- ===== src/Log/NativeLoglet/Refusals.antt =====
-- An append that is refused after some servers have stored its entry.
use relos.Prelude.{ℕ, ◌≡◌, true, false, Option, some, List, [], ◌∷◌, leb, if◌then◌else◌}
use relos.Prelude.Words.{add64}
use relos.Core.{LogPos, Entry, ok, Exec}
use relos.Log.NativeLoglet.{LogServer, LogServerRequest, LogServerReply}
use relos.Log.NativeLoglet.SequencerHandle
use relos.Log.NativeLoglet.SequencerHandle.{answering}
use relos.Log.NativeLoglet.Operations.{
  NativeLoglet, LogServerHandle, running, dropping, gone, fan_out, count_acks,
}

-- A server that answers and is sealed.
abbrev pub IsClosed : LogServerHandle → Type 0
IsClosed (running s) = s.is_sealed ≡ true
IsClosed dropping = ⊥
IsClosed gone = ⊥

-- Closed servers refuse a store and do not change; after the first tail they count nothing but tails.
record Refused (p : LogPos) (e : Entry) (hs : List LogServerHandle) : Type 0 where
  replies : List (Option LogServerReply)
  sent : fan_out (LogServerRequest.store p e) hs ≡ (ok replies, hs)
  counted :
      (a : ℕ) (t : LogPos) → (tail : LogPos) × (count_acks a (some t) replies ≡ (a, some tail))

-- An open loglet whose first server is open and whose others are these.
abbrev pub with_first_open : LogServer → List LogServerHandle → ℕ → LogPos → NativeLoglet
with_first_open s hs quorum_size p = record {
  sequencer_task = answering;
  sequencer = record { next_pos = p; is_sealed = false };
  log_servers = running s ∷ hs;
  quorum_size = quorum_size;
  is_sealed = false;
}

-- An open server's state once it has stored the entry.
abbrev stored_by : LogPos → Entry → LogServer → LogServer
stored_by p e s = record s {
  entries = (p, e) ∷ s.entries;
  tail = if leb s.tail p then add64 p 1 else s.tail;
}

-- A server that answers.
abbrev pub IsRunning : LogServerHandle → Type 0
IsRunning (running s) = Unit
IsRunning dropping = ⊥
IsRunning gone = ⊥

-- The first message of an append: it asks the sequencer for a position.
abbrev pub asked : Exec NativeLoglet (Option LogPos)
asked l =
    let (r, q) = SequencerHandle.next_pos l.sequencer_task l.sequencer in
    (r, record l { sequencer = q })

abbrev pub sealed_but_first : List LogServerHandle → List LogServerHandle
sealed_but_first [] = []
sealed_but_first (h ∷ hs) = h ∷ (fan_out LogServerRequest.seal hs).1

-- A seal under way: all that it asks has handled its request but the first log server.
abbrev pub half_sealed : NativeLoglet → NativeLoglet
half_sealed l = record l {
  sequencer = (SequencerHandle.seal l.sequencer_task l.sequencer).1;
  log_servers = sealed_but_first l.log_servers;
}
