-- ===== src/Log/NativeLoglet/Cluster.antt =====
-- The tasks of one native loglet as they run side by side: a step is one request, handled by the
-- sequencer or by one log server. The clients of the loglet and the network choose the order.
use relos.Prelude.{ℕ, ◌+◌, ◌<◌, ◌^◌, ◌≡◌, Option, none, some, ◌==◌, if◌then◌else◌}
use relos.Core.{LogPos, Entry}
use relos.Log.NativeLoglet.{
  Sequencer, SequencerRequest, new_sequencer, assign, sequence, LogServer, LogServerRequest,
  new_log_server, serve,
}

-- `sent p` is the entry whose append was assigned the position `p`: what the clients know.
pub record Cluster : Type 0 where
  pub sequencer : Sequencer
  pub servers : ℕ → LogServer
  pub sent : LogPos → Option Entry

abbrev pub start : Cluster
start = record { sequencer = new_sequencer; servers = λ i. new_log_server; sent = λ p. none }

abbrev pub update {ℓ} : {A : Type ℓ} → (ℕ → A) → ℕ → A → ℕ → A
update f i a j = if i == j then a else f j

-- What the clients know once the sequencer has answered an append of an entry.
abbrev pub noted : Option LogPos → Entry → (LogPos → Option Entry) → LogPos → Option Entry
noted none e sent = sent
noted (some p) e sent = update sent p (some e)

-- An append of an entry asks the sequencer for a position.
abbrev pub assigned_to : Entry → Cluster → Cluster
assigned_to e s = record s {
  sequencer = (assign s.sequencer).1;
  sent = noted (assign s.sequencer).0 e s.sent;
}

abbrev pub served : ℕ → LogServerRequest → Cluster → Cluster
served i q s = record s { servers = update s.servers i (serve q (s.servers i)).1 }

-- A store request names a position that was assigned, and carries the entry it was assigned to.
pub data Step (s : Cluster) (t : Cluster) : Type 0 where
  next_pos : (e : Entry) → s.sequencer.next_pos + 1 < 2 ^ 64 → t ≡ assigned_to e s → Step s t
  seal_sequencer :
      t ≡ record s { sequencer = (sequence SequencerRequest.seal s.sequencer).1 } → Step s t
  store :
      (i : ℕ) (p : LogPos) (e : Entry)
      → s.sent p ≡ some e
      → t ≡ served i (LogServerRequest.store p e) s
      → Step s t
  seal : (i : ℕ) → t ≡ served i LogServerRequest.seal s → Step s t
  trim : (i : ℕ) (p : LogPos) → t ≡ served i (LogServerRequest.trim p) s → Step s t

pub data Reach (s : Cluster) : Cluster → Type 0 where
  here : Reach s s
  next : {t u : Cluster} → Reach s t → Step t u → Reach s u
