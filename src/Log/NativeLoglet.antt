-- ===== src/Log/NativeLoglet.antt =====
-- crates/relos-log/src/native_loglet.rs: the two kinds of task of the native loglet. Each handles
-- a request whole before the next one, so it is a function on its state; the channels of the
-- replies are left out.
pub mod Sequencing
pub mod WriteOnce
pub mod SequencerHandle
pub mod Operations
pub mod Uniform
pub mod Trimming
pub mod Agreed
pub mod Laws
pub mod Cluster
pub mod Agreement
pub mod Safety
pub mod Durability
pub mod Quorum
pub mod Sealing
pub mod Refusals
pub mod Schedules
pub mod Factory
use relos.Prelude.{
  ℕ, Bool, true, false, Option, none, some, List, [], ◌∷◌, leb, ltb, ◌==◌, if◌then◌else◌,
}
use relos.Prelude.Words.{add64}
use relos.Core.{LogPos, log_pos_begin, Entry}

-- The variables of the sequencer's task.
pub record Sequencer : Type 0 where
  pub next_pos : LogPos
  pub is_sealed : Bool

pub data SequencerRequest : Type 0 where
  next_pos : SequencerRequest
  seal : SequencerRequest
  check_tail : SequencerRequest

-- What it replies: to `NextPos` a position or none, else the tail.
pub data SequencerReply : Type 0 where
  assigned : Option LogPos → SequencerReply
  tail_at : LogPos → SequencerReply

abbrev pub new_sequencer : Sequencer
new_sequencer = record { next_pos = log_pos_begin; is_sealed = false }

-- The arm for `NextPos`
abbrev pub assign : Sequencer → Option LogPos × Sequencer
assign s =
    if s.is_sealed then (none, s) else (some s.next_pos, record s { next_pos = add64 s.next_pos 1 })

unfoldable pub sequence : SequencerRequest → Sequencer → SequencerReply × Sequencer
sequence next_pos s = let (r, s') = assign s in (assigned r, s')
sequence seal s = (tail_at s.next_pos, record s { is_sealed = true })
sequence check_tail s = (tail_at s.next_pos, s)

-- `while let Some(req) = rx.recv().await`, with the replies in order
unfoldable pub sequence_all : List SequencerRequest → Sequencer → List SequencerReply × Sequencer
sequence_all [] s = ([], s)
sequence_all (q ∷ qs) s =
    let (r, s') = sequence q s in let (rs, s'') = sequence_all qs s' in (r ∷ rs, s'')

-- The variables of a log server's task. The `BTreeMap` is an association list: that its range
-- below a position is removed is all that depends on its order.
pub record LogServer : Type 0 where
  pub entries : List (LogPos × Entry)
  pub is_sealed : Bool
  pub trim_pos : LogPos
  pub tail : LogPos

abbrev pub new_log_server : LogServer
new_log_server = record {
  entries = [];
  is_sealed = false;
  trim_pos = log_pos_begin;
  tail = log_pos_begin;
}

pub data LogServerRequest : Type 0 where
  store : LogPos → Entry → LogServerRequest
  read : LogPos → LogServerRequest
  seal : LogServerRequest
  trim : LogPos → LogServerRequest

pub data ReadResult : Type 0 where
  entry : Entry → ReadResult
  trimmed : ReadResult
  not_found : ReadResult

-- `Store` is answered with whether the entry was stored, or the tail of a sealed server.
pub data LogServerReply : Type 0 where
  stored : Bool → LogServerReply
  closed : LogPos → LogServerReply
  result : ReadResult → LogServerReply
  tail_at : LogPos → LogServerReply
  done : LogServerReply

unfoldable pub entry_at : LogPos → List (LogPos × Entry) → Option Entry
entry_at p [] = none
entry_at p ((q, e) ∷ m) = if q == p then some e else entry_at p m

-- The removal of `entries.range(..pos)`
unfoldable pub remove_below : LogPos → List (LogPos × Entry) → List (LogPos × Entry)
remove_below p [] = []
remove_below p ((q, e) ∷ m) = let rest = remove_below p m in if ltb q p then rest else (q, e) ∷ rest

abbrev pub read_found : Option Entry → ReadResult
read_found none = not_found
read_found (some e) = entry e

unfoldable pub read_at : LogPos → LogServer → ReadResult
read_at p s = if ltb p s.trim_pos then trimmed else read_found (entry_at p s.entries)

-- The last branch of `Store`, when nothing is there
abbrev pub store_if_free : LogPos → Entry → Option Entry → LogServer → LogServerReply × LogServer
store_if_free p e (some _) s = (stored false, s)
store_if_free p e none s = (
  stored true,
  record s { entries = (p, e) ∷ s.entries; tail = if leb s.tail p then add64 p 1 else s.tail },
)

unfoldable pub serve : LogServerRequest → LogServer → LogServerReply × LogServer
serve (store p e) s =
    if s.is_sealed then (closed s.tail, s) else store_if_free p e (entry_at p s.entries) s
serve (read p) s = (result (read_at p s), s)
serve seal s = (tail_at s.tail, record s { is_sealed = true })
serve (trim p) s =
    if ltb s.trim_pos p
    then (done, record s { trim_pos = p; entries = remove_below p s.entries })
    else (done, s)

unfoldable pub serve_all : List LogServerRequest → LogServer → LogServer
serve_all [] s = s
serve_all (q ∷ qs) s = serve_all qs (serve q s).1
