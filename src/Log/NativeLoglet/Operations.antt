-- ===== src/Log/NativeLoglet/Operations.antt =====
-- The operations of `NativeLoglet` in crates/relos-log/src/native_loglet.rs, each from its start to
-- its end. A log server's task may be met in three ways, as the sequencer's: it answers; it drops
-- the reply; it is gone, and nothing can be sent.
use relos.Prelude.{
  ℕ, zero, suc, ◌+◌, ◌/◌, Option, none, some, List, [], ◌∷◌, leb, ltb, if◌then◌else◌, max, true,
  false, Bool,
}
use relos.Prelude.Bytes.{Text, text}
use relos.Core.{
  LogPos, log_pos_begin, Entry, RelosError, Result, ok, err, panic, sealed, internal, and_then,
  Exec, continue,
}
use relos.Core
use relos.Log.Loglet.{Loglet}
use relos.Log.NativeLoglet.SequencerHandle
use relos.Log.NativeLoglet.SequencerHandle.{SequencerTask, answering}
use relos.Log.NativeLoglet.{
  Sequencer, new_sequencer, LogServer, new_log_server, LogServerRequest, LogServerReply, stored,
  closed, result, done, ReadResult, entry, trimmed, not_found, read_at, serve,
}

-- `LogServerHandle`, by what its task does with a request.
pub data LogServerHandle : Type 0 where
  running : LogServer → LogServerHandle
  dropping : LogServerHandle
  gone : LogServerHandle

-- The handle of the sequencer is how its task meets a request, with the variables of the task.
pub record NativeLoglet : Type 0 where
  pub sequencer_task : SequencerTask
  pub sequencer : Sequencer
  pub log_servers : List LogServerHandle
  pub quorum_size : ℕ
  pub is_sealed : Bool

pub server_gone : RelosError
server_gone = internal (text "log server task gone")

pub reply_dropped : RelosError
reply_dropped = internal (text "log server reply dropped")

pub no_append_quorum : RelosError
no_append_quorum = internal (text "failed to reach quorum for append")

pub no_seal_quorum : RelosError
no_seal_quorum = internal (text "failed to reach quorum for seal")

-- `(0..n).map(|_| ..).collect()`
abbrev pub replicate {ℓ} : {A : Type ℓ} → ℕ → A → List A
replicate zero a = []
replicate (suc n) a = a ∷ replicate n a

-- `NativeLoglet::new`, with its assertion
unfoldable pub new : ℕ → Result NativeLoglet
new num_servers =
    if ltb 0 num_servers
    then ok (record {
      sequencer_task = answering;
      sequencer = new_sequencer;
      log_servers = replicate num_servers (running new_log_server);
      quorum_size = num_servers / 2 + 1;
      is_sealed = false;
    })
    else panic (text "need at least one log server")

unfoldable pub with_defaults : Result NativeLoglet
unfolding new
with_defaults = new 3

-- The loop of each `fan_out`, with the replies as they are received: none for a dropped one. The
-- servers before one that is gone have had their request.
unfoldable pub fan_out :
    LogServerRequest → Exec (List LogServerHandle) (List (Option LogServerReply))
fan_out q [] = (ok [], [])
fan_out q (running s ∷ hs) =
    let (r, s') = serve q s in
    let (rs, hs') = fan_out q hs in (and_then rs λ replies. ok (some r ∷ replies), running s' ∷ hs')
fan_out q (dropping ∷ hs) =
    let (rs, hs') = fan_out q hs in (and_then rs λ replies. ok (none ∷ replies), dropping ∷ hs')
fan_out q (gone ∷ hs) = (err server_gone, gone ∷ hs)

abbrev pub on_servers : {A : Type 0} → Exec (List LogServerHandle) A → Exec NativeLoglet A
on_servers m l = let (r, hs) = m l.log_servers in (r, record l { log_servers = hs })

unfoldable pub fan_out_store : LogPos → Entry → Exec NativeLoglet (List (Option LogServerReply))
unfolding fan_out
fan_out_store pos e = on_servers (fan_out (LogServerRequest.store pos e))

unfoldable pub fan_out_seal : Exec NativeLoglet (List (Option LogServerReply))
unfolding fan_out
fan_out_seal = on_servers (fan_out LogServerRequest.seal)

unfoldable pub fan_out_trim : LogPos → Exec NativeLoglet (List (Option LogServerReply))
unfolding fan_out
fan_out_trim pos = on_servers (fan_out (LogServerRequest.trim pos))

-- The loop over the replies in `append`: `ack_count` and `seal_tail`
unfoldable pub count_acks : ℕ → Option LogPos → List (Option LogServerReply) → ℕ × Option LogPos
count_acks ack_count seal_tail [] = (ack_count, seal_tail)
count_acks ack_count seal_tail (some (stored b) ∷ rs) = count_acks (suc ack_count) seal_tail rs
count_acks ack_count seal_tail (some (closed tail) ∷ rs) = count_acks ack_count (some tail) rs
count_acks ack_count seal_tail (some (result r) ∷ rs) = count_acks ack_count seal_tail rs
count_acks ack_count seal_tail (some (LogServerReply.tail_at p) ∷ rs) =
    count_acks ack_count seal_tail rs
count_acks ack_count seal_tail (some done ∷ rs) = count_acks ack_count seal_tail rs
count_acks ack_count seal_tail (none ∷ rs) = count_acks ack_count seal_tail rs

abbrev pub without_quorum : Option LogPos → Exec NativeLoglet LogPos
without_quorum (some tail) l = (err (sealed tail), record l { is_sealed = true })
without_quorum none l = (err no_append_quorum, l)

-- The end of `append`
unfoldable pub acknowledge : LogPos → ℕ × Option LogPos → Exec NativeLoglet LogPos
acknowledge pos (ack_count, seal_tail) l =
    if leb l.quorum_size ack_count then (ok pos, l) else without_quorum seal_tail l

unfoldable pub check_tail : NativeLoglet → Result LogPos
check_tail l = SequencerHandle.check_tail l.sequencer_task l.sequencer

-- `Err(RelosError::Sealed(tail))` for the sequencer's tail
abbrev pub refuse_sealed : NativeLoglet → Result LogPos
refuse_sealed l =
    and_then (SequencerHandle.check_tail l.sequencer_task l.sequencer) λ tail. err (sealed tail)

-- `append` from the sequencer's reply on
unfoldable pub append_at : Entry → Option LogPos → Exec NativeLoglet LogPos
append_at e (some pos) l =
    let (r, l') = fan_out_store pos e l in
    continue r (λ replies. acknowledge pos (count_acks 0 none replies)) l'
append_at e none l = (refuse_sealed l, record l { is_sealed = true })

unfoldable pub append : Entry → Exec NativeLoglet LogPos
append e l =
    if l.is_sealed
    then (refuse_sealed l, l)
    else let (r, q) = SequencerHandle.next_pos l.sequencer_task l.sequencer in
      continue r (λ pos l'. append_at e pos l') (record l { sequencer = q })

-- The `match` on what a server read
abbrev pub or_next : LogPos → ReadResult → Result (Option Entry) → Result (Option Entry)
or_next pos (entry e) next = ok (some e)
or_next pos trimmed next = err (Core.trimmed pos)
or_next pos not_found next = next

-- `LogServerHandle::read`
abbrev pub read_server : LogPos → LogServerHandle → Result ReadResult
read_server pos (running s) = ok (read_at pos s)
read_server pos dropping = err reply_dropped
read_server pos gone = err server_gone

-- The loop of `read`
unfoldable pub read_from : LogPos → List LogServerHandle → Result (Option Entry)
read_from pos [] = ok none
read_from pos (h ∷ hs) =
    let rest = read_from pos hs in and_then (read_server pos h) λ r. or_next pos r rest

unfoldable pub read : LogPos → NativeLoglet → Result (Option Entry)
unfolding read_from
read pos l = read_from pos l.log_servers

-- The loop of `trim`
unfoldable pub all_done : List (Option LogServerReply) → Result (Unit {0})
all_done [] = ok tt
all_done (none ∷ rs) = err reply_dropped
all_done (some r ∷ rs) = all_done rs

unfoldable pub trim : LogPos → Exec NativeLoglet (Unit {0})
trim pos l =
    let (r, l') = fan_out_trim pos l in continue r (λ replies l₁. (all_done replies, l₁)) l'

-- The loop of `seal`: `sealed_count` and `max_tail`
unfoldable pub count_sealed : ℕ → LogPos → List (Option LogServerReply) → ℕ × LogPos
count_sealed sealed_count max_tail [] = (sealed_count, max_tail)
count_sealed sealed_count max_tail (some (LogServerReply.tail_at tail) ∷ rs) =
    count_sealed (suc sealed_count) (if ltb max_tail tail then tail else max_tail) rs
count_sealed sealed_count max_tail (some (stored b) ∷ rs) = count_sealed sealed_count max_tail rs
count_sealed sealed_count max_tail (some (closed p) ∷ rs) = count_sealed sealed_count max_tail rs
count_sealed sealed_count max_tail (some (result r) ∷ rs) = count_sealed sealed_count max_tail rs
count_sealed sealed_count max_tail (some done ∷ rs) = count_sealed sealed_count max_tail rs
count_sealed sealed_count max_tail (none ∷ rs) = count_sealed sealed_count max_tail rs

-- The end of `seal`
unfoldable pub conclude : LogPos → ℕ × LogPos → Exec NativeLoglet LogPos
conclude sequencer_tail (sealed_count, max_tail) l =
    if ltb sealed_count l.quorum_size
    then (err no_seal_quorum, l)
    else (ok (max sequencer_tail max_tail), record l { is_sealed = true })

unfoldable pub seal : Exec NativeLoglet LogPos
seal l =
    let (r, q) = SequencerHandle.seal l.sequencer_task l.sequencer in
    continue r
      (λ sequencer_tail l₁.
        let (rs, l') = fan_out_seal l₁ in
        continue rs (λ replies. conclude sequencer_tail (count_sealed 0 log_pos_begin replies)) l')
      (record l { sequencer = q })

-- `impl Loglet for NativeLoglet`
abbrev pub native_loglet : Loglet NativeLoglet
native_loglet = record {
  append = append;
  check_tail = check_tail;
  read = read;
  trim = trim;
  seal = seal;
}

pub record NativeLogletFactory : Type 0 where
  pub num_servers : ℕ

-- `NativeLogletFactory::default`
abbrev pub default : NativeLogletFactory
default = record { num_servers = 3 }

-- `NativeLogletFactory::create`
unfoldable pub create : NativeLogletFactory → Text → Result NativeLoglet
create factory loglet_id = new factory.num_servers
