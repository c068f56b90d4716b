-- ===== src/Log/NativeLoglet/SequencerHandle.antt =====
-- `SequencerHandle` in crates/relos-log/src/native_loglet.rs: a request is sent to the sequencer's
-- task, and its reply is awaited. The task may be met in three ways: it answers; it drops the
-- reply; it has ended, and nothing can be sent.
use relos.Prelude.{Option}
use relos.Prelude.Bytes.{text}
use relos.Core.{LogPos, RelosError, Result, ok, err, internal, Exec}
use relos.Log.NativeLoglet.{Sequencer, SequencerRequest, assign, sequence}

pub data SequencerTask : Type 0 where
  answering : SequencerTask
  dropping_replies : SequencerTask
  ended : SequencerTask

pub task_gone : RelosError
task_gone = internal (text "sequencer task gone")

pub reply_dropped : RelosError
reply_dropped = internal (text "sequencer reply dropped")

-- `send` and then the reply, with what the task answers and the variables it then has
abbrev pub ask : {A : Type 0} → SequencerTask → A × Sequencer → Exec Sequencer A
ask answering (a, s') s = (ok a, s')
ask dropping_replies r s = (err reply_dropped, s)
ask ended r s = (err task_gone, s)

abbrev pub next_pos : SequencerTask → Exec Sequencer (Option LogPos)
next_pos task s = ask task (assign s) s

abbrev pub seal : SequencerTask → Exec Sequencer LogPos
seal task s = ask task (s.next_pos, (sequence SequencerRequest.seal s).1) s

abbrev pub check_tail : SequencerTask → Sequencer → Result LogPos
check_tail task s = (ask task (s.next_pos, (sequence SequencerRequest.check_tail s).1) s).0
