-- ===== src/Log/NativeLoglet/Uniform.antt =====
-- A native loglet whose log servers all answer, between two calls: the servers agree.
use relos.Prelude.{
  ℕ, zero, suc, ◌+◌, ◌/◌, ◌<◌, ◌≤◌, ◌^◌, ◌≡◌, refl, ap, ◌∙◌, Bool, true, false, Option, none, some,
  ◌∷◌, arith, leb, ltb, if◌then◌else◌,
}
use relos.Prelude.Words.{add64-eq}
use relos.Core.{LogPos, log_pos_begin, Entry, Result, ok, err, sealed}
use relos.Log.NativeLoglet.{
  LogServer, LogServerRequest, LogServerReply, stored, sequence, serve, entry_at, read_at, entry,
  trimmed, not_found, ReadResult,
}
use relos.Log.NativeLoglet.SequencerHandle.{answering}
use relos.Log.NativeLoglet.Operations.{
  NativeLoglet, running, replicate, fan_out, fan_out_store, fan_out_seal, count_acks, count_sealed,
  acknowledge, conclude, append, append_at, seal, read, read_from, or_next,
}

-- All servers in one state, with the majority that goes with it.
abbrev pub uniform : Bool → LogServer → ℕ → LogPos → NativeLoglet
uniform b s n p = record {
  sequencer_task = answering;
  sequencer = record { next_pos = p; is_sealed = b };
  log_servers = replicate n (running s);
  quorum_size = n / 2 + 1;
  is_sealed = b;
}

-- A server's state with an entry stored at the next position.
abbrev pub with_entry : LogPos → Entry → LogServer → LogServer
with_entry p e s = record s { entries = (p, e) ∷ s.entries; tail = p + 1 }

-- Nothing is stored from the sequencer's next position on.
pub record IsBelow (p : LogPos) (s : LogServer) : Type 0 where
  pub tail_le : s.tail ≤ p
  pub free : (q : LogPos) → p ≤ q → entry_at q s.entries ≡ none

pub fan_out-replicate :
    (q : LogServerRequest) (n : ℕ) (s : LogServer)
    → fan_out q (replicate n (running s))
      ≡ (ok (replicate n (some (serve q s).0)), replicate n (running (serve q s).1))
unfolding fan_out
fan_out-replicate q zero s = refl
fan_out-replicate q (suc n) s = rw (fan_out-replicate q n s) refl

count_acks-replicate :
    (n a : ℕ) (t : Option LogPos) (b : Bool)
    → count_acks a t (replicate n (some (stored b))) ≡ (a + n, t)
unfolding count_acks
count_acks-replicate zero a t b = ground arith
count_acks-replicate (suc n) a t b = count_acks-replicate n (suc a) t b ∙ ground arith

count_sealed-replicate :
    (n a : ℕ) (m p b : LogPos)
    → m ≤ b
    → p ≤ b
    → ((count_sealed a m (replicate n (some (LogServerReply.tail_at p)))).0 ≡ a + n)
      × ((count_sealed a m (replicate n (some (LogServerReply.tail_at p)))).1 ≤ b)
unfolding count_sealed
count_sealed-replicate zero a m p b h k = (omega arith, h)
count_sealed-replicate (suc n) a m p b h k =
    let r = count_sealed-replicate n (suc a) (if ltb m p then p else m) p b (ground arith) k in
    (r.0 ∙ omega arith, r.1)

serve-store :
    (p : LogPos) (e : Entry) (s : LogServer)
    → s.is_sealed ≡ false
    → IsBelow p s
    → p + 1 < 2 ^ 64
    → serve (LogServerRequest.store p e) s ≡ (stored true, with_entry p e s)
unfolding serve
serve-store p e s o h b =
    let free = h.free p (omega arith) in
    let last : leb s.tail p ≡ true = ground (arith, h.tail_le) in
    rw (o, free) (rw last (rw (add64-eq p 1 (omega arith)) refl))

pub append_uniform :
    (e : Entry) (s : LogServer) (n : ℕ) (p : LogPos)
    → s.is_sealed ≡ false
    → IsBelow p s
    → 0 < n
    → p + 1 < 2 ^ 64
    → append e (uniform false s n p) ≡ (ok p, uniform false (with_entry p e s) n (p + 1))
unfolding append append_at fan_out_store acknowledge
append_uniform e s n p o h some_server b =
    let enough : leb (n / 2 + 1) (0 + n) ≡ true = ground arith in
    rw (fan_out-replicate (LogServerRequest.store p e) n s) (
      rw (serve-store p e s o h b)
        (rw (count_acks-replicate n 0 none true) (rw (enough, add64-eq p 1 (omega arith)) refl)))

pub append_uniform_sealed :
    (e : Entry) (s : LogServer) (n : ℕ) (p : LogPos)
    → append e (uniform true s n p) ≡ (err (sealed p), uniform true s n p)
unfolding append
append_uniform_sealed e s n p = refl

-- A read of the first server that has something there is the read of any.
abbrev pub read_result : LogPos → ReadResult → Result (Option Entry)
read_result q r = or_next q r (ok none)

read_from-replicate :
    (q : LogPos) (s : LogServer) (n : ℕ) (r : ReadResult)
    → read_at q s ≡ r
    → read_from q (replicate (suc n) (running s)) ≡ read_result q r
unfolding read_from
read_from-replicate q s n (entry e) h = rw h refl
read_from-replicate q s n trimmed h = rw h refl
read_from-replicate q s zero not_found h = rw h refl
read_from-replicate q s (suc n) not_found h =
    ap (λ (r : ReadResult). or_next q r (read_from q (replicate (suc n) (running s)))) h
    ∙ read_from-replicate q s n not_found h

pub read_uniform :
    (q : LogPos) (b : Bool) (s : LogServer) (n : ℕ) (p : LogPos)
    → 0 < n
    → read q (uniform b s n p) ≡ read_result q (read_at q s)
unfolding read
read_uniform q b s zero p some_server = absurd (omega arith)
read_uniform q b s (suc n) p some_server = read_from-replicate q s n (read_at q s) refl

abbrev pub sealed_server : LogServer → LogServer
sealed_server s = record s { is_sealed = true }

pub seal_uniform :
    (b : Bool) (s : LogServer) (n : ℕ) (p : LogPos)
    → IsBelow p s
    → 0 < n
    → 1 ≤ p
    → seal (uniform b s n p) ≡ (ok p, uniform true (sealed_server s) n p)
unfolding seal fan_out_seal serve sequence conclude
seal_uniform b s n p h some_server from =
    let c = count_sealed-replicate n 0 log_pos_begin s.tail p from h.tail_le in
    let enough : ltb (0 + n) (n / 2 + 1) ≡ false = ground arith in
    rw (fan_out-replicate LogServerRequest.seal n s) (
      rw (c.0) (
        rw enough
          (ap (λ (m : LogPos). (ok m, uniform true (sealed_server s) n p)) (omega (arith, c.1)))))
