-- ===== src/Log/NativeLoglet/Sealing.antt =====
-- Quorums meet: what a seal that has returned means for the appends whose stores come after it.
use relos.Prelude.{
  ℕ, suc, ◌+◌, ◌<◌, ◌≤◌, ◌≡◌, ◌≢◌, refl, ap, subst, true, false, Option, none, some, List, [], ◌∷◌,
  arith, leb, ltb, Bool-cases, Option-cases, inl, inr, length, if◌then◌else◌,
}
use relos.Core.{LogPos, log_pos_begin, Entry, Result, ok, err, panic, and_then, continue, ok_inj}
use relos.Log.NativeLoglet.{
  Sequencer, SequencerRequest, sequence, LogServer, LogServerRequest, LogServerReply, serve,
  entry_at, sequence,
}
use relos.Log.NativeLoglet.SequencerHandle
use relos.Log.NativeLoglet.SequencerHandle.{SequencerTask, answering, dropping_replies, ended}
use relos.Log.NativeLoglet.Operations.{
  NativeLoglet, LogServerHandle, running, dropping, gone, fan_out, fan_out_store, fan_out_seal,
  count_acks, count_sealed, conclude, acknowledge, append_at, seal,
}
use relos.Log.NativeLoglet.Quorum.{without_quorum-none}

-- How many of the servers are sealed.
abbrev pub sealed_servers : List LogServerHandle → ℕ
sealed_servers [] = 0
sealed_servers (running s ∷ hs) = (if s.is_sealed then 1 else 0) + sealed_servers hs
sealed_servers (dropping ∷ hs) = sealed_servers hs
sealed_servers (gone ∷ hs) = sealed_servers hs

-- No more servers acknowledge a store than are not sealed.
abbrev FewAcks : List (Option LogServerReply) → List LogServerHandle → Type 0
FewAcks rs hs =
    (a : ℕ) (t : Option LogPos) → (count_acks a t rs).0 + sealed_servers hs ≤ a + length hs

serve-FewAcks :
    (p : LogPos) (e : Entry) (s : LogServer) (rs : List (Option LogServerReply))
    (hs : List LogServerHandle)
    → FewAcks rs hs
    → FewAcks (some (serve (LogServerRequest.store p e) s).0 ∷ rs) (running s ∷ hs)
unfolding serve count_acks
serve-FewAcks p e s rs hs rest a t = elim (Bool-cases s.is_sealed) [
  | inl c ↦ rw c (let h = rest a (some s.tail) in omega (arith, h))
  | inr o ↦ elim (Option-cases (entry_at p s.entries)) [
    | inl free ↦ rw (o, free) (let h = rest (suc a) t in omega (arith, h))
    | inr (x, taken) ↦ rw (o, taken) (let h = rest (suc a) t in omega (arith, h))
  ]
]

-- A fan-out that returns has the replies of the servers after the first in front of those.
joined :
    (P : List (Option LogServerReply) → Type 0) (x : Option LogServerReply)
    (r : Result (List (Option LogServerReply))) (rs : List (Option LogServerReply))
    → and_then r (λ replies. ok (x ∷ replies)) ≡ ok rs
    → ((ys : List (Option LogServerReply)) → r ≡ ok ys → P (x ∷ ys))
    → P rs
joined P x (ok ys) rs is held = subst P (ok_inj is) (held ys refl)
joined P x (err y) rs is held = cc
joined P x (panic m) rs is held = cc

fan_out-FewAcks :
    (p : LogPos) (e : Entry) (hs : List LogServerHandle) (rs : List (Option LogServerReply))
    → (fan_out (LogServerRequest.store p e) hs).0 ≡ ok rs
    → FewAcks rs hs
unfolding fan_out count_acks
fan_out-FewAcks p e [] rs h =
    subst (λ (l : List (Option LogServerReply)). FewAcks l []) (ok_inj h) (λ a t. omega arith)
fan_out-FewAcks p e (running s ∷ hs) rs h =
    joined (λ l. FewAcks l (running s ∷ hs)) _ _ rs h
      (λ ys is. serve-FewAcks p e s ys hs (fan_out-FewAcks p e hs ys is))
fan_out-FewAcks p e (dropping ∷ hs) rs h =
    joined (λ l. FewAcks l (dropping ∷ hs)) _ _ rs h
      (λ ys is a t. let few = fan_out-FewAcks p e hs ys is a t in omega (arith, few))
fan_out-FewAcks p e (gone ∷ hs) rs h = cc

-- A server that has answered a seal is sealed.
abbrev AllSealed : List (Option LogServerReply) → List LogServerHandle → Type 0
AllSealed rs hs = (a : ℕ) (m : LogPos) → (count_sealed a m rs).0 ≤ a + sealed_servers hs

fan_out-AllSealed :
    (hs : List LogServerHandle) (rs : List (Option LogServerReply))
    → (fan_out LogServerRequest.seal hs).0 ≡ ok rs
    → AllSealed rs (fan_out LogServerRequest.seal hs).1
unfolding fan_out count_sealed serve
fan_out-AllSealed [] rs h =
    subst (λ (l : List (Option LogServerReply)). AllSealed l []) (ok_inj h) (λ a m. omega arith)
fan_out-AllSealed (running s ∷ hs) rs h =
    joined
      (λ l.
        AllSealed l
          (running (record s { is_sealed = true }) ∷ (fan_out LogServerRequest.seal hs).1))
      _ _ rs h
      (λ ys is a m.
        let all = fan_out-AllSealed hs ys is (suc a) (if ltb m s.tail then s.tail else m) in
        omega (arith, all))
fan_out-AllSealed (dropping ∷ hs) rs h =
    joined (λ l. AllSealed l (dropping ∷ (fan_out LogServerRequest.seal hs).1)) _ _ rs h
      (λ ys is a m. fan_out-AllSealed hs ys is a m)
fan_out-AllSealed (gone ∷ hs) rs h = cc

length-fan_out :
    (q : LogServerRequest) (hs : List LogServerHandle) → length (fan_out q hs).1 ≡ length hs
unfolding fan_out
length-fan_out q [] = refl
length-fan_out q (running s ∷ hs) = ap suc (length-fan_out q hs)
length-fan_out q (dropping ∷ hs) = ap suc (length-fan_out q hs)
length-fan_out q (gone ∷ hs) = refl

too_few :
    (p pos : LogPos) (ys : List (Option LogServerReply)) (hs : List LogServerHandle)
    (l : NativeLoglet)
    → length hs < l.quorum_size + l.quorum_size
    → l.quorum_size ≤ sealed_servers hs
    → FewAcks ys hs
    → (acknowledge p (count_acks 0 none ys) l).0 ≢ ok pos
unfolding acknowledge
too_few p pos ys hs l meet enough acks h =
    let bound = acks 0 none in
    let below : leb l.quorum_size (count_acks 0 none ys).0 ≡ false =
      ground (arith, bound, meet, enough) in
    without_quorum-none (count_acks 0 none ys).1 l pos (rw below at h)

-- While a quorum of the servers is sealed and two quorums meet, no append is acknowledged.
refused :
    (e : Entry) (p pos : LogPos) (l : NativeLoglet)
    → length l.log_servers < l.quorum_size + l.quorum_size
    → l.quorum_size ≤ sealed_servers l.log_servers
    → (append_at e (some p) l).0 ≢ ok pos
unfolding append_at fan_out_store
refused e p pos l meet enough h =
    go (fan_out (LogServerRequest.store p e) l.log_servers).0 h
      (λ ys. fan_out-FewAcks p e l.log_servers ys)
  where
    go :
        (r : Result (List (Option LogServerReply)))
        → (continue r
            (λ replies. acknowledge p (count_acks 0 none replies))
            (record l { log_servers = (fan_out (LogServerRequest.store p e) l.log_servers).1 })).0
          ≡ ok pos
        → ((ys : List (Option LogServerReply)) → r ≡ ok ys → FewAcks ys l.log_servers)
        → ⊥
    go (ok ys) h' acks = too_few p pos ys l.log_servers _ meet enough (acks ys refl) h'
    go (err x) h' acks = cc
    go (panic m) h' acks = cc

-- A seal that returns has sealed a quorum.
record HasSealed (l l' : NativeLoglet) : Type 0 where
  size_same : l'.quorum_size ≡ l.quorum_size
  length_same : length l'.log_servers ≡ length l.log_servers
  quorum_sealed : l.quorum_size ≤ sealed_servers l'.log_servers

conclude-HasSealed :
    (p tail : LogPos) (ys : List (Option LogServerReply)) (l l' : NativeLoglet)
    → l'.quorum_size ≡ l.quorum_size
    → length l'.log_servers ≡ length l.log_servers
    → AllSealed ys l'.log_servers
    → (conclude p (count_sealed 0 log_pos_begin ys) l').0 ≡ ok tail
    → HasSealed l (conclude p (count_sealed 0 log_pos_begin ys) l').1
unfolding conclude
conclude-HasSealed p tail ys l l' size len all h =
    let bound = all 0 log_pos_begin in
    elim (Bool-cases (ltb (count_sealed 0 log_pos_begin ys).0 l'.quorum_size)) [
      | inl few ↦ let h' = rw few at h in absurd (cc)
      | inr enough ↦ rw enough (record {
        size_same = size;
        length_same = len;
        quorum_sealed = ground (arith, bound, enough, size);
      })
    ]

-- The part of a seal that follows the sequencer's reply.
servers-HasSealed :
    (l : NativeLoglet) (q : Sequencer) (p tail : LogPos)
    → let (rs, l') = fan_out_seal (record l { sequencer = q }) in
      let done = continue rs (λ replies. conclude p (count_sealed 0 log_pos_begin replies)) l' in
      done.0 ≡ ok tail → HasSealed l done.1
unfolding fan_out_seal
servers-HasSealed l q p tail h =
    go (fan_out LogServerRequest.seal l.log_servers).0 h (λ ys. fan_out-AllSealed l.log_servers ys)
  where
    sealing : NativeLoglet
    sealing = record l {
      sequencer = q;
      log_servers = (fan_out LogServerRequest.seal l.log_servers).1;
    }

    go :
        (r : Result (List (Option LogServerReply)))
        → (continue r (λ replies. conclude p (count_sealed 0 log_pos_begin replies)) sealing).0
          ≡ ok tail
        → ((ys : List (Option LogServerReply))
            → r ≡ ok ys
            → AllSealed ys (fan_out LogServerRequest.seal l.log_servers).1)
        → HasSealed l
            (continue r (λ replies. conclude p (count_sealed 0 log_pos_begin replies)) sealing).1
    go (ok ys) h' all =
        conclude-HasSealed p tail ys l sealing refl
          (length-fan_out LogServerRequest.seal l.log_servers) (all ys refl) h'
    go (err x) h' all = cc
    go (panic m) h' all = cc

seal-HasSealed : (l : NativeLoglet) (tail : LogPos) → (seal l).0 ≡ ok tail → HasSealed l (seal l).1
unfolding seal
seal-HasSealed l tail h = go l.sequencer_task h
  where
    go :
        (task : SequencerTask)
        → let (r, q) = SequencerHandle.seal task l.sequencer in
          let done =
            continue r
              (λ p l₁.
                let (rs, l') = fan_out_seal l₁ in
                continue rs (λ replies. conclude p (count_sealed 0 log_pos_begin replies)) l')
              (record l { sequencer = q }) in
          done.0 ≡ ok tail → HasSealed l done.1
    go answering h' =
        servers-HasSealed l (sequence SequencerRequest.seal l.sequencer).1 l.sequencer.next_pos tail
          h'
    go dropping_replies h' = cc
    go ended h' = cc

-- An append whose store requests are all handled after a seal has returned is not acknowledged,
-- also if it was given its position before the seal: the quorum that the seal has reached meets
-- every other, though not all servers need answer. (Twice the quorum is more than there are
-- servers, as it is in a new loglet.)
pub seal_stops_appends :
    (l : NativeLoglet) (tail : LogPos) (e : Entry) (p pos : LogPos)
    → length l.log_servers < l.quorum_size + l.quorum_size
    → (seal l).0 ≡ ok tail
    → (append_at e (some p) (seal l).1).0 ≢ ok pos
seal_stops_appends l tail e p pos meet h =
    let s = seal-HasSealed l tail h in
    refused e p pos (seal l).1 (omega (arith, s.size_same, s.length_same, meet))
      (omega (arith, s.size_same, s.quorum_sealed))
