-- ===== src/Log/NativeLoglet/Quorum.antt =====
-- What `append` has done when it returns a position, whatever state each log server's task is in.
use relos.Prelude.{
  ℕ, suc, ◌+◌, ◌≤◌, ◌≡◌, ◌≢◌, refl, sym, subst, ◌∙◌, Bool, Option, none, some, List, [], ◌∷◌, arith,
  leb, Bool-cases, inl, inr, All, true, false,
}
use relos.Core.{and_then, continue, sealed, ok_inj, LogPos, Entry, Result, ok, err, panic}
use relos.Log.NativeLoglet.{
  LogServer, LogServerRequest, LogServerReply, stored, closed, result, done, serve, entry_at,
}
use relos.Log.NativeLoglet.SequencerHandle
use relos.Log.NativeLoglet.SequencerHandle.{SequencerTask, answering, dropping_replies, ended}
use relos.Log.NativeLoglet.Operations.{
  refuse_sealed, NativeLoglet, LogServerHandle, running, dropping, gone, fan_out, fan_out_store,
  count_acks, without_quorum, acknowledge, append_at, append,
}
use relos.Log.NativeLoglet.WriteOnce.{stored-there}

abbrev pub IsFree : LogPos → LogServerHandle → Type 0
IsFree p (running s) = entry_at p s.entries ≡ none
IsFree p dropping = Unit
IsFree p gone = Unit

abbrev pub Holds : LogPos → Entry → LogServerHandle → Type 0
Holds p e (running s) = entry_at p s.entries ≡ some e
Holds p e dropping = ⊥
Holds p e gone = ⊥

-- At least so many servers of the list hold the entry.
pub data AtLeast (p : LogPos) (e : Entry) : ℕ → List LogServerHandle → Type 0 where
  all_seen : AtLeast p e 0 []
  skipped :
      {k : ℕ} {h : LogServerHandle} {hs : List LogServerHandle}
      → AtLeast p e k hs
      → AtLeast p e k (h ∷ hs)
  counted :
      {k : ℕ} {h : LogServerHandle} {hs : List LogServerHandle}
      → Holds p e h
      → AtLeast p e k hs
      → AtLeast p e (suc k) (h ∷ hs)

-- As many servers hold the entry as replies are counted.
abbrev Backed : LogPos → Entry → List (Option LogServerReply) → List LogServerHandle → Type 0
Backed p e rs hs =
    (a : ℕ) (t : Option LogPos) → (k : ℕ) × ((count_acks a t rs).0 ≡ a + k) × AtLeast p e k hs

counted-Backed :
    (p : LogPos) (e : Entry) (r : LogServerReply) (h : LogServerHandle)
    (rs : List (Option LogServerReply)) (hs : List LogServerHandle)
    → ((b : Bool) → r ≡ stored b → Holds p e h)
    → Backed p e rs hs
    → Backed p e (some r ∷ rs) (h ∷ hs)
unfolding count_acks
counted-Backed p e (stored b) h rs hs held rest a t =
    let (k, is, at) = rest (suc a) t in (suc k, is ∙ omega arith, counted (held b refl) at)
counted-Backed p e (closed q) h rs hs held rest a t =
    let (k, is, at) = rest a (some q) in (k, is, skipped at)
counted-Backed p e (result x) h rs hs held rest a t =
    let (k, is, at) = rest a t in (k, is, skipped at)
counted-Backed p e (LogServerReply.tail_at q) h rs hs held rest a t =
    let (k, is, at) = rest a t in (k, is, skipped at)
counted-Backed p e done h rs hs held rest a t = let (k, is, at) = rest a t in (k, is, skipped at)

serve-Holds :
    (p : LogPos) (e : Entry) (s : LogServer) (b : Bool)
    → entry_at p s.entries ≡ none
    → (serve (LogServerRequest.store p e) s).0 ≡ stored b
    → entry_at p (serve (LogServerRequest.store p e) s).1.entries ≡ some e
unfolding serve
serve-Holds p e s b free h = elim (Bool-cases s.is_sealed) [
  | inl c ↦ let h' = simp c at h in absurd (cc)
  | inr o ↦ stored-there p e s (rw (o, free) refl)
]

joined-Backed :
    (p : LogPos) (e : Entry) (x : Option LogServerReply) (h : LogServerHandle)
    (r : Result (List (Option LogServerReply))) (hs : List LogServerHandle)
    (rs : List (Option LogServerReply))
    → and_then r (λ replies. ok (x ∷ replies)) ≡ ok rs
    → ((ys : List (Option LogServerReply)) → r ≡ ok ys → Backed p e (x ∷ ys) (h ∷ hs))
    → Backed p e rs (h ∷ hs)
joined-Backed p e x h (ok ys) hs rs is held =
    subst (λ (l : List (Option LogServerReply)). Backed p e l (h ∷ hs)) (ok_inj is) (held ys refl)
joined-Backed p e x h (err y) hs rs is held = cc
joined-Backed p e x h (panic m) hs rs is held = cc

fan_out-Backed :
    (p : LogPos) (e : Entry) (hs : List LogServerHandle) (rs : List (Option LogServerReply))
    → All (IsFree p) hs
    → (fan_out (LogServerRequest.store p e) hs).0 ≡ ok rs
    → Backed p e rs (fan_out (LogServerRequest.store p e) hs).1
unfolding fan_out count_acks
fan_out-Backed p e [] rs f h =
    subst (λ (l : List (Option LogServerReply)). Backed p e l []) (ok_inj h)
      (λ a t. (0, omega arith, all_seen))
fan_out-Backed p e (running s ∷ hs) rs f h = joined-Backed p e _ _ _ _ rs h (λ ys is.
    counted-Backed p e (serve (LogServerRequest.store p e) s).0 _ ys _
      (λ b. serve-Holds p e s b f.0) (fan_out-Backed p e hs ys f.1 is))
fan_out-Backed p e (dropping ∷ hs) rs f h =
    joined-Backed p e _ _ _ _ rs h
      (λ ys is a t. let (k, eq, at) = fan_out-Backed p e hs ys f.1 is a t in (k, eq, skipped at))
fan_out-Backed p e (gone ∷ hs) rs f h = cc

-- The end of an append that returns a position.
pub without_quorum-none :
    (o : Option LogPos) (l : NativeLoglet) (pos : LogPos) → (without_quorum o l).0 ≡ ok pos → ⊥
without_quorum-none (some t) l pos h = cc
without_quorum-none none l pos h = cc

abbrev Durable : LogPos → LogPos → Entry → ℕ → List LogServerHandle → Type 0
Durable pos pos' e n hs = (pos' ≡ pos) × ((k : ℕ) × (n ≤ k) × AtLeast pos e k hs)

acknowledge-Durable :
    (pos pos' : LogPos) (e : Entry) (rs : List (Option LogServerReply)) (l : NativeLoglet)
    → Backed pos e rs l.log_servers
    → (acknowledge pos (count_acks 0 none rs) l).0 ≡ ok pos'
    → Durable pos pos' e l.quorum_size (acknowledge pos (count_acks 0 none rs) l).1.log_servers
unfolding acknowledge
acknowledge-Durable pos pos' e rs l held h =
    let (k, is, at) = held 0 none in
    elim (Bool-cases (leb l.quorum_size (count_acks 0 none rs).0)) [
      | inl enough ↦
          let same = ok_inj (rw enough at h) in
          rw enough (sym same, (k, ground (arith, is, enough), at))
      | inr few ↦ absurd (without_quorum-none (count_acks 0 none rs).1 l pos' (rw few at h))
    ]

append_at-Durable :
    (e : Entry) (p pos : LogPos) (l : NativeLoglet)
    → All (IsFree p) l.log_servers
    → (append_at e (some p) l).0 ≡ ok pos
    → Durable p pos e l.quorum_size (append_at e (some p) l).1.log_servers
unfolding append_at fan_out_store
append_at-Durable e p pos l f h =
    go (fan_out (LogServerRequest.store p e) l.log_servers).0 h
      (λ ys. fan_out-Backed p e l.log_servers ys f)
  where
    go :
        (r : Result (List (Option LogServerReply)))
        → (continue r
            (λ replies. acknowledge p (count_acks 0 none replies))
            (record l { log_servers = (fan_out (LogServerRequest.store p e) l.log_servers).1 })).0
          ≡ ok pos
        → ((ys : List (Option LogServerReply))
            → r ≡ ok ys
            → Backed p e ys (fan_out (LogServerRequest.store p e) l.log_servers).1)
        → Durable p pos e l.quorum_size
            (continue r
              (λ replies. acknowledge p (count_acks 0 none replies))
              (record l {
                log_servers = (fan_out (LogServerRequest.store p e) l.log_servers).1;
              })).1.log_servers
    go (ok ys) h' held = acknowledge-Durable p pos e ys _ (held ys refl) h'
    go (err x) h' held = cc
    go (panic m) h' held = cc

refuse_sealed-not_ok : (l : NativeLoglet) (pos : LogPos) → refuse_sealed l ≢ ok pos
refuse_sealed-not_ok l pos h = go l.sequencer_task h
  where
    go :
        (task : SequencerTask)
        → (and_then (SequencerHandle.check_tail task l.sequencer) λ tail. err (sealed tail))
          ≢ ok pos
    go answering h' = cc
    go dropping_replies h' = cc
    go ended h' = cc

unassigned-not_ok : (e : Entry) (l : NativeLoglet) (pos : LogPos) → (append_at e none l).0 ≢ ok pos
unfolding append_at
unassigned-not_ok e l pos h = refuse_sealed-not_ok l pos h

-- The part of an append that follows the flag.
asked-Durable :
    (task : SequencerTask) (e : Entry) (l : NativeLoglet) (pos : LogPos)
    → All (IsFree l.sequencer.next_pos) l.log_servers
    → let (r, q) = SequencerHandle.next_pos task l.sequencer in
      let after = continue r (λ p l'. append_at e p l') (record l { sequencer = q }) in
      after.0 ≡ ok pos → Durable l.sequencer.next_pos pos e l.quorum_size after.1.log_servers
asked-Durable answering e l pos f h' = elim (Bool-cases l.sequencer.is_sealed) [
  | inl c ↦ absurd (
      unassigned-not_ok e (record l { sequencer = record l.sequencer { is_sealed = true } }) pos
        (rw c at h'))
  | inr o' ↦ rw o' (append_at-Durable e l.sequencer.next_pos pos _ f (rw o' at h'))
]
asked-Durable dropping_replies e l pos f h' = cc
asked-Durable ended e l pos f h' = cc

-- An append that returns a position has its entry there on a quorum of the log servers at least,
-- though any of them may have been sealed, may have dropped its reply or may be gone by then. (No
-- server held anything at the position, which is the next one of the sequencer.)
pub append_durable :
    (e : Entry) (l : NativeLoglet) (pos : LogPos)
    → All (IsFree l.sequencer.next_pos) l.log_servers
    → (append e l).0 ≡ ok pos
    → (pos ≡ l.sequencer.next_pos)
      × ((k : ℕ) × (l.quorum_size ≤ k)
          × AtLeast l.sequencer.next_pos e k (append e l).1.log_servers)
unfolding append
append_durable e l pos f h = elim (Bool-cases l.is_sealed) [
  | inl c ↦ absurd (refuse_sealed-not_ok (record l { is_sealed = true }) pos (rw c at h))
  | inr o ↦
      rw o (asked-Durable l.sequencer_task e (record l { is_sealed = false }) pos f (rw o at h))
]
