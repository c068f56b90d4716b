-- ===== src/Log/NativeLoglet/Schedules.antt =====
-- The operations of NativeLoglet/Operations against the steps of the tasks in NativeLoglet/Cluster.
use relos.Prelude.{
  ℕ, zero, suc, ◌+◌, ◌<◌, ◌^◌, ◌≡◌, refl, ap, ap₂, sym, subst, ◌∙◌, Bool, true, false, Option, none,
  some, List, [], ◌∷◌, arith, leb, ltb, Bool-cases, inl, inr, ◌==◌,
}
use relos.Core.{LogPos, log_pos_begin, Entry, Result, ok, err, panic, continue}
use relos.Log.NativeLoglet.{
  Sequencer, SequencerRequest, assign, sequence, LogServer, LogServerRequest, LogServerReply, serve,
}
use relos.Log.NativeLoglet.SequencerHandle.{answering}
use relos.Log.NativeLoglet.Operations.{
  NativeLoglet, LogServerHandle, running, fan_out, fan_out_store, fan_out_seal, fan_out_trim,
  count_acks, count_sealed, without_quorum, acknowledge, append_at, append, all_done, trim,
  conclude, seal,
}
use relos.Log.NativeLoglet.Cluster.{Cluster, noted, assigned_to, served, Step, Reach, here, next}
use relos.Log.NativeLoglet.Agreement.{update_ne, assign-sealed}

Reach-trans : {s t u : Cluster} → Reach s t → Reach t u → Reach s u
Reach-trans r here = r
Reach-trans r (next q st) = next (Reach-trans r q) st

-- The handles of the servers from the k-th on.
abbrev pub handles : (ℕ → LogServer) → ℕ → ℕ → List LogServerHandle
handles servers k zero = []
handles servers k (suc n) = running (servers k) ∷ handles servers (suc k) n

-- The loglet whose sequencer and n log servers are those of a cluster.
abbrev pub loglet_of : ℕ → ℕ → Bool → Cluster → NativeLoglet
loglet_of n quorum_size is_sealed s = record {
  sequencer_task = answering;
  sequencer = s.sequencer;
  log_servers = handles s.servers 0 n;
  quorum_size = quorum_size;
  is_sealed = is_sealed;
}

served_self :
    (i : ℕ) (q : LogServerRequest) (s : Cluster)
    → (served i q s).servers i ≡ (serve q (s.servers i)).1
served_self i q s = let same : (i == i) ≡ true = ground arith in rw same refl

handles-served :
    (i k n : ℕ) (q : LogServerRequest) (s : Cluster)
    → i < k
    → handles (served i q s).servers k n ≡ handles s.servers k n
handles-served i k zero q s lt = refl
handles-served i k (suc n) q s lt =
    ap₂ (λ a hs. running a ∷ hs) (update_ne s.servers i (serve q (s.servers i)).1 k (inl lt))
      (handles-served i (suc k) n q s (omega arith))

-- What a fan-out over the servers from the k-th on leaves: a state that its requests lead to.
record FannedOut (q : LogServerRequest) (k n : ℕ) (s t : Cluster) : Type 0 where
  reached : Reach s t
  sequencer_same : t.sequencer ≡ s.sequencer
  before : (j : ℕ) → j < k → t.servers j ≡ s.servers j
  after : (fan_out q (handles s.servers k n)).1 ≡ handles t.servers k n

fan_out-FannedOut :
    (q : LogServerRequest) (sent : LogPos → Option Entry)
    → ((i : ℕ) (s : Cluster) → s.sent ≡ sent → Step s (served i q s))
    → (n k : ℕ) (s : Cluster) → s.sent ≡ sent
    → (t : Cluster) × FannedOut q k n s t
unfolding fan_out
fan_out-FannedOut q sent step zero k s is =
    (s, record { reached = here; sequencer_same = refl; before = λ j lt. refl; after = refl })
fan_out-FannedOut q sent step (suc n) k s is =
    let s₁ = served k q s in
    let (t, f) = fan_out-FannedOut q sent step n (suc k) s₁ is in
    (
      t,
      record {
        reached = Reach-trans (next here (step k s is)) f.reached;
        sequencer_same = f.sequencer_same;
        before = λ j lt.
            f.before j (omega (arith, lt))
            ∙ update_ne s.servers k (serve q (s.servers k)).1 j (inr lt);
        after =
            ap₂ (λ a hs. running a ∷ hs) (sym (f.before k (omega arith) ∙ served_self k q s))
              (ap (λ hs. (fan_out q hs).1) (sym (handles-served k (suc k) n q s (omega arith)))
                ∙ f.after);
      },
    )

-- The end of an operation may set the loglet's flag, and leaves the rest as it is.
abbrev OnlyFlag : {A : Type 0} → NativeLoglet → Result A × NativeLoglet → Type 0
OnlyFlag l r = (b : Bool) × (r.1 ≡ record l { is_sealed = b })

without_quorum-OnlyFlag : (o : Option LogPos) (l : NativeLoglet) → OnlyFlag l (without_quorum o l)
without_quorum-OnlyFlag (some tail) l = (true, refl)
without_quorum-OnlyFlag none l = (l.is_sealed, refl)

acknowledge-OnlyFlag :
    (p : LogPos) (acks : ℕ × Option LogPos) (l : NativeLoglet) → OnlyFlag l (acknowledge p acks l)
unfolding acknowledge
acknowledge-OnlyFlag p acks l = elim (Bool-cases (leb l.quorum_size acks.0)) [
  | inl enough ↦ rw enough (l.is_sealed, refl)
  | inr few ↦ rw few (without_quorum-OnlyFlag acks.1 l)
]

conclude-OnlyFlag :
    (p : LogPos) (counted : ℕ × LogPos) (l : NativeLoglet) → OnlyFlag l (conclude p counted l)
unfolding conclude
conclude-OnlyFlag p counted l = elim (Bool-cases (ltb counted.0 l.quorum_size)) [
  | inl few ↦ rw few (l.is_sealed, refl)
  | inr enough ↦ rw enough (true, refl)
]

continue-OnlyFlag :
    {A B : Type 0} (r : Result A) (f : A → NativeLoglet → Result B × NativeLoglet)
    (l : NativeLoglet)
    → ((a : A) → OnlyFlag l (f a l))
    → OnlyFlag l (continue r f l)
continue-OnlyFlag (ok a) f l h = h a
continue-OnlyFlag (err e) f l h = (l.is_sealed, refl)
continue-OnlyFlag (panic m) f l h = (l.is_sealed, refl)

-- An operation leaves the loglet of a cluster that its steps lead to.
abbrev pub IsSchedule : {A : Type 0} → ℕ → ℕ → Cluster → Result A × NativeLoglet → Type 0
IsSchedule n quorum_size s r =
    (t : Cluster) × (b : Bool) × Reach s t × (r.1 ≡ loglet_of n quorum_size b t)

fanned-IsSchedule :
    {A : Type 0} (q : LogServerRequest) (n quorum_size : ℕ) (b : Bool) (s₀ s : Cluster)
    (f : List (Option LogServerReply) → NativeLoglet → Result A × NativeLoglet)
    → Reach s₀ s
    → ((i : ℕ) (u : Cluster) → u.sent ≡ s.sent → Step u (served i q u))
    → ((replies : List (Option LogServerReply)) (l : NativeLoglet) → OnlyFlag l (f replies l))
    → let (r, hs) = fan_out q (handles s.servers 0 n) in
      IsSchedule n quorum_size s₀
        (continue r f (record (loglet_of n quorum_size b s) { log_servers = hs }))
fanned-IsSchedule q n quorum_size b s₀ s f from step flag =
    let (t, out) = fan_out-FannedOut q s.sent step n 0 s refl in
    let (b', is) =
      continue-OnlyFlag (fan_out q (handles s.servers 0 n)).0 f
        (record (loglet_of n quorum_size b s) {
          log_servers = (fan_out q (handles s.servers 0 n)).1;
        })
        (λ replies. flag replies _) in
    (
      t,
      b',
      Reach-trans from out.reached,
      is
          ∙ ap₂ (λ x hs. record (loglet_of n quorum_size b' s) { sequencer = x; log_servers = hs })
              (sym out.sequencer_same) out.after,
    )

assign-opened : (q : Sequencer) → q.is_sealed ≡ false → (assign q).0 ≡ some q.next_pos
assign-opened q o = ground (arith, o)

store-Step :
    (p : LogPos) (e : Entry) (s : Cluster)
    → s.sent p ≡ some e
    → (i : ℕ) (u : Cluster) → u.sent ≡ s.sent
    → Step u (served i (LogServerRequest.store p e) u)
store-Step p e s sent i u is =
    Step.store i p e (ap (λ (f : LogPos → Option Entry). f p) is ∙ sent) refl

append-IsSchedule :
    (e : Entry) (n quorum_size : ℕ) (b : Bool) (s : Cluster)
    → s.sequencer.next_pos + 1 < 2 ^ 64
    → IsSchedule n quorum_size s (append e (loglet_of n quorum_size b s))
unfolding append append_at fan_out_store
append-IsSchedule e n quorum_size true s room = (s, true, here, refl)
append-IsSchedule e n quorum_size false s room = elim (Bool-cases s.sequencer.is_sealed) [
  | inl c ↦
      let unassigned = assign-sealed s.sequencer c in
      subst
        (λ (r : Option LogPos × Sequencer).
          IsSchedule n quorum_size s
            (append_at e r.0 (record (loglet_of n quorum_size false s) { sequencer = r.1 })))
        (sym unassigned) (s, true, here, refl)
  | inr o ↦
      let p = s.sequencer.next_pos in
      let s₁ = assigned_to e s in
      let given = assign-opened s.sequencer o in
      let sent : s₁.sent p ≡ some e =
        ap (λ (r : Option LogPos). noted r e s.sent p) given
        ∙ (let same : (p == p) ≡ true = ground arith in rw same refl) in
      subst
        (λ (r : Option LogPos).
          IsSchedule n quorum_size s (append_at e r (loglet_of n quorum_size false s₁)))
        (sym given)
        (fanned-IsSchedule (LogServerRequest.store p e) n quorum_size false s s₁
          (λ replies. acknowledge p (count_acks 0 none replies))
          (next here (Step.next_pos e room refl)) (store-Step p e s₁ sent)
          (λ replies l. acknowledge-OnlyFlag p (count_acks 0 none replies) l))
]

-- Each operation of a native loglet whose servers all run, from its first message to its last
-- reply, is one of the orders in which the tasks may take their steps: what it leaves of the
-- sequencer and of the servers is a state that these steps reach from where it began. (The next
-- position fits in a word.)
pub operations_are_schedules :
    (n quorum_size : ℕ) (b : Bool) (s : Cluster)
    → s.sequencer.next_pos + 1 < 2 ^ 64
    → ((e : Entry) → IsSchedule n quorum_size s (append e (loglet_of n quorum_size b s)))
      × ((p : LogPos) → IsSchedule n quorum_size s (trim p (loglet_of n quorum_size b s)))
      × IsSchedule n quorum_size s (seal (loglet_of n quorum_size b s))
unfolding trim fan_out_trim seal fan_out_seal sequence
operations_are_schedules n quorum_size b s room = (
  λ e. append-IsSchedule e n quorum_size b s room,
  λ p.
      fanned-IsSchedule (LogServerRequest.trim p) n quorum_size b s s
        (λ replies l₁. (all_done replies, l₁)) here (λ i u is. Step.trim i p refl)
        (λ replies l. (l.is_sealed, refl)),
  let s₁ = record s { sequencer = (sequence SequencerRequest.seal s.sequencer).1 } in
      fanned-IsSchedule LogServerRequest.seal n quorum_size b s s₁
        (λ replies. conclude s.sequencer.next_pos (count_sealed 0 log_pos_begin replies))
        (next here (Step.seal_sequencer refl)) (λ i u is. Step.seal i refl)
        (λ replies l.
          conclude-OnlyFlag s.sequencer.next_pos (count_sealed 0 log_pos_begin replies) l),
)
