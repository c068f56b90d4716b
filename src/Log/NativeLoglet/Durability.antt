-- ===== src/Log/NativeLoglet/Durability.antt =====
-- What a client may rely on once a log server has answered its store, under any interleaving.
use relos.Prelude.{
  ℕ, zero, suc, ◌+◌, ◌<◌, ◌≤◌, ◌≡◌, refl, subst, ◌∙◌, Bool, true, Option, some, List, [], ◌∷◌,
  arith, ◌==◌, Bool-cases, Option-cases, inl, inr, ltb, ◌⊎◌,
}
use relos.Core.{LogPos, Entry, Result, ok, err}
use relos.Core
use relos.Log.NativeLoglet.{
  LogServer, LogServerRequest, stored, serve, entry_at, read_at, ReadResult, entry, trimmed,
  not_found,
}
use relos.Log.NativeLoglet.Operations.{LogServerHandle, running, read_from, or_next}
use relos.Log.NativeLoglet.WriteOnce.{Kept, read_at-Kept, stored-there}
use relos.Log.NativeLoglet.Cluster.{Cluster, start, served, store, Reach}
use relos.Log.NativeLoglet.Agreement.{IsFaithful, Reach-IsFaithful, Step-IsFaithful}
use relos.Log.NativeLoglet.Safety.{Acknowledged, Reach-Acknowledged}

-- The servers from the k-th on as a read meets them, each at its own moment.
abbrev pub tasks : (ℕ → Cluster) → ℕ → ℕ → List LogServerHandle
tasks at k zero = []
tasks at k (suc n) = running ((at k).servers k) ∷ tasks at (suc k) n

-- A server that answers a store holds the entry from then on, whether it was there or not.
stored-Kept :
    (i : ℕ) (p : LogPos) (e : Entry) (b : Bool) (s : Cluster)
    → IsFaithful s
    → s.sent p ≡ some e
    → (serve (LogServerRequest.store p e) (s.servers i)).0 ≡ stored b
    → entry_at p (serve (LogServerRequest.store p e) (s.servers i)).1.entries ≡ some e
unfolding serve
stored-Kept i p e b s f sent h = elim (Bool-cases (s.servers i).is_sealed) [
  | inl c ↦ let h' = simp c at h in absurd (cc)
  | inr o ↦ elim (Option-cases (entry_at p (s.servers i).entries)) [
    | inr (x, taken) ↦ rw (o, taken) (cc (taken, f.holds_sent i p x taken, sent))
    | inl free ↦ stored-there p e (s.servers i) (rw (o, free) refl)
  ]
]

after-Acknowledged :
    (i : ℕ) (p : LogPos) (e : Entry) (b : Bool) (s : Cluster)
    → IsFaithful s
    → s.sent p ≡ some e
    → (serve (LogServerRequest.store p e) (s.servers i)).0 ≡ stored b
    → Acknowledged i p e (served i (LogServerRequest.store p e) s)
after-Acknowledged i p e b s f sent h = record {
  faithful = Step-IsFaithful (store i p e sent refl) f;
  sent = sent;
  kept =
      let same : (i == i) ≡ true = ground arith in rw same (inr (stored-Kept i p e b s f sent h));
}

abbrev IsAnswer : LogPos → Entry → Result (Option Entry) → Type 0
IsAnswer p e r = (r ≡ ok (some e)) ⊎ (r ≡ err (Core.trimmed p))

read_at-entry :
    (p : LogPos) (s : LogServer) (x : Entry) → read_at p s ≡ entry x → entry_at p s.entries ≡ some x
unfolding read_at
read_at-entry p s x h = elim (Bool-cases (ltb p s.trim_pos)) [
  | inl below ↦ let h' = simp below at h in absurd (cc)
  | inr above ↦ elim (Option-cases (entry_at p s.entries)) [
    | inl free ↦ let h' = simp (above, free) at h in absurd (cc)
    | inr (y, there) ↦ let h' = simp (above, there) at h in there ∙ cc
  ]
]

-- A server of a faithful state, met before one that is known to keep the entry.
or_next-IsAnswer :
    (j : ℕ) (p : LogPos) (e : Entry) (s : Cluster) (r : ReadResult) (rest : Result (Option Entry))
    → IsFaithful s
    → s.sent p ≡ some e
    → read_at p (s.servers j) ≡ r
    → IsAnswer p e rest
    → IsAnswer p e (or_next p r rest)
or_next-IsAnswer j p e s (entry x) rest f sent h k =
    let held = f.holds_sent j p x (read_at-entry p (s.servers j) x h) in inl (cc)
or_next-IsAnswer j p e s trimmed rest f sent h k = inr refl
or_next-IsAnswer j p e s not_found rest f sent h k = k

or_next-Kept :
    (p : LogPos) (e : Entry) (s : LogServer) (rest : Result (Option Entry))
    → Kept p e s
    → IsAnswer p e (or_next p (read_at p s) rest)
or_next-Kept p e s rest h = elim (read_at-Kept p e s h) [
  | inl gone ↦ rw gone (inr refl)
  | inr held ↦ rw held (inl refl)
]

read_from-tasks :
    (at : ℕ → Cluster) (i k n : ℕ) (p : LogPos) (e : Entry)
    → ((j : ℕ) → Acknowledged i p e (at j))
    → k ≤ i
    → i < k + n
    → IsAnswer p e (read_from p (tasks at k n))
unfolding read_from
read_from-tasks at i k zero p e a le lt = absurd (omega arith)
read_from-tasks at i k (suc n) p e a le lt = elim (Bool-cases (k == i)) [
  | inl same ↦
      let is : i ≡ k = ground arith in
      or_next-Kept p e ((at k).servers k) _
        (subst (λ (m : ℕ). Kept p e ((at k).servers m)) is (a k).kept)
  | inr other ↦
      or_next-IsAnswer k p e (at k) (read_at p ((at k).servers k)) _ (a k).faithful (a k).sent refl
        (read_from-tasks at i (suc k) n p e a (ground arith) (ground arith))
]

-- Once any of the n log servers has answered the store of an appended entry, whether it was new to
-- that server or not, a read of its position returns that entry or says that it has been trimmed,
-- whatever steps the tasks take before the read meets each server, if all servers answer the read.
pub read_acknowledged :
    (s : Cluster) (at : ℕ → Cluster) (i n : ℕ) (p : LogPos) (e : Entry) (b : Bool)
    → Reach start s
    → s.sent p ≡ some e
    → (serve (LogServerRequest.store p e) (s.servers i)).0 ≡ stored b
    → ((j : ℕ) → Reach (served i (LogServerRequest.store p e) s) (at j))
    → i < n
    → (read_from p (tasks at 0 n) ≡ ok (some e))
      ⊎ (read_from p (tasks at 0 n) ≡ err (Core.trimmed p))
read_acknowledged s at i n p e b r sent answer later lt =
    let a = after-Acknowledged i p e b s (Reach-IsFaithful r) sent answer in
    read_from-tasks at i 0 n p e (λ j. Reach-Acknowledged i p e (later j) a) (omega arith)
      (omega arith)
