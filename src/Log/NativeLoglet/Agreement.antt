-- ===== src/Log/NativeLoglet/Agreement.antt =====
-- What holds whatever the order of the tasks' steps: the servers hold only what was sent to them.
use relos.Prelude.{
  ℕ, ◌+◌, ◌<◌, ◌≤◌, ◌^◌, ◌≡◌, refl, ap, ◌∙◌, true, false, Option, none, some, List, [], ◌∷◌, arith,
  ◌==◌, Bool-cases, Option-cases, inl, inr, ltb, ◌⊎◌, ==_iff,
}
use relos.Prelude.Words.{add64-eq}
use relos.Core.{LogPos, Entry}
use relos.Log.NativeLoglet.{
  Sequencer, assign, sequence, LogServer, LogServerRequest, serve, entry_at, remove_below,
}
use relos.Log.NativeLoglet.Cluster.{
  Cluster, start, update, noted, assigned_to, served, Step, next_pos, seal_sequencer, store, seal,
  trim, Reach, here, next,
}

-- The positions from the next one on are not assigned, and a server holds at a position only the
-- entry that it was assigned to.
pub record IsFaithful (s : Cluster) : Type 0 where
  pub unassigned : (p : LogPos) → s.sequencer.next_pos ≤ p → s.sent p ≡ none
  pub holds_sent :
      (i : ℕ) (p : LogPos) (e : Entry)
      → entry_at p (s.servers i).entries ≡ some e
      → s.sent p ≡ some e

start-IsFaithful : IsFaithful start
unfolding entry_at
start-IsFaithful = record { unassigned = λ p h. refl; holds_sent = λ i p e h. cc }

-- A request puts nothing into a server but the entry of a store.
entry_at-remove_below :
    (p q : LogPos) (m : List (LogPos × Entry)) (e : Entry)
    → entry_at p (remove_below q m) ≡ some e
    → q ≤ p
    → entry_at p m ≡ some e
unfolding entry_at remove_below
entry_at-remove_below p q [] e h le = h
entry_at-remove_below p q (x ∷ m) e h le = ground (arith, entry_at-remove_below p q m e)

entry_at-removed :
    (p q : LogPos) (m : List (LogPos × Entry)) → p < q → entry_at p (remove_below q m) ≡ none
unfolding entry_at remove_below
entry_at-removed p q [] lt = refl
entry_at-removed p q (x ∷ m) lt = ground (arith, entry_at-removed p q m lt)

pub kept_entry :
    (p q : LogPos) (m : List (LogPos × Entry)) (e : Entry)
    → entry_at p (remove_below q m) ≡ some e
    → entry_at p m ≡ some e
kept_entry p q m e h = elim (Bool-cases (ltb p q)) [
  | inl below ↦ cc (entry_at-removed p q m (ground arith), h)
  | inr above ↦ entry_at-remove_below p q m e h (ground arith)
]

entry_at-cons :
    (p q : LogPos) (e x : Entry) (m : List (LogPos × Entry))
    → entry_at q ((p, e) ∷ m) ≡ some x
    → (p ≡ q) × (e ≡ x) ⊎ (entry_at q m ≡ some x)
unfolding entry_at
entry_at-cons p q e x m h = elim (Bool-cases (p == q)) [
  | inl same ↦ let h' = simp same at h in inl ((==_iff p q).0 same, cc)
  | inr other ↦ inr (simp other at h)
]

serve_store-only :
    (p q : LogPos) (e x : Entry) (s : LogServer)
    → entry_at q (serve (LogServerRequest.store p e) s).1.entries ≡ some x
    → (p ≡ q) × (e ≡ x) ⊎ (entry_at q s.entries ≡ some x)
unfolding serve
serve_store-only p q e x s h = elim (Bool-cases s.is_sealed) [
  | inl c ↦ inr (simp c at h)
  | inr o ↦ elim (Option-cases (entry_at p s.entries)) [
    | inl free ↦ entry_at-cons p q e x s.entries (simp (o, free) at h)
    | inr (y, taken) ↦ inr (simp (o, taken) at h)
  ]
]

serve_trim-only :
    (p q : LogPos) (x : Entry) (s : LogServer)
    → entry_at q (serve (LogServerRequest.trim p) s).1.entries ≡ some x
    → entry_at q s.entries ≡ some x
unfolding serve
serve_trim-only p q x s h = elim (Bool-cases (ltb s.trim_pos p)) [
  | inl further ↦ kept_entry q p s.entries x (rw further at h)
  | inr no_further ↦ (rw no_further at h)
]

-- An update of a server, seen at any server.
served-holds :
    (i j : ℕ) (q : LogServerRequest) (s : Cluster) (p : LogPos) (e : Entry) {P : Type 0}
    → entry_at p ((served i q s).servers j).entries ≡ some e
    → (entry_at p (serve q (s.servers i)).1.entries ≡ some e → P)
    → (entry_at p (s.servers j).entries ≡ some e → P)
    → P
served-holds i j q s p e h at_i at_j = elim (Bool-cases (i == j)) [
  | inl same ↦ at_i (simp same at h)
  | inr other ↦ at_j (simp other at h)
]

pub update_ne :
    {A : Type 0} (f : ℕ → A) (i : ℕ) (a : A) (j : ℕ) → i < j ⊎ (j < i) → update f i a j ≡ f j
update_ne f i a j h = let other : (i == j) ≡ false = ground arith in rw other refl

-- A sealed sequencer gives no position.
pub assign-sealed : (q : Sequencer) → q.is_sealed ≡ true → assign q ≡ (none, q)
assign-sealed q c = ground (arith, c)

-- The sequencer gives its next position and moves on by one, or it gives none and stays.
next_pos-assign :
    (q : Sequencer)
    → q.next_pos + 1 < 2 ^ 64
    → ((assign q).0 ≡ some q.next_pos) × ((assign q).1.next_pos ≡ q.next_pos + 1)
      ⊎ ((assign q).0 ≡ none) × ((assign q).1 ≡ q)
next_pos-assign q b = elim (Bool-cases q.is_sealed) [
  | inl c ↦ rw c (inr (refl, refl))
  | inr o ↦ rw o (inl (refl, add64-eq q.next_pos 1 (omega arith)))
]

-- What is sent is below the next position.
pub sent-lt :
    (s : Cluster) (p : LogPos) (e : Entry)
    → IsFaithful s
    → s.sent p ≡ some e
    → p < s.sequencer.next_pos
sent-lt s p e f h = elim (Bool-cases (ltb p s.sequencer.next_pos)) [
  | inl below ↦ ground arith
  | inr above ↦ cc (f.unassigned p (ground arith), h)
]

-- What was sent stays, whatever the sequencer answers to an append.
pub noted-sent :
    (e : Entry) (s : Cluster) (p : LogPos) (x : Entry)
    → s.sequencer.next_pos + 1 < 2 ^ 64
    → IsFaithful s
    → s.sent p ≡ some x
    → (assigned_to e s).sent p ≡ some x
noted-sent e s p x b f sent = elim (next_pos-assign s.sequencer b) [
  | inl (given, moved) ↦
      ap (λ (r : Option LogPos). noted r e s.sent p) given
      ∙ update_ne s.sent s.sequencer.next_pos (some e) p (inr (sent-lt s p x f sent))
      ∙ sent
  | inr (refused, same) ↦ ap (λ (r : Option LogPos). noted r e s.sent p) refused ∙ sent
]

noted-unassigned :
    (e : Entry) (s : Cluster) (p : LogPos)
    → s.sequencer.next_pos + 1 < 2 ^ 64
    → IsFaithful s
    → (assigned_to e s).sequencer.next_pos ≤ p
    → (assigned_to e s).sent p ≡ none
noted-unassigned e s p b f le = elim (next_pos-assign s.sequencer b) [
  | inl (given, moved) ↦
      ap (λ (r : Option LogPos). noted r e s.sent p) given
      ∙ update_ne s.sent s.sequencer.next_pos (some e) p (inl (omega (arith, moved, le)))
      ∙ f.unassigned p (omega (arith, moved, le))
  | inr (refused, same) ↦
      ap (λ (r : Option LogPos). noted r e s.sent p) refused
      ∙ f.unassigned p (let at = ap (λ (q : Sequencer). q.next_pos) same in omega (arith, at, le))
]

pub Step-IsFaithful : {s t : Cluster} → Step s t → IsFaithful s → IsFaithful t
unfolding sequence
Step-IsFaithful {s} (next_pos e b is) f = rw is (record {
  unassigned = λ p le. noted-unassigned e s p b f le;
  holds_sent = λ i p x h. noted-sent e s p x b f (f.holds_sent i p x h);
})
Step-IsFaithful {s} (seal_sequencer is) f =
    rw is (record { unassigned = f.unassigned; holds_sent = f.holds_sent })
Step-IsFaithful {s} (store i p e sent is) f = rw is (record {
  unassigned = f.unassigned;
  holds_sent = λ j q x h.
      served-holds i j (LogServerRequest.store p e) s q x h
        (λ k. elim (serve_store-only p q e x (s.servers i) k) [
          | inl (at, same) ↦ cc (sent, ap s.sent at, same)
          | inr old ↦ f.holds_sent i q x old
        ])
        (λ k. f.holds_sent j q x k);
})
Step-IsFaithful {s} (seal i is) f = rw is (record {
  unassigned = f.unassigned;
  holds_sent = λ j q x h.
      served-holds i j LogServerRequest.seal s q x h (λ k. f.holds_sent i q x (unfold serve in k))
        (λ k. f.holds_sent j q x k);
})
Step-IsFaithful {s} (trim i p is) f = rw is (record {
  unassigned = f.unassigned;
  holds_sent = λ j q x h.
      served-holds i j (LogServerRequest.trim p) s q x h
        (λ k. f.holds_sent i q x (serve_trim-only p q x (s.servers i) k))
        (λ k. f.holds_sent j q x k);
})

pub Reach-IsFaithful : {s : Cluster} → Reach start s → IsFaithful s
Reach-IsFaithful here = start-IsFaithful
Reach-IsFaithful (next r st) = Step-IsFaithful st (Reach-IsFaithful r)
