-- ===== src/Log/NativeLoglet/WriteOnce.antt =====
-- What a log server does with what it has stored.
use relos.Prelude.{
  ◌<◌, ◌≤◌, ◌≡◌, refl, ◌∙◌, true, some, List, [], ◌∷◌, arith, ltb, Bool-cases, Option-cases, inl,
  inr, ◌⊎◌,
}
use relos.Core.{LogPos, Entry}
use relos.Log.NativeLoglet.{
  LogServer, LogServerRequest, store, read, seal, trim, entry, trimmed, entry_at, remove_below,
  read_at, serve, serve_all, stored,
}

-- The entry is at its position, or the position has been trimmed.
abbrev pub Kept : LogPos → Entry → LogServer → Type 0
Kept p e s = (p < s.trim_pos) ⊎ (entry_at p s.entries ≡ some e)

entry_at-remove_below :
    (p q : LogPos) (m : List (LogPos × Entry))
    → q ≤ p
    → entry_at p (remove_below q m) ≡ entry_at p m
unfolding entry_at remove_below
entry_at-remove_below p q [] h = refl
entry_at-remove_below p q (x ∷ m) h = ground (arith, entry_at-remove_below p q m h)

pub serve-Kept :
    (q : LogServerRequest) (p : LogPos) (e : Entry) (s : LogServer)
    → Kept p e s
    → Kept p e (serve q s).1
unfolding serve entry_at
serve-Kept (read p') p e s h = h
serve-Kept seal p e s h = h
serve-Kept (store p' e') p e s h = elim (Bool-cases s.is_sealed) [
  | inl is_closed ↦ rw is_closed h
  | inr open_ ↦ elim (Option-cases (entry_at p' s.entries)) [
    | inr (x, taken) ↦ rw (open_, taken) h
    | inl free ↦
        rw (open_, free)
          (elim h [ inl gone ↦ inl gone | inr here ↦ inr (ground (arith, here, free)) ])
  ]
]
serve-Kept (trim p') p e s h = elim (Bool-cases (ltb s.trim_pos p')) [
  | inr no_further ↦ rw no_further h
  | inl further ↦ rw further (elim (Bool-cases (ltb p p')) [
    | inl below ↦ inl (ground arith)
    | inr above ↦ elim h [
      | inl gone ↦ absurd (ground arith)
      | inr here ↦ inr (entry_at-remove_below p p' s.entries (ground arith) ∙ here)
    ]
  ])
]

serve_all-Kept :
    (qs : List LogServerRequest) (p : LogPos) (e : Entry) (s : LogServer)
    → Kept p e s
    → Kept p e (serve_all qs s)
unfolding serve_all
serve_all-Kept [] p e s h = h
serve_all-Kept (q ∷ qs) p e s h = serve_all-Kept qs p e (serve q s).1 (serve-Kept q p e s h)

pub read_at-Kept :
    (p : LogPos) (e : Entry) (s : LogServer)
    → Kept p e s
    → (read_at p s ≡ trimmed) ⊎ (read_at p s ≡ entry e)
unfolding read_at
read_at-Kept p e s h = elim (Bool-cases (ltb p s.trim_pos)) [
  | inl below ↦ inl (rw below refl)
  | inr above ↦ elim h [ inl gone ↦ absurd (ground arith) | inr here ↦ inr (rw (above, here) refl) ]
]

pub stored-there :
    (p : LogPos) (e : Entry) (s : LogServer)
    → (serve (store p e) s).0 ≡ stored true
    → entry_at p (serve (store p e) s).1.entries ≡ some e
unfolding serve entry_at
stored-there p e s h = elim (Bool-cases s.is_sealed) [
  | inl is_closed ↦ let h' = simp is_closed at h in cc
  | inr open_ ↦ elim (Option-cases (entry_at p s.entries)) [
    | inr (x, taken) ↦ let h' = simp (open_, taken) at h in cc
    | inl free ↦ rw (open_, free) (ground arith)
  ]
]

-- A server that has answered a store with true is write-once at that position: after any further
-- requests, whether stores at the same position, seals or trims, a read there returns that entry
-- or says that it has been trimmed.
pub write_once :
    (p : LogPos) (e : Entry) (s : LogServer) (qs : List LogServerRequest)
    → (serve (store p e) s).0 ≡ stored true
    → (read_at p (serve_all qs (serve (store p e) s).1) ≡ trimmed)
      ⊎ (read_at p (serve_all qs (serve (store p e) s).1) ≡ entry e)
write_once p e s qs h =
    read_at-Kept p e (serve_all qs (serve (store p e) s).1)
      (serve_all-Kept qs p e (serve (store p e) s).1 (inr (stored-there p e s h)))
