-- ===== src/Log/MemoryLoglet/Invariant.antt =====
-- The memory loglet keeps its invariant, and what its operations do under it.
use relos.Prelude.{
  ℕ, ◌-◌, ◌+◌, ◌<◌, ◌≤◌, ◌^◌, ◌≡◌, true, false, Option, some, List, [], ◌∷◌, ◌++◌, ltb, length,
  length-append, get_elem?, get_elem?-append_left, arith, get_elem?-append_last, inl, inr,
  Bool-cases, if◌then◌else◌, ◌∙◌,
}
use relos.Prelude.Words.{add64, add64-eq}
use relos.Core.{LogPos, Entry, ok, err, sealed, trimmed}
use relos.Log.MemoryLoglet.{MemoryLoglet, new, tail_of, append, read, seal, index}

-- The tail fits in a word, nothing below position 1 is readable, and every position from the trim
-- position up to the tail holds an entry.
pub record IsValid (l : MemoryLoglet) : Type 0 where
  pub fits : length l.entries + 1 < 2 ^ 64
  pub trim_pos_pos : 1 ≤ l.trim_pos
  pub kept :
      (i : ℕ)
      → l.trim_pos ≤ i + 1
      → i < length l.entries
      → (e : Entry) × (get_elem? l.entries i ≡ some (some e))

pub tail_of_lem : (l : MemoryLoglet) → IsValid l → tail_of l ≡ length l.entries + 1
tail_of_lem l h = add64-eq (length l.entries) 1 h.fits

pub new-IsValid : IsValid new
new-IsValid = record {
  fits = omega arith;
  trim_pos_pos = omega arith;
  kept = λ i a b. absurd (omega arith);
}

kept-append :
    (xs : List (Option Entry)) (e : Entry) (i : ℕ)
    → ((i < length xs) → (x : Entry) × (get_elem? xs i ≡ some (some x)))
    → i < length xs + 1
    → (x : Entry) × (get_elem? (xs ++ some e ∷ []) i ≡ some (some x))
kept-append xs e i old lt = elim (Bool-cases (ltb i (length xs))) [
  | inl inside ↦
      let (x, eq) = old (ground arith) in
      (x, get_elem?-append_left xs (some e ∷ []) i (ground arith) ∙ eq)
  | inr last ↦
      let at_end : i ≡ length xs = ground arith in
      (e, rw at_end (get_elem?-append_last xs (some e)))
]

pub append-IsValid :
    (l : MemoryLoglet) (e : Entry)
    → IsValid l
    → l.is_sealed ≡ false
    → tail_of l + 1 < 2 ^ 64
    → IsValid (append e l).1
unfolding append
append-IsValid l e h o b = rw o (record {
  fits = omega (arith, length-append l.entries (some e ∷ []), tail_of_lem l h);
  trim_pos_pos = h.trim_pos_pos;
  kept = λ i from below.
      kept-append l.entries e i (h.kept i from)
        (omega (arith, length-append l.entries (some e ∷ [])));
})

tail_of-append_entries :
    (l : MemoryLoglet) (e : Entry)
    → tail_of l + 1 < 2 ^ 64
    → length l.entries + 1 < 2 ^ 64
    → add64 (length (l.entries ++ some e ∷ [])) 1 ≡ length l.entries + 2
unfolding add64
tail_of-append_entries l e b h = omega (arith, length-append l.entries (some e ∷ []))

pub append-tail_of :
    (l : MemoryLoglet) (e : Entry)
    → IsValid l
    → l.is_sealed ≡ false
    → tail_of l + 1 < 2 ^ 64
    → tail_of (append e l).1 ≡ tail_of l + 1
unfolding append
append-tail_of l e h o b =
    rw o (omega (arith, tail_of-append_entries l e b h.fits, tail_of_lem l h))

index-last :
    (xs : List (Option Entry)) (e : Entry) → index (xs ++ some e ∷ []) (length xs) ≡ ok (some e)
index-last xs e = rw (get_elem?-append_last xs (some e), index)

pub read-append_self :
    (l : MemoryLoglet) (e : Entry)
    → IsValid l
    → l.is_sealed ≡ false
    → tail_of l + 1 < 2 ^ 64
    → l.trim_pos ≤ tail_of l
    → read (tail_of l) (append e l).1 ≡ ok (some e)
unfolding read append
read-append_self l e h o b t = rw o (
    rw (tail_of-append_entries l e b h.fits) (
      rw (tail_of_lem l h) (
        let at_end : length l.entries + 1 - 1 ≡ length l.entries = omega arith in
        rw at_end (ground (arith, index-last l.entries e, tail_of_lem l h)))))

read_inside :
    (l : MemoryLoglet) (q : LogPos)
    → IsValid l
    → q < tail_of l
    → read q l ≡ (if ltb q l.trim_pos then err (trimmed q) else index l.entries (q - 1))
unfolding read
read_inside l q h lt = ground arith

index-append :
    (xs ys : List (Option Entry)) (i : ℕ) → i < length xs → index (xs ++ ys) i ≡ index xs i
index-append xs ys i lt = rw (get_elem?-append_left xs ys i lt, index)

pub read-append_below :
    (l : MemoryLoglet) (e : Entry) (q : LogPos)
    → IsValid l
    → tail_of l + 1 < 2 ^ 64
    → q < tail_of l
    → read q (append e l).1 ≡ read q l
unfolding read append
read-append_below l e q h b lt = elim (Bool-cases l.is_sealed) [
  | inl closed ↦ rw closed
  | inr o ↦ rw o (
      ground (
        arith,
        tail_of-append_entries l e b h.fits,
        tail_of_lem l h,
        h.trim_pos_pos,
        index-append l.entries (some e ∷ []) (q - 1),
      ))
]

-- At the tail and beyond there is no entry to read, trimmed or not.
pub read_shown :
    (l : MemoryLoglet) (q : LogPos) (e : Entry) → read q l ≡ ok (some e) → q < tail_of l
unfolding read
read_shown l q e h = ground (arith, h)

pub append_closed :
    (l : MemoryLoglet) (e : Entry) → l.is_sealed ≡ true → append e l ≡ (err (sealed (tail_of l)), l)
unfolding append
append_closed l e c = ground arith

pub append_opened :
    (l : MemoryLoglet) (e : Entry)
    → l.is_sealed ≡ false
    → append e l ≡ (ok (tail_of l), record l { entries = l.entries ++ some e ∷ [] })
unfolding append
append_opened l e c = ground arith

pub append-trim_pos : (l : MemoryLoglet) (e : Entry) → (append e l).1.trim_pos ≡ l.trim_pos
unfolding append
append-trim_pos l e = ground arith

pub seal-IsValid : (l : MemoryLoglet) → IsValid l → IsValid (seal l).1
unfolding seal
seal-IsValid l h = record { fits = h.fits; trim_pos_pos = h.trim_pos_pos; kept = h.kept }
