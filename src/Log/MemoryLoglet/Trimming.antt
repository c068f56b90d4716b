-- ===== src/Log/MemoryLoglet/Trimming.antt =====
-- What `trim` does to the reads of a memory loglet.
use relos.Prelude.{
  ℕ, zero, suc, ◌-◌, ◌<◌, ◌≤◌, ◌≡◌, refl, false, Option, none, some, List, [], ◌∷◌, ltb, length,
  get_elem?, arith, inl, inr, Bool-cases, if◌then◌else◌, ap, ◌∙◌,
}
use relos.Core.{LogPos, Entry, ok, err, trimmed}
use relos.Log.MemoryLoglet.{MemoryLoglet, tail_of, read, clear, trim, index}
use relos.Log.MemoryLoglet.Invariant.{IsValid, tail_of_lem}

length-clear : (k : ℕ) (xs : List (Option Entry)) → length (clear k xs) ≡ length xs
unfolding clear
length-clear zero xs = refl
length-clear (suc k) [] = refl
length-clear (suc k) (x ∷ xs) = ap suc (length-clear k xs)

get_elem?-clear :
    (k i : ℕ) (xs : List (Option Entry)) → k ≤ i → get_elem? (clear k xs) i ≡ get_elem? xs i
unfolding clear
get_elem?-clear zero i xs h = refl
get_elem?-clear (suc k) i [] h = refl
get_elem?-clear (suc k) zero (x ∷ xs) h = absurd (omega arith)
get_elem?-clear (suc k) (suc i) (x ∷ xs) h = get_elem?-clear k i xs (omega arith)

-- The loglet after a trim that goes further than the last.
abbrev trimmed_at : LogPos → ℕ → MemoryLoglet → MemoryLoglet
trimmed_at p k l = record l { trim_pos = p; entries = clear k l.entries }

trim_further :
    (p : LogPos) (l : MemoryLoglet)
    → l.trim_pos < p
    → (k : ℕ) × (k ≤ p - 1) × ((trim p l).1 ≡ trimmed_at p k l)
unfolding trim
trim_further p l h = ((if ltb p (tail_of l) then p else tail_of l) - 1, ground arith, ground arith)

trim_no_further : (p : LogPos) (l : MemoryLoglet) → ltb l.trim_pos p ≡ false → (trim p l).1 ≡ l
unfolding trim
trim_no_further p l h = rw h

index-clear : (k i : ℕ) (xs : List (Option Entry)) → k ≤ i → index (clear k xs) i ≡ index xs i
index-clear k i xs h = rw (get_elem?-clear k i xs h, index)

read-trimmed_at :
    (p q k : ℕ) (l : MemoryLoglet)
    → IsValid l
    → l.trim_pos < p
    → k ≤ p - 1
    → read q (trimmed_at p k l) ≡ (if ltb q p then err (trimmed q) else read q l)
unfolding read
read-trimmed_at p q k l h further small =
    rw (length-clear k l.entries) (ground (arith, h.trim_pos_pos, index-clear k (q - 1) l.entries))

-- After a trim at `p` of a loglet that keeps its invariant, every position below `p` reads as trimmed, and every other position reads
-- as before, whether or not an earlier trim went further.
pub read-trim :
    (p q : LogPos) (l : MemoryLoglet)
    → IsValid l
    → read q (trim p l).1 ≡ (if ltb q p then err (trimmed q) else read q l)
read-trim p q l h = elim (Bool-cases (ltb l.trim_pos p)) [
  | inl further ↦
      let (k, small, eq) = trim_further p l (ground arith) in
      rw eq (read-trimmed_at p q k l h (ground arith) small)
  | inr no_further ↦ rw (trim_no_further p l no_further) (read_below_trim p q l no_further)
]
  where
    read_below_trim :
        (p q : LogPos) (l : MemoryLoglet)
        → ltb l.trim_pos p ≡ false
        → read q l ≡ (if ltb q p then err (trimmed q) else read q l)
    read_below_trim p q l no_further = unfold read in ground arith

trimmed_at-IsValid :
    (p k : ℕ) (l : MemoryLoglet)
    → IsValid l
    → l.trim_pos < p
    → k ≤ p - 1
    → IsValid (trimmed_at p k l)
trimmed_at-IsValid p k l h further small = record {
  fits = omega (arith, h.fits, length-clear k l.entries);
  trim_pos_pos = omega (arith, h.trim_pos_pos);
  kept = λ i from below.
      let (e, eq) = h.kept i (omega arith) (omega (arith, length-clear k l.entries)) in
      (e, get_elem?-clear k i l.entries (omega arith) ∙ eq);
}

-- A trim keeps the invariant, the tail and the seal.
pub trim-IsValid :
    (p : LogPos) (l : MemoryLoglet)
    → IsValid l
    → IsValid (trim p l).1
      × (tail_of (trim p l).1 ≡ tail_of l)
      × ((trim p l).1.is_sealed ≡ l.is_sealed)
trim-IsValid p l h = elim (Bool-cases (ltb l.trim_pos p)) [
  | inl further ↦
      let (k, small, eq) = trim_further p l (ground arith) in
      rw eq (trimmed_at-IsValid p k l h (ground arith) small, rw (length-clear k l.entries), refl)
  | inr no_further ↦ rw (trim_no_further p l no_further) (h, refl, refl)
]

-- Between the trim position and the tail of a loglet that keeps its invariant a read returns an
-- entry: no read panics there, and there is no hole.
pub read_entry :
    (q : LogPos) (l : MemoryLoglet)
    → IsValid l
    → l.trim_pos ≤ q
    → q < tail_of l
    → (e : Entry) × (read q l ≡ ok (some e))
unfolding read
read_entry q l h from below =
    let (e, eq) =
      h.kept (q - 1) (omega (arith, h.trim_pos_pos))
        (omega (arith, tail_of_lem l h, h.trim_pos_pos)) in
    (e, ground arith)

pub trim_done : (p : LogPos) (l : MemoryLoglet) → (trim p l).0 ≡ ok tt
unfolding trim
trim_done p l = elim (Bool-cases (ltb l.trim_pos p)) [
  | inl further ↦ rw further refl
  | inr no_further ↦ rw no_further refl
]

pub trim-trim_pos :
    (p : LogPos) (l : MemoryLoglet)
    → (trim p l).1.trim_pos ≡ (if ltb l.trim_pos p then p else l.trim_pos)
unfolding trim
trim-trim_pos p l = elim (Bool-cases (ltb l.trim_pos p)) [
  | inl further ↦ rw further refl
  | inr no_further ↦ rw no_further refl
]

-- Below the trim position all is trimmed; at the tail and beyond there is nothing yet.
pub read_trimmed : (q : LogPos) (l : MemoryLoglet) → q < l.trim_pos → read q l ≡ err (trimmed q)
unfolding read
read_trimmed q l lt = ground (arith, lt)

pub read_none :
    (q : LogPos) (l : MemoryLoglet) → l.trim_pos ≤ q → tail_of l ≤ q → read q l ≡ ok none
unfolding read
read_none q l from beyond = ground (arith, from, beyond)
