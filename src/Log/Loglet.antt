-- ===== src/Log/Loglet.antt =====
-- crates/relos-log/src/loglet.rs: the `Loglet` trait, as a record of operations on a state `L`,
-- and what the trait's comments promise, as a record of laws that implementations fill.
use relos.Prelude.{
  ◌+◌, ◌<◌, ◌≤◌, ◌^◌, ◌≡◌, Bool, true, false, Option, none, some, ltb, if◌then◌else◌,
}
use relos.Core.{LogPos, Entry, Result, ok, err, sealed, trimmed, Exec}

pub record Loglet (L : Type 0) : Type 0 where
  pub append : Entry → Exec L LogPos
  pub check_tail : L → Result LogPos
  pub read : LogPos → L → Result (Option Entry)
  pub trim : LogPos → Exec L (Unit {0})
  pub seal : Exec L LogPos

-- `tail`, `is_sealed` and `horizon` (below which all is trimmed) are the abstract view of a loglet.
pub record LogletLaws {L : Type 0} (ops : Loglet L) : Type 1 where
  pub Valid : L → Type 0
  pub tail : L → LogPos
  pub horizon : L → LogPos
  pub is_sealed : L → Bool
  pub tail_pos : (l : L) → Valid l → 1 ≤ tail l
  pub tail_bound : (l : L) → Valid l → tail l < 2 ^ 64
  pub check_tail_lem : (l : L) → Valid l → ops.check_tail l ≡ ok (tail l)
  -- An append to a loglet that is not sealed takes the position at the tail, and is read there.
  pub append_pos :
      (l : L) (e : Entry)
      → Valid l
      → is_sealed l ≡ false
      → tail l + 1 < 2 ^ 64
      → (ops.append e l).0 ≡ ok (tail l)
  pub append-Valid :
      (l : L) (e : Entry)
      → Valid l
      → is_sealed l ≡ false
      → tail l + 1 < 2 ^ 64
      → Valid (ops.append e l).1
  pub append-tail :
      (l : L) (e : Entry)
      → Valid l
      → is_sealed l ≡ false
      → tail l + 1 < 2 ^ 64
      → tail (ops.append e l).1 ≡ tail l + 1
  pub append-is_sealed :
      (l : L) (e : Entry)
      → Valid l
      → is_sealed l ≡ false
      → tail l + 1 < 2 ^ 64
      → is_sealed (ops.append e l).1 ≡ false
  pub append-horizon :
      (l : L) (e : Entry)
      → Valid l
      → is_sealed l ≡ false
      → tail l + 1 < 2 ^ 64
      → horizon (ops.append e l).1 ≡ horizon l
  pub read-append_self :
      (l : L) (e : Entry)
      → Valid l
      → is_sealed l ≡ false
      → tail l + 1 < 2 ^ 64
      → horizon l ≤ tail l
      → ops.read (tail l) (ops.append e l).1 ≡ ok (some e)
  pub read-append_below :
      (l : L) (e : Entry) (q : LogPos)
      → Valid l
      → tail l + 1 < 2 ^ 64
      → q < tail l
      → ops.read q (ops.append e l).1 ≡ ops.read q l
  -- What is read is an entry only below the tail.
  pub read_shown :
      (l : L) (q : LogPos) (e : Entry) → Valid l → ops.read q l ≡ ok (some e) → q < tail l
  -- An append to a sealed loglet reports the tail and changes nothing.
  pub append_sealed :
      (l : L) (e : Entry)
      → Valid l
      → is_sealed l ≡ true
      → ops.append e l ≡ (err (sealed (tail l)), l)
  -- A seal returns the tail, and changes neither the tail nor what is read.
  pub seal_pos : (l : L) → Valid l → (ops.seal l).0 ≡ ok (tail l)
  pub seal-Valid : (l : L) → Valid l → Valid (ops.seal l).1
  pub seal-is_sealed : (l : L) → Valid l → is_sealed (ops.seal l).1 ≡ true
  pub seal-tail : (l : L) → Valid l → tail (ops.seal l).1 ≡ tail l
  pub seal-horizon : (l : L) → Valid l → horizon (ops.seal l).1 ≡ horizon l
  pub read-seal : (l : L) (q : LogPos) → Valid l → ops.read q (ops.seal l).1 ≡ ops.read q l
  -- A trim makes the positions before its own read as trimmed. It changes no other read, nor the
  -- tail or the seal.
  pub trim_done : (l : L) (p : LogPos) → Valid l → (ops.trim p l).0 ≡ ok tt
  pub trim-Valid : (l : L) (p : LogPos) → Valid l → Valid (ops.trim p l).1
  pub trim-tail : (l : L) (p : LogPos) → Valid l → tail (ops.trim p l).1 ≡ tail l
  pub trim-is_sealed : (l : L) (p : LogPos) → Valid l → is_sealed (ops.trim p l).1 ≡ is_sealed l
  pub trim-horizon :
      (l : L) (p : LogPos)
      → Valid l
      → horizon (ops.trim p l).1 ≡ (if ltb (horizon l) p then p else horizon l)
  pub read-trim :
      (l : L) (p q : LogPos)
      → Valid l
      → ops.read q (ops.trim p l).1 ≡ (if ltb q p then err (trimmed q) else ops.read q l)
  -- Below the horizon all is trimmed, and where no entry is yet, none is read.
  pub read_trimmed : (l : L) (q : LogPos) → Valid l → q < horizon l → ops.read q l ≡ err (trimmed q)
  pub read_none :
      (l : L) (q : LogPos) → Valid l → horizon l ≤ q → tail l ≤ q → ops.read q l ≡ ok none
