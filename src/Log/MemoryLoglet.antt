-- ===== src/Log/MemoryLoglet.antt =====
-- crates/relos-log/src/memory_loglet.rs.
pub mod Invariant
pub mod Laws
pub mod Trimming
use relos.Prelude.{
  ℕ, zero, suc, ◌-◌, ◌+◌, ◌≡◌, Bool, true, false, Option, none, some, List, [], ◌∷◌, ◌++◌, leb, ltb,
  length, get_elem?, if◌then◌else◌,
}
use relos.Prelude.Words.{add64}
use relos.Prelude.Bytes.{text}
use relos.Core.{LogPos, log_pos_begin, Entry, Result, ok, err, panic, sealed, trimmed, Exec}
use relos.Log.Loglet.{Loglet}

-- `MemoryLogletInner`, the state under the lock
pub record MemoryLoglet : Type 0 where
  pub entries : List (Option Entry)
  pub is_sealed : Bool
  pub trim_pos : LogPos

-- `MemoryLoglet::new`
abbrev pub new : MemoryLoglet
new = record { entries = []; is_sealed = false; trim_pos = log_pos_begin }

-- `inner.entries.len() as LogPos + LOG_POS_BEGIN`
abbrev pub tail_of : MemoryLoglet → LogPos
tail_of l = add64 (length l.entries) log_pos_begin

unfoldable pub append : Entry → Exec MemoryLoglet LogPos
append e l =
    if l.is_sealed
    then (err (sealed (tail_of l)), l)
    else (ok (tail_of l), record l { entries = l.entries ++ some e ∷ [] })

unfoldable pub check_tail : MemoryLoglet → Result LogPos
check_tail l = ok (tail_of l)

-- `entries[index]`
abbrev pub index : List (Option Entry) → ℕ → Result (Option Entry)
index xs i = elim (get_elem? xs i) [ none ↦ panic (text "index out of bounds") | some e ↦ ok e ]

unfoldable pub read : LogPos → MemoryLoglet → Result (Option Entry)
read pos l =
    if ltb pos l.trim_pos
    then err (trimmed pos)
    else if leb (tail_of l) pos
    then ok none
    else index l.entries (pos - log_pos_begin)

-- `for p in LOG_POS_BEGIN..end { entries[p - LOG_POS_BEGIN] = None }`, by the number of rounds
unfoldable pub clear : ℕ → List (Option Entry) → List (Option Entry)
clear zero xs = xs
clear (suc k) [] = []
clear (suc k) (x ∷ xs) = none ∷ clear k xs

unfoldable pub trim : LogPos → Exec MemoryLoglet (Unit {0})
unfolding clear
trim pos l =
    if ltb l.trim_pos pos
    then (
      ok tt,
      record l {
        trim_pos = pos;
        entries =
            clear ((if ltb pos (tail_of l) then pos else tail_of l) - log_pos_begin) l.entries;
      },
    )
    else (ok tt, l)

unfoldable pub seal : Exec MemoryLoglet LogPos
seal l = (ok (tail_of l), record l { is_sealed = true })

-- `impl Loglet for MemoryLoglet`
abbrev pub memory_loglet : Loglet MemoryLoglet
memory_loglet = record {
  append = append;
  check_tail = check_tail;
  read = read;
  trim = trim;
  seal = seal;
}
