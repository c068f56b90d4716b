-- ===== src/Log/MemoryLoglet/Laws.antt =====
-- The memory loglet obeys the laws of a loglet.
use relos.Prelude.{refl, ap, ◌∙◌, arith}
use relos.Core.{LogPos, Result}
use relos.Log.Loglet.{LogletLaws}
use relos.Log.MemoryLoglet.{MemoryLoglet, tail_of, check_tail, read, seal, memory_loglet}
use relos.Log.MemoryLoglet.Invariant.{
  IsValid, tail_of_lem, append-IsValid, append-tail_of, read-append_self, read-append_below,
  read_shown, append_closed, append_opened, append-trim_pos, seal-IsValid,
}
use relos.Log.MemoryLoglet.Trimming.{
  read-trim, trim-IsValid, trim-trim_pos, trim_done, read_none, read_trimmed,
}

-- The memory loglet keeps the promises of the trait.
unfoldable pub memory_laws : LogletLaws memory_loglet
unfolding seal check_tail read
memory_laws = record {
  Valid = IsValid;
  tail = tail_of;
  horizon = λ l. l.trim_pos;
  is_sealed = λ l. l.is_sealed;
  tail_pos = λ l h. omega (arith, tail_of_lem l h);
  tail_bound = λ l h. omega (arith, tail_of_lem l h, h.fits);
  check_tail_lem = λ l h. refl;
  append_pos = λ l e h o b. ap (λ (r : Result LogPos × MemoryLoglet). r.0) (append_opened l e o);
  append-Valid = append-IsValid;
  append-tail = append-tail_of;
  append-is_sealed = λ l e h o b.
      ap (λ (r : Result LogPos × MemoryLoglet). r.1.is_sealed) (append_opened l e o) ∙ o;
  append-horizon = λ l e h o b. append-trim_pos l e;
  read-append_self = read-append_self;
  read-append_below = read-append_below;
  read_shown = λ l q e h. read_shown l q e;
  append_sealed = λ l e h c. append_closed l e c;
  seal_pos = λ l h. refl;
  seal-Valid = seal-IsValid;
  seal-is_sealed = λ l h. refl;
  seal-tail = λ l h. refl;
  seal-horizon = λ l h. refl;
  read-seal = λ l q h. refl;
  trim_done = λ l p h. trim_done p l;
  trim-Valid = λ l p h. (trim-IsValid p l h).0;
  trim-tail = λ l p h. (trim-IsValid p l h).1;
  trim-is_sealed = λ l p h. (trim-IsValid p l h).2;
  trim-horizon = λ l p h. trim-trim_pos p l;
  read-trim = λ l p q h. read-trim p q l h;
  read_trimmed = λ l q h. read_trimmed q l;
  read_none = λ l q h. read_none q l;
}
