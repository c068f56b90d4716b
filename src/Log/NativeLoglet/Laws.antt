-- ===== src/Log/NativeLoglet/Laws.antt =====
-- The laws of the `Loglet` trait for a native loglet whose log servers all answer.
use relos.Prelude.{ℕ, ◌+◌, ◌<◌, ◌≡◌, refl, ap, sym, subst, ◌∙◌, true, false, arith, ltb}
use relos.Core.{LogPos, Result, ok}
use relos.Log.Loglet.{LogletLaws}
use relos.Log.NativeLoglet.{new_log_server, entry_at}
use relos.Log.NativeLoglet.Operations.{NativeLoglet, new, read, native_loglet}
use relos.Log.NativeLoglet.Uniform.{uniform, with_entry, sealed_server, read_result, read_uniform}
use relos.Log.NativeLoglet.Trimming.{
  trim_agreed, trimmed-IsAgreed, after_trim, horizon_after_trim, read_after_trim,
  read_trimmed_agreed, read_none_agreed,
}
use relos.Log.NativeLoglet.Agreed.{
  flag_of, IsAgreed, horizon_of, horizon_uniform, append_open, append_open-IsAgreed, next_of,
  read_agreed, seal_agreed, seal-IsAgreed, horizon_agreed, read_at-sealed_server, after_append,
  read_self, read_below, append_agreed_sealed, check_tail_agreed, read_shown_agreed,
}

-- The native loglet, while its log servers answer, keeps the promises of the trait.
unfoldable pub native_laws : LogletLaws native_loglet
native_laws = record {
  Valid = IsAgreed;
  tail = λ l. l.sequencer.next_pos;
  horizon = horizon_of;
  is_sealed = λ l. l.is_sealed;
  tail_pos = λ l h. omega (arith, next_of l h, h.from);
  tail_bound = λ l h. omega (arith, next_of l h, h.fits);
  check_tail_lem = λ l h. check_tail_agreed l h;
  append_pos = λ l e h o b.
      ap (λ (r : Result LogPos × NativeLoglet). r.0) (append_open l h e o b)
      ∙ ap (λ (p : LogPos). ok p) (sym (next_of l h));
  append-Valid = λ l e h o b.
      subst (λ (r : Result LogPos × NativeLoglet). IsAgreed r.1) (sym (append_open l h e o b))
        (append_open-IsAgreed l h e o b);
  append-tail =
      λ l e h o b. after_append l e h (λ k. k.sequencer.next_pos) o b ∙ omega (arith, next_of l h);
  append-is_sealed = λ l e h o b. after_append l e h (λ k. k.is_sealed) o b;
  append-horizon = λ l e h o b.
      after_append l e h horizon_of o b
      ∙ horizon_uniform false (with_entry h.next e h.server) h.servers (h.next + 1) h.some_server
      ∙ sym (horizon_agreed l h);
  read-append_self = λ l e h o b r. read_self l e h o b r;
  read-append_below = λ l e q h b lt. read_below l e h q b lt;
  read_shown = λ l q e h. read_shown_agreed l h q e;
  append_sealed = λ l e h c. append_agreed_sealed l e h c;
  seal_pos = λ l h.
      ap (λ (r : Result LogPos × NativeLoglet). r.0) (seal_agreed l h)
      ∙ ap (λ (p : LogPos). ok p) (sym (next_of l h));
  seal-Valid = λ l h.
      subst (λ (r : Result LogPos × NativeLoglet). IsAgreed r.1) (sym (seal_agreed l h))
        (seal-IsAgreed l h);
  seal-is_sealed =
      λ l h. ap (λ (r : Result LogPos × NativeLoglet). r.1.is_sealed) (seal_agreed l h);
  seal-tail = λ l h.
      ap (λ (r : Result LogPos × NativeLoglet). r.1.sequencer.next_pos) (seal_agreed l h)
      ∙ sym (next_of l h);
  seal-horizon = λ l h.
      ap (λ (r : Result LogPos × NativeLoglet). horizon_of r.1) (seal_agreed l h)
      ∙ horizon_uniform true (sealed_server h.server) h.servers h.next h.some_server
      ∙ sym (horizon_agreed l h);
  read-seal = λ l q h.
      ap (λ (r : Result LogPos × NativeLoglet). read q r.1) (seal_agreed l h)
      ∙ read_uniform q true (sealed_server h.server) h.servers h.next h.some_server
      ∙ ap (read_result q) (read_at-sealed_server q h.server)
      ∙ sym (read_agreed l h q);
  trim_done = λ l p h. ap (λ (r : Result (Unit {0}) × NativeLoglet). r.0) (trim_agreed l p h);
  trim-Valid = λ l p h.
      subst (λ (r : Result (Unit {0}) × NativeLoglet). IsAgreed r.1) (sym (trim_agreed l p h))
        (trimmed-IsAgreed l p h);
  trim-tail = λ l p h. after_trim l p h (λ k. k.sequencer.next_pos) ∙ sym (next_of l h);
  trim-is_sealed = λ l p h. after_trim l p h (λ k. k.is_sealed) ∙ sym (flag_of l h);
  trim-horizon = λ l p h. horizon_after_trim l p h;
  read-trim = λ l p q h. read_after_trim l p h q;
  read_trimmed = λ l q h. read_trimmed_agreed l q h;
  read_none = λ l q h. read_none_agreed l q h;
}

new-IsAgreed : (n : ℕ) → 0 < n → IsAgreed (uniform false new_log_server n 1)
unfolding entry_at
new-IsAgreed n some_server = record {
  server = new_log_server;
  servers = n;
  next = 1;
  sealed_flag = false;
  is = refl;
  flag = refl;
  below = record { tail_le = omega arith; free = λ q le. refl };
  some_server = some_server;
  from = omega arith;
  fits = omega arith;
}

-- What a new loglet is under the laws: valid, open and empty, with nothing trimmed.
abbrev pub StartsEmpty : LogletLaws native_loglet → NativeLoglet → Type 0
StartsEmpty laws l =
    laws.Valid l × (laws.tail l ≡ 1) × (laws.is_sealed l ≡ false) × (laws.horizon l ≡ 1)

-- The native loglet keeps the promises of the trait, in states that include each new loglet with
-- any number of log servers but none: an append takes the next position and is read back there, a
-- seal ends the appends at the tail, a trim makes the positions before its own read as
-- trimmed, a position without an entry yet reads as none, and no operation changes what is read
-- elsewhere. (Its tasks answer, and the operations are not interleaved.)
pub native_loglet-laws :
    (laws : LogletLaws native_loglet) × ((n : ℕ)
      → 0 < n
      → (l : NativeLoglet) × (new n ≡ ok l) × StartsEmpty laws l)
unfolding native_laws new
native_loglet-laws = (
  native_laws,
  λ n some_server.
      let counted : ltb 0 n ≡ true = ground arith in
      (
        uniform false new_log_server n 1,
        rw counted refl,
        (
          new-IsAgreed n some_server,
          refl,
          refl,
          horizon_uniform false new_log_server n 1 some_server,
        ),
      ),
)
