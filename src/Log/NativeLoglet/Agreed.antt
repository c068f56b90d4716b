-- ===== src/Log/NativeLoglet/Agreed.antt =====
-- Native loglets whose log servers agree, and what the operations do to them.
use relos.Prelude.{
  ℕ, zero, suc, ◌+◌, ◌<◌, ◌≤◌, ◌^◌, ◌≡◌, refl, ap, sym, ◌∙◌, Bool, true, false, some, List, [], ◌∷◌,
  arith, ltb, none, ◌==◌, Bool-cases, inl, inr,
}
use relos.Core.{LogPos, Entry, Result, ok, err, sealed}
use relos.Log.NativeLoglet.{LogServer, entry_at, read_at, entry}
use relos.Log.NativeLoglet.SequencerHandle.{answering}
use relos.Log.NativeLoglet.Operations.{
  NativeLoglet, LogServerHandle, running, dropping, gone, append, check_tail, read, seal,
}
use relos.Log.NativeLoglet.Uniform.{
  uniform, with_entry, sealed_server, IsBelow, read_result, append_uniform, read_uniform,
  seal_uniform,
}

-- Between two calls: the servers agree, and nothing is stored from the next position on.
pub record IsAgreed (l : NativeLoglet) : Type 0 where
  pub server : LogServer
  pub servers : ℕ
  pub next : LogPos
  pub sealed_flag : Bool
  pub is : l ≡ uniform sealed_flag server servers next
  pub flag : server.is_sealed ≡ sealed_flag
  pub below : IsBelow next server
  pub some_server : 0 < servers
  pub from : 1 ≤ next
  pub fits : next < 2 ^ 64

-- What the first server has trimmed.
unfoldable pub first_trim : List LogServerHandle → LogPos
first_trim [] = 0
first_trim (running s ∷ hs) = s.trim_pos
first_trim (dropping ∷ hs) = 0
first_trim (gone ∷ hs) = 0

abbrev pub horizon_of : NativeLoglet → LogPos
horizon_of l = first_trim l.log_servers

pub horizon_uniform :
    (b : Bool) (s : LogServer) (n : ℕ) (p : LogPos)
    → 0 < n
    → horizon_of (uniform b s n p) ≡ s.trim_pos
unfolding first_trim
horizon_uniform b s zero p h = absurd (omega arith)
horizon_uniform b s (suc n) p h = refl

IsBelow-with_entry :
    (p : LogPos) (e : Entry) (s : LogServer) → IsBelow p s → IsBelow (p + 1) (with_entry p e s)
unfolding entry_at
IsBelow-with_entry p e s h = record {
  tail_le = omega arith;
  free = λ q le. let old = h.free q (omega arith) in ground (arith, old);
}

module _ (l : NativeLoglet) (h : IsAgreed l) where
  open h use {server, servers, next, sealed_flag}

  pub flag_of : l.is_sealed ≡ sealed_flag
  flag_of = ap (λ (k : NativeLoglet). k.is_sealed) h.is

  pub next_of : l.sequencer.next_pos ≡ next
  next_of = ap (λ (k : NativeLoglet). k.sequencer.next_pos) h.is

  pub answers : l.sequencer_task ≡ answering
  answers = ap (λ (k : NativeLoglet). k.sequencer_task) h.is

  pub check_tail_agreed : check_tail l ≡ ok l.sequencer.next_pos
  unfolding check_tail
  check_tail_agreed = rw answers refl

  -- An open agreed loglet is one with the flag down.
  is_open : l.is_sealed ≡ false → l ≡ uniform false server servers next
  is_open o = h.is ∙ ap (λ (b : Bool). uniform b server servers next) (sym flag_of ∙ o)

  pub append_open :
      (e : Entry)
      → l.is_sealed ≡ false
      → l.sequencer.next_pos + 1 < 2 ^ 64
      → append e l ≡ (ok next, uniform false (with_entry next e server) servers (next + 1))
  append_open e o b =
      ap (append e) (is_open o)
      ∙ append_uniform e server servers next (h.flag ∙ (sym flag_of ∙ o)) h.below h.some_server
          (omega (arith, next_of))

  pub append_open-IsAgreed :
      (e : Entry)
      → l.is_sealed ≡ false
      → l.sequencer.next_pos + 1 < 2 ^ 64
      → IsAgreed (uniform false (with_entry next e server) servers (next + 1))
  append_open-IsAgreed e o b = record {
    server = with_entry next e server;
    servers = servers;
    next = next + 1;
    sealed_flag = false;
    is = refl;
    flag = h.flag ∙ (sym flag_of ∙ o);
    below = IsBelow-with_entry next e server h.below;
    some_server = h.some_server;
    from = omega arith;
    fits = omega (arith, next_of);
  }

  pub read_agreed : (q : LogPos) → read q l ≡ read_result q (read_at q server)
  read_agreed q = ap (read q) h.is ∙ read_uniform q sealed_flag server servers next h.some_server

  pub read_shown_agreed :
      (q : LogPos) (e : Entry) → read q l ≡ ok (some e) → q < l.sequencer.next_pos
  unfolding read_at
  read_shown_agreed q e found = elim (Bool-cases (ltb q next)) [
    | inl below ↦ ground (arith, below, next_of)
    | inr beyond ↦
        let nothing : entry_at q server.entries ≡ none = h.below.free q (ground (arith, beyond)) in
        let shown : read_result q (read_at q server) ≡ ok (some e) = sym (read_agreed q) ∙ found in
        absurd (ground (arith, nothing, shown))
  ]

  pub seal_agreed : seal l ≡ (ok next, uniform true (sealed_server server) servers next)
  seal_agreed =
      ap seal h.is ∙ seal_uniform sealed_flag server servers next h.below h.some_server h.from

  pub seal-IsAgreed : IsAgreed (uniform true (sealed_server server) servers next)
  seal-IsAgreed = record {
    server = sealed_server server;
    servers = servers;
    next = next;
    sealed_flag = true;
    is = refl;
    flag = refl;
    below = record { tail_le = h.below.tail_le; free = h.below.free };
    some_server = h.some_server;
    from = h.from;
    fits = h.fits;
  }

  pub horizon_agreed : horizon_of l ≡ server.trim_pos
  horizon_agreed =
      ap horizon_of h.is ∙ horizon_uniform sealed_flag server servers next h.some_server

read_at-with_entry_self :
    (p : LogPos) (e : Entry) (s : LogServer)
    → s.trim_pos ≤ p
    → read_at p (with_entry p e s) ≡ entry e
unfolding read_at entry_at
read_at-with_entry_self p e s h = ground arith

read_at-with_entry_below :
    (p q : LogPos) (e : Entry) (s : LogServer) → q < p → read_at q (with_entry p e s) ≡ read_at q s
unfolding read_at entry_at
read_at-with_entry_below p q e s h = let other : (p == q) ≡ false = ground arith in rw other refl

pub read_at-sealed_server : (q : LogPos) (s : LogServer) → read_at q (sealed_server s) ≡ read_at q s
unfolding read_at
read_at-sealed_server q s = refl

module _ (l : NativeLoglet) (e : Entry) (h : IsAgreed l) where
  open h use {server, servers, next}

  -- The loglet after an append, by what it is.
  pub after_append :
      {B : Type 0} (f : NativeLoglet → B)
      → l.is_sealed ≡ false
      → l.sequencer.next_pos + 1 < 2 ^ 64
      → f (append e l).1 ≡ f (uniform false (with_entry next e server) servers (next + 1))
  after_append f o b = ap (λ (r : Result LogPos × NativeLoglet). f r.1) (append_open l h e o b)

  read_after :
      (q : LogPos)
      → l.is_sealed ≡ false
      → l.sequencer.next_pos + 1 < 2 ^ 64
      → read q (append e l).1 ≡ read_result q (read_at q (with_entry next e server))
  read_after q o b =
      after_append (read q) o b
      ∙ read_uniform q false (with_entry next e server) servers (next + 1) h.some_server

  pub append_agreed_sealed :
      l.is_sealed ≡ true → append e l ≡ (err (sealed l.sequencer.next_pos), l)
  unfolding append
  append_agreed_sealed c = rw (c, answers l h) refl

  pub read_below :
      (q : LogPos)
      → l.sequencer.next_pos + 1 < 2 ^ 64
      → q < l.sequencer.next_pos
      → read q (append e l).1 ≡ read q l
  read_below q b lt = elim (Bool-cases l.is_sealed) [
    | inl c ↦ ap (λ (r : Result LogPos × NativeLoglet). read q r.1) (append_agreed_sealed c)
    | inr o ↦
        read_after q o b
        ∙ ap (read_result q) (read_at-with_entry_below next q e server (omega (arith, next_of l h)))
        ∙ sym (read_agreed l h q)
  ]

  pub read_self :
      l.is_sealed ≡ false
      → l.sequencer.next_pos + 1 < 2 ^ 64
      → horizon_of l ≤ l.sequencer.next_pos
      → read l.sequencer.next_pos (append e l).1 ≡ ok (some e)
  read_self o b r =
      let at = next_of l h in
      let low : server.trim_pos ≤ next = omega (arith, horizon_agreed l h, at) in
      ap (λ (q : LogPos). read q (append e l).1) at
      ∙ read_after next o b
      ∙ ap (read_result next) (read_at-with_entry_self next e server low)
