-- ===== src/Log/NativeLoglet/Trimming.antt =====
-- A trim of a native loglet whose log servers all answer and agree.
use relos.Prelude.{
  ℕ, zero, suc, ◌≤◌, ◌<◌, ◌≡◌, refl, ap, sym, subst, ◌∙◌, Bool, true, false, none, some, List, [],
  ◌∷◌, arith, ltb, Bool-cases, Option-cases, inl, inr, if◌then◌else◌,
}
use relos.Core.{LogPos, Entry, Result, ok, err}
use relos.Core
use relos.Log.NativeLoglet.{
  LogServer, LogServerRequest, LogServerReply, serve, entry_at, remove_below, read_at, trimmed,
}
use relos.Log.NativeLoglet.Operations.{NativeLoglet, replicate, fan_out_trim, all_done, trim, read}
use relos.Log.NativeLoglet.Agreement.{kept_entry}
use relos.Log.NativeLoglet.Uniform.{uniform, fan_out-replicate, read_result, read_uniform}
use relos.Log.NativeLoglet.Agreed.{
  IsAgreed, horizon_of, horizon_uniform, horizon_agreed, next_of, read_agreed,
}

-- A server's state after a trim.
abbrev trimmed_server : LogPos → LogServer → LogServer
trimmed_server p s = (serve (LogServerRequest.trim p) s).1

all_done-replicate : (n : ℕ) (r : LogServerReply) → all_done (replicate n (some r)) ≡ ok tt
unfolding all_done
all_done-replicate zero r = refl
all_done-replicate (suc n) r = all_done-replicate n r

trim_uniform :
    (p : LogPos) (b : Bool) (s : LogServer) (n : ℕ) (next : LogPos)
    → trim p (uniform b s n next) ≡ (ok tt, uniform b (trimmed_server p s) n next)
unfolding trim fan_out_trim
trim_uniform p b s n next =
    rw (fan_out-replicate (LogServerRequest.trim p) n s)
      (rw (all_done-replicate n (serve (LogServerRequest.trim p) s).0) refl)

-- What a trim leaves of one server.
record IsTrimmed (p : LogPos) (s t : LogServer) : Type 0 where
  flag_same : t.is_sealed ≡ s.is_sealed
  tail_same : t.tail ≡ s.tail
  horizon : t.trim_pos ≡ (if ltb s.trim_pos p then p else s.trim_pos)
  shows : (q : LogPos) → read_at q t ≡ (if ltb q p then trimmed else read_at q s)
  holds_none : (q : LogPos) → entry_at q s.entries ≡ none → entry_at q t.entries ≡ none

entry_at-remove_above :
    (q p : LogPos) (m : List (LogPos × Entry))
    → p ≤ q
    → entry_at q (remove_below p m) ≡ entry_at q m
unfolding entry_at remove_below
entry_at-remove_above q p [] le = refl
entry_at-remove_above q p (x ∷ m) le = ground (arith, entry_at-remove_above q p m le)

holds_none-remove_below :
    (q p : LogPos) (m : List (LogPos × Entry))
    → entry_at q m ≡ none
    → entry_at q (remove_below p m) ≡ none
holds_none-remove_below q p m h = elim (Option-cases (entry_at q (remove_below p m))) [
  | inl free ↦ free
  | inr (x, there) ↦ absurd (cc (kept_entry q p m x there, h))
]

read_at-further :
    (q p : LogPos) (s : LogServer)
    → s.trim_pos < p
    → read_at q (record s { trim_pos = p; entries = remove_below p s.entries })
      ≡ (if ltb q p then trimmed else read_at q s)
unfolding read_at
read_at-further q p s lt = elim (Bool-cases (ltb q p)) [
  | inl below ↦ rw below refl
  | inr above ↦
      let kept : ltb q s.trim_pos ≡ false = ground (arith, above, lt) in
      rw (above, kept, entry_at-remove_above q p s.entries (ground (arith, above))) refl
]

read_at-no_further :
    (q p : LogPos) (s : LogServer)
    → p ≤ s.trim_pos
    → read_at q s ≡ (if ltb q p then trimmed else read_at q s)
unfolding read_at
read_at-no_further q p s le = ground (arith, le)

serve_trim-further :
    (p : LogPos) (s : LogServer)
    → ltb s.trim_pos p ≡ true
    → trimmed_server p s ≡ record s { trim_pos = p; entries = remove_below p s.entries }
unfolding serve
serve_trim-further p s further = rw (trimmed_server, further) refl

serve_trim-no_further :
    (p : LogPos) (s : LogServer) → ltb s.trim_pos p ≡ false → trimmed_server p s ≡ s
unfolding serve
serve_trim-no_further p s no_further = rw (trimmed_server, no_further) refl

serve_trim-IsTrimmed : (p : LogPos) (s : LogServer) → IsTrimmed p s (trimmed_server p s)
serve_trim-IsTrimmed p s = elim (Bool-cases (ltb s.trim_pos p)) [
  | inl further ↦ subst (IsTrimmed p s) (sym (serve_trim-further p s further)) (record {
    flag_same = refl;
    tail_same = refl;
    horizon = rw further refl;
    shows = λ q. read_at-further q p s (ground (arith, further));
    holds_none = λ q h. holds_none-remove_below q p s.entries h;
  })
  | inr no_further ↦ subst (IsTrimmed p s) (sym (serve_trim-no_further p s no_further)) (record {
    flag_same = refl;
    tail_same = refl;
    horizon = rw no_further refl;
    shows = λ q. read_at-no_further q p s (ground (arith, no_further));
    holds_none = λ q h. h;
  })
]

module _ (l : NativeLoglet) (p : LogPos) (h : IsAgreed l) where
  open h use {server, servers, next, sealed_flag}

  t : IsTrimmed p server (trimmed_server p server)
  t = serve_trim-IsTrimmed p server

  pub trim_agreed : trim p l ≡ (ok tt, uniform sealed_flag (trimmed_server p server) servers next)
  trim_agreed = ap (trim p) h.is ∙ trim_uniform p sealed_flag server servers next

  -- The loglet after a trim, by what it is.
  pub after_trim :
      {B : Type 0} (f : NativeLoglet → B)
      → f (trim p l).1 ≡ f (uniform sealed_flag (trimmed_server p server) servers next)
  after_trim f = ap (λ (r : Result (Unit {0}) × NativeLoglet). f r.1) trim_agreed

  pub trimmed-IsAgreed : IsAgreed (uniform sealed_flag (trimmed_server p server) servers next)
  trimmed-IsAgreed = record {
    server = trimmed_server p server;
    servers = servers;
    next = next;
    sealed_flag = sealed_flag;
    is = refl;
    flag = t.flag_same ∙ h.flag;
    below = record {
      tail_le = omega (arith, t.tail_same, h.below.tail_le);
      free = λ q le. t.holds_none q (h.below.free q le);
    };
    some_server = h.some_server;
    from = h.from;
    fits = h.fits;
  }

  pub horizon_after_trim :
      horizon_of (trim p l).1 ≡ (if ltb (horizon_of l) p then p else horizon_of l)
  horizon_after_trim =
      after_trim horizon_of
      ∙ horizon_uniform sealed_flag (trimmed_server p server) servers next h.some_server
      ∙ t.horizon
      ∙ ap (λ (k : LogPos). if ltb k p then p else k) (sym (horizon_agreed l h))

  pub read_after_trim :
      (q : LogPos) → read q (trim p l).1 ≡ (if ltb q p then err (Core.trimmed q) else read q l)
  read_after_trim q =
      after_trim (read q)
      ∙ read_uniform q sealed_flag (trimmed_server p server) servers next h.some_server
      ∙ ap (read_result q) (t.shows q)
      ∙ chosen
    where
      chosen :
          read_result q (if ltb q p then trimmed else read_at q server)
          ≡ (if ltb q p then err (Core.trimmed q) else read q l)
      chosen = elim (Bool-cases (ltb q p)) [
        | inl below ↦ rw below refl
        | inr above ↦ rw above (sym (read_agreed l h q))
      ]

-- Where no entry is yet, none is read; below the horizon all is trimmed.
pub read_none_agreed :
    (l : NativeLoglet) (q : LogPos) (h : IsAgreed l)
    → horizon_of l ≤ q
    → l.sequencer.next_pos ≤ q
    → read q l ≡ ok none
read_none_agreed l q h from beyond =
    let free = h.below.free q (omega (arith, next_of l h, beyond)) in
    let kept : ltb q h.server.trim_pos ≡ false = ground (arith, horizon_agreed l h, from) in
    read_agreed l h q ∙ unfold read_at in rw (kept, free) refl

pub read_trimmed_agreed :
    (l : NativeLoglet) (q : LogPos) (h : IsAgreed l)
    → q < horizon_of l
    → read q l ≡ err (Core.trimmed q)
read_trimmed_agreed l q h lt =
    let gone : ltb q h.server.trim_pos ≡ true = ground (arith, horizon_agreed l h, lt) in
    read_agreed l h q ∙ unfold read_at in rw gone refl
