-- ===== src/Engine/Base/Invariants.antt =====
-- The invariants of the apply loop, from those of one application of an entry.
use relos.Prelude.{
  ℕ, zero, suc, ◌≡◌, refl, subst, Option, none, some, ltb, leb, ◌==◌, Bool-cases, inl, inr,
  if◌then◌else◌,
}
use relos.Core.{LogPos, Entry, Result, ok, err, panic}
use relos.Log.Loglet.{Loglet}
use relos.Engine.Interface.{ReturnValue, success, Applicator}
use relos.Engine.Base.{
  BaseEngine, apply_one, Run, advance, loop_on, propose_loop, sync_loop, when_ok, handle_propose,
  handle_sync, ApplyRequest, propose, sync, handle, replied, Reply, proposed, synced,
}

-- Two answers that are equal leave the same state.
pub answered :
    {R S : Type 0} {a b : R} {s t : S}
    → ◌≡◌ {A = Option (R × S)} (some (a, s)) (some (b, t))
    → s ≡ t
answered e = cc

-- The state that an outcome of `apply_one` leaves the loop with has the property.
abbrev pub Continues :
    {L A : Type 0} (log : Loglet L) (applicator : Applicator A) (Inv : BaseEngine L A → Type 0)
    → Result ReturnValue
    → BaseEngine L A
    → Type 0
Continues log applicator Inv (ok rv) s = Inv (advance log applicator s)
Continues log applicator Inv (err e) s = Inv s
Continues log applicator Inv (panic m) s = Inv s

-- The log once the entry of a proposal has been appended.
abbrev pub requested : {L : Type 0} (log : Loglet L) → ApplyRequest → L → L
requested log (propose e) l = (log.append e l).1
requested log sync l = l

module _ {L A : Type 0} (log : Loglet L) (applicator : Applicator A) (Inv : BaseEngine L A → Type 0)
    (apply_one-Inv : (s : BaseEngine L A)
      → Inv s
      → Continues log applicator Inv
          (apply_one log applicator s.cursor s).0
          (apply_one log applicator s.cursor s).1) where
  loop_on-Inv :
      {R : Type 0} (r : Result ReturnValue) (s' t : BaseEngine L A) (x : Result R)
      (next : ReturnValue → BaseEngine L A → Run log applicator R)
      → ((rv : ReturnValue) (u : BaseEngine L A) → Inv u → next rv u ≡ some (x, t) → Inv t)
      → Continues log applicator Inv r s'
      → loop_on log applicator r s' next ≡ some (x, t)
      → Inv t
  loop_on-Inv (ok rv) s' t x next step h e = step rv (advance log applicator s') h e
  loop_on-Inv (err y) s' t x next step h e = subst (λ (u : BaseEngine L A). Inv u) (answered e) h
  loop_on-Inv (panic m) s' t x next step h e = subst (λ (u : BaseEngine L A). Inv u) (answered e) h

  sync_loop-Inv :
      (fuel : ℕ) (tail : LogPos) (s t : BaseEngine L A) (x : Result LogPos)
      → Inv s
      → sync_loop log applicator fuel tail s ≡ some (x, t)
      → Inv t
  unfolding sync_loop
  sync_loop-Inv zero tail s t x h e = cc
  sync_loop-Inv (suc fuel) tail s t x h e = elim (Bool-cases (ltb s.cursor tail)) [
    | inl more ↦
        loop_on-Inv (apply_one log applicator s.cursor s).0 (apply_one log applicator s.cursor s).1
          t x (λ _ s''. sync_loop log applicator fuel tail s'')
          (λ rv u. sync_loop-Inv fuel tail u t x) (apply_one-Inv s h) (rw more at e)
    | inr done ↦ subst (λ (u : BaseEngine L A). Inv u) (answered (rw done at e)) h
  ]

  propose_loop-Inv :
      (fuel : ℕ) (target : LogPos) (rv : ReturnValue) (s t : BaseEngine L A)
      (x : Result ReturnValue)
      → Inv s
      → propose_loop log applicator fuel target rv s ≡ some (x, t)
      → Inv t
  unfolding propose_loop
  propose_loop-Inv zero target rv s t x h e = cc
  propose_loop-Inv (suc fuel) target rv s t x h e = elim (Bool-cases (leb s.cursor target)) [
    | inl more ↦
        loop_on-Inv (apply_one log applicator s.cursor s).0 (apply_one log applicator s.cursor s).1
          t x
          (λ rv' s''.
            propose_loop log applicator fuel target (if s.cursor == target then rv' else rv) s'')
          (λ rv' u. propose_loop-Inv fuel target (if s.cursor == target then rv' else rv) u t x)
          (apply_one-Inv s h) (rw more at e)
    | inr done ↦ subst (λ (u : BaseEngine L A). Inv u) (answered (rw done at e)) h
  ]

  pub handle_propose-Inv :
      (fuel : ℕ) (entry : Entry) (s t : BaseEngine L A) (x : Result ReturnValue)
      → Inv (record s { loglet = (log.append entry s.loglet).1 })
      → handle_propose log applicator fuel entry s ≡ some (x, t)
      → Inv t
  unfolding handle_propose
  handle_propose-Inv fuel entry s t x h e = go (log.append entry s.loglet).0 e
    where
      go :
          (r : Result LogPos)
          → when_ok log applicator r
              (record s { loglet = (log.append entry s.loglet).1 })
              (λ target s₁. propose_loop log applicator fuel target success s₁)
            ≡ some (x, t)
          → Inv t
      go (ok target) e' = propose_loop-Inv fuel target success _ t x h e'
      go (err y) e' = subst (λ (u : BaseEngine L A). Inv u) (answered e') h
      go (panic m) e' = subst (λ (u : BaseEngine L A). Inv u) (answered e') h

  pub handle_sync-Inv :
      (fuel : ℕ) (s t : BaseEngine L A) (x : Result LogPos)
      → Inv s
      → handle_sync log applicator fuel s ≡ some (x, t)
      → Inv t
  unfolding handle_sync
  handle_sync-Inv fuel s t x h e = go (log.check_tail s.loglet) e
    where
      go :
          (r : Result LogPos)
          → when_ok log applicator r s (λ tail s₁. sync_loop log applicator fuel tail s₁)
            ≡ some (x, t)
          → Inv t
      go (ok tail) e' = sync_loop-Inv fuel tail s t x h e'
      go (err y) e' = subst (λ (u : BaseEngine L A). Inv u) (answered e') h
      go (panic m) e' = subst (λ (u : BaseEngine L A). Inv u) (answered e') h

  replied-Inv :
      {R : Type 0} (f : Result R → Reply) (o : Run log applicator R) (t : BaseEngine L A)
      (x : Reply)
      → ((y : Result R) (u : BaseEngine L A) → o ≡ some (y, u) → Inv u)
      → ◌≡◌ {A = Option (Reply × BaseEngine L A)} (replied log applicator f o) (some (x, t))
      → Inv t
  replied-Inv f none t x held e = cc
  replied-Inv f (some (y, u)) t x held e =
      subst (λ (v : BaseEngine L A). Inv v) (answered e) (held y u refl)

  pub handle-Inv :
      (fuel : ℕ) (q : ApplyRequest) (s t : BaseEngine L A) (x : Reply)
      → Inv (record s { loglet = requested log q s.loglet })
      → handle log applicator fuel q s ≡ some (x, t)
      → Inv t
  unfolding handle
  handle-Inv fuel (propose entry) s t x h e =
      replied-Inv proposed (handle_propose log applicator fuel entry s) t x
        (λ y u eq. handle_propose-Inv fuel entry s u y h eq) e
  handle-Inv fuel sync s t x h e =
      replied-Inv synced (handle_sync log applicator fuel s) t x
        (λ y u eq. handle_sync-Inv fuel s u y h eq) e
