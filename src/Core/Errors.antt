-- ===== src/Core/Errors.antt =====
-- crates/relos-core/src/error.rs and types.rs: the error type, `Result`, and the sentinels.
-- A panic (`expect`, `assert!`, an index out of bounds) is a third outcome.
use relos.Prelude.{ℕ, Option, none, some, ◌≡◌}
use relos.Prelude.Bytes.{Text}

-- `LogPos` and `ServerId` are `u64`.
abbrev pub LogPos : Type 0
LogPos = ℕ

abbrev pub ServerId : Type 0
ServerId = ℕ

abbrev pub log_pos_invalid : LogPos
log_pos_invalid = 0

abbrev pub log_pos_begin : LogPos
log_pos_begin = 1

pub data RelosError : Type 0 where
  sealed : LogPos → RelosError
  trimmed : LogPos → RelosError
  end_of_log : RelosError
  version_mismatch : ℕ → ℕ → RelosError
  serialization : Text → RelosError
  store : Text → RelosError
  not_found : Text → RelosError
  invalid_operation : Text → RelosError
  io : Text → RelosError
  internal : Text → RelosError

pub data Result {ℓ} (A : Type ℓ) : Type ℓ where
  ok : A → Result A
  err : RelosError → Result A
  panic : Text → Result A

-- `?` on a `Result`.
abbrev pub and_then {ℓ κ} : {A : Type ℓ} {B : Type κ} → Result A → (A → Result B) → Result B
and_then (ok a) f = f a
and_then (err e) f = err e
and_then (panic m) f = panic m

-- `ok_or_else`.
abbrev pub ok_or {ℓ} : {A : Type ℓ} → Option A → RelosError → Result A
ok_or none e = err e
ok_or (some a) e = ok a

pub ok_inj {ℓ} : {A : Type ℓ} {a b : A} → ok a ≡ ok b → a ≡ b
ok_inj e = cc
