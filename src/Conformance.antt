-- ===== src/Conformance.antt =====
-- The repository's own unit tests, translated statement by statement and run on the model, so that
-- the model is held to what the source's authors expect of it. This file has what the tests use of
-- Rust's standard library: `unwrap`, `assert!`, `assert_eq!`, `matches!`.
pub mod Chain
pub mod MetaStore
pub mod MemoryLoglet
pub mod VirtualLog
pub mod Store
pub mod BaseEngine
pub mod NativeLoglet
pub mod Stack
pub mod ViewTracking
use relos.Prelude.{ℕ, Bool, true, false, Option, none, some, ◌==◌}
use relos.Prelude.Bytes.{Bytes, Text, text, bytes_eq}
use relos.Core.{Entry, LogPos, Result, ok, err, panic, sealed, trimmed, Exec, get_header}

-- A test from the value that it makes first.
abbrev pub run_on : {S A : Type 0} → Result S → Exec S A → Result A
run_on (ok s) test = (test s).0
run_on (err e) test = err e
run_on (panic m) test = panic m

abbrev pub unwrapped : {A : Type 0} → Result A → Result A
unwrapped (ok a) = ok a
unwrapped (err e) = panic (text "called `Result::unwrap()` on an `Err` value")
unwrapped (panic m) = panic m

abbrev pub unwrap_option : {A : Type 0} → Option A → Result A
unwrap_option none = panic (text "called `Option::unwrap()` on a `None` value")
unwrap_option (some a) = ok a

-- `.unwrap()` of a call
abbrev pub unwrap : {S A : Type 0} → Exec S A → Exec S A
unwrap m s = let (r, s') = m s in (unwrapped r, s')

-- A call, with its result whatever it is
abbrev pub attempt : {S A : Type 0} → Exec S A → Exec S (Result A)
attempt m s = let (r, s') = m s in (ok r, s')

-- A call that changes nothing, and its result
abbrev pub observe : {S A : Type 0} → (S → A) → Exec S A
observe f s = (ok (f s), s)

abbrev pub look : {S A : Type 0} → (S → Result A) → Exec S A
look f s = (unwrapped (f s), s)

abbrev pub assert_that : {S : Type 0} → Bool → Exec S (Unit {0})
assert_that true s = (ok tt, s)
assert_that false s = (panic (text "assertion failed"), s)

abbrev pub is_none : {A : Type 0} → Option A → Bool
is_none none = true
is_none (some a) = false

-- `assert_eq!(..unwrap().payload, payload)` of what is read
abbrev pub has_payload : Text → Option Entry → Bool
has_payload payload none = false
has_payload payload (some e) = bytes_eq e.payload payload

abbrev pub is_value : Bytes → Option Bytes → Bool
is_value v none = false
is_value v (some b) = bytes_eq b v

abbrev pub has_header : Text → Bytes → Option Entry → Bool
has_header name value none = false
has_header name value (some e) = is_value value (get_header e name)

abbrev pub is_position : LogPos → Option LogPos → Bool
is_position p none = false
is_position p (some q) = q == p

-- `matches!(result, Err(RelosError::Sealed(pos)))`
abbrev pub is_sealed_at : {A : Type 0} → LogPos → Result A → Bool
is_sealed_at p (ok a) = false
is_sealed_at p (err (sealed q)) = q == p
is_sealed_at p (err other) = false
is_sealed_at p (panic m) = false

-- `matches!(result, Err(RelosError::Trimmed(pos)))`
abbrev pub is_trimmed_at : {A : Type 0} → LogPos → Result A → Bool
is_trimmed_at p (ok a) = false
is_trimmed_at p (err (trimmed q)) = q == p
is_trimmed_at p (err other) = false
is_trimmed_at p (panic m) = false
