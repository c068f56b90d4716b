-- ===== src/Log/Decimal.antt =====
-- Decimal text, as `format!("{}", n)` prints an unsigned number, and that it is injective.
use relos.Prelude.{
  ℕ, zero, suc, ◌+◌, ◌-◌, ◌*◌, ◌/◌, ◌%◌, ◌<◌, ◌≡◌, refl, [], ◌∷◌, ◌++◌, arith, ltb, sym, ap, ◌∙◌,
  inl, inr, Bool-cases, if◌then◌else◌,
}
use relos.Prelude.Bytes.{Text}

digits_of : ℕ → ℕ → Text
digits_of zero n = []
digits_of (suc fuel) n =
    let front = digits_of fuel (n / 10) in
    if ltb n 10 then (b'0' + n) ∷ [] else front ++ (b'0' + n % 10) ∷ []

-- One digit is at least a tenth of the number, so `n + 1` rounds are enough.
unfoldable pub decimal : ℕ → Text
unfolding digits_of
decimal n = digits_of (suc n) n

value_from : ℕ → Text → ℕ
value_from acc [] = acc
value_from acc (c ∷ cs) = value_from (acc * 10 + (c - b'0')) cs

value_from-append :
    (acc c : ℕ) (cs : Text) → value_from acc (cs ++ c ∷ []) ≡ value_from acc cs * 10 + (c - b'0')
unfolding value_from
value_from-append acc c [] = refl
value_from-append acc c (d ∷ cs) = value_from-append (acc * 10 + (d - b'0')) c cs

value-digits_of : (fuel n : ℕ) → n < fuel → value_from 0 (digits_of fuel n) ≡ n
unfolding digits_of value_from
value-digits_of zero n h = absurd (omega arith)
value-digits_of (suc fuel) n h = elim (Bool-cases (ltb n 10)) [
  | inl small ↦ rw small (omega arith)
  | inr large ↦ rw large (
      rw (value_from-append 0 (b'0' + n % 10) (digits_of fuel (n / 10)))
        (rw (value-digits_of fuel (n / 10) (ground arith)) (omega arith)))
]

-- Two numbers with the same text are the same number.
pub decimal-injective : (a b : ℕ) → decimal a ≡ decimal b → a ≡ b
unfolding decimal
decimal-injective a b h =
    sym (value-digits_of (suc a) a (omega arith))
    ∙ ap (value_from 0) h
    ∙ value-digits_of (suc b) b (omega arith)

decimal-120 : decimal 120 ≡ b'1' ∷ b'2' ∷ b'0' ∷ []
unfolding decimal
decimal-120 = refl
