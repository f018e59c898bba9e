-- ===== src/Http/Decimal/Digits.antt =====
-- The fuel of `decimal` in Http/Decimal, and the digits that it writes.
use native.Mathlib.Omega.{arith}
use potens_intern_backend_sh.Common.{
  ℕ, zero, suc, ◌+◌, ◌-◌, ◌*◌, ◌/◌, ◌%◌, ◌<◌, ◌≤◌, ◌≡◌, true, false, [], ◌∷◌, Text, ltb, ap, ◌∙◌,
  Bool-cases, inl, inr,
}
use potens_intern_backend_sh.Http.Decimal.{digits_before, decimal}
use potens_intern_backend_sh.Pagination.Bounds.{AllDigits, value_from}

module _ (fuel n : ℕ) (after : Text) where
  last_digit : ltb n 10 ≡ true → digits_before (suc fuel) n after ≡ (48 + n) ∷ after
  unfolding digits_before
  last_digit h = ground arith

  more_digits :
      ltb n 10 ≡ false
      → digits_before (suc fuel) n after ≡ digits_before fuel (n / 10) ((48 + n % 10) ∷ after)
  unfolding digits_before
  more_digits h = ground arith

digits_before_lem :
    (fuel n : ℕ) (after : Text)
    → n < fuel
    → AllDigits after
    → AllDigits (digits_before fuel n after)
      × (value_from 0 (digits_before fuel n after) ≡ value_from n after)
digits_before_lem zero n after enough h = absurd (omega (arith, enough))
digits_before_lem (suc fuel) n after enough h = elim (Bool-cases (ltb n 10)) [
  | inl small ↦
      let same : 0 * 10 + (48 + n - 48) ≡ n = omega arith in
      rw (last_digit fuel n after small)
        ((omega arith, ground arith, h), ap (λ m. value_from m after) same)
  | inr large ↦
      let big : 10 ≤ n = ground arith in
      let same : n / 10 * 10 + (48 + n % 10 - 48) ≡ n = omega arith in
      let (digits, value) =
        digits_before_lem fuel (n / 10) ((48 + n % 10) ∷ after) (omega arith)
          (omega arith, omega arith, h) in
      rw (more_digits fuel n after large) (digits, value ∙ ap (λ m. value_from m after) same)
]

-- The digits of a number, read as a number, are the number.
pub decimal_lem : (n : ℕ) → AllDigits (decimal n) × (value_from 0 (decimal n) ≡ n)
unfolding decimal
decimal_lem n = digits_before_lem (suc n) n [] (omega arith) tt
