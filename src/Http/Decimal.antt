-- ===== src/Http/Decimal.antt =====
-- `String(n)` of a number that is an integer, as `JSON.stringify` writes it.
pub mod Digits
use potens_intern_backend_sh.Common.{
  ℕ, zero, suc, ◌+◌, ◌/◌, ◌%◌, ◌≡◌, refl, true, false, [], ◌∷◌, Text, codes, ltb,
}

-- The digits of a number before those in the text; the fuel is more than the number of digits.
digits_before : ℕ → ℕ → Text → Text
digits_before zero n after = after
digits_before (suc fuel) n after = elim (ltb n 10) [
  | true ↦ (48 + n) ∷ after
  | false ↦ digits_before fuel (n / 10) ((48 + n % 10) ∷ after)
]

unfoldable pub decimal : ℕ → Text
unfolding digits_before
decimal n = digits_before (suc n) n []

decimal_tests : (decimal 0 ≡ codes "0") × (decimal 1_050 ≡ codes "1050")
unfolding decimal
decimal_tests = (refl, refl)
