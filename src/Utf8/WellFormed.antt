-- ===== src/Utf8/WellFormed.antt =====
-- Strings without a lone half of a surrogate pair, which UTF-8 keeps apart.
use potens_intern_backend_sh.Common.{
  ℕ, ◌<◌, ◌≤◌, ◌≡◌, refl, sym, ◌⊎◌, inl, inr, true, false, [], ◌∷◌, ◌++◌, Text, append-nil, arith,
  ◌&&◌,
}
use potens_intern_backend_sh.Json.{is_high, is_low}
use potens_intern_backend_sh.Utf8.{utf8_unit, utf8_pair, utf8, IsAscii}

-- A code unit that is a character by itself.
abbrev pub IsUnit : ℕ → Type 0
IsUnit c = (c < 0xd800) ⊎ ((0xe000 ≤ c) × (c < 0x10000))

-- The two halves of a surrogate pair.
abbrev pub IsPair : ℕ → ℕ → Type 0
IsPair high low = (0xd800 ≤ high) × (high < 0xdc00) × (0xdc00 ≤ low) × (low < 0xe000)

pub data IsWellFormed : Text → Type 0 where
  empty : IsWellFormed []
  unit : (c : ℕ) (t : Text) → IsUnit c → IsWellFormed t → IsWellFormed (c ∷ t)
  pair :
      (high low : ℕ) (t : Text) → IsPair high low → IsWellFormed t → IsWellFormed (high ∷ low ∷ t)

pub IsWellFormed-append : (s t : Text) → IsWellFormed s → IsWellFormed t → IsWellFormed (s ++ t)
IsWellFormed-append s t empty k = k
IsWellFormed-append s t (unit c r u h) k = unit c (r ++ t) u (IsWellFormed-append r t h k)
IsWellFormed-append s t (pair high low r p h) k =
    pair high low (r ++ t) p (IsWellFormed-append r t h k)

pub IsWellFormed-of_IsAscii : (t : Text) → IsAscii t → IsWellFormed t
IsWellFormed-of_IsAscii [] h = empty
IsWellFormed-of_IsAscii (c ∷ t) h =
    unit c t (inl (omega (arith, h.0))) (IsWellFormed-of_IsAscii t h.1)

high_of_IsUnit : (c : ℕ) → IsUnit c → is_high c ≡ false
high_of_IsUnit c (inl h) = ground arith
high_of_IsUnit c (inr h) = ground arith

pub utf8_of_unit : (c : ℕ) (t : Text) → IsUnit c → utf8 (c ∷ t) ≡ utf8_unit c ++ utf8 t
unfolding utf8
utf8_of_unit c [] h = sym (append-nil _)
utf8_of_unit c (d ∷ t) h = rw (high_of_IsUnit c h) refl

pub utf8_of_pair :
    (high low : ℕ) (t : Text)
    → IsPair high low
    → utf8 (high ∷ low ∷ t) ≡ utf8_pair high low ++ utf8 t
unfolding utf8
utf8_of_pair high low t h =
    let both : is_high high && is_low low ≡ true = ground (arith, h) in rw both refl
