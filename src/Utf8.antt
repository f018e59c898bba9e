-- ===== src/Utf8.antt =====
-- The UTF-8 bytes of a JavaScript string, as `Buffer.from` and `update(…, 'utf8')` make them: a
-- surrogate pair is one character, and a half alone is replaced by U+FFFD.
pub mod WellFormed
pub mod Injective
use potens_intern_backend_sh.Common.{
  ℕ, ◌+◌, ◌-◌, ◌*◌, ◌/◌, ◌%◌, ◌<◌, ◌≡◌, refl, List, [], ◌∷◌, ◌++◌, ◌&&◌, Text, All, arith, ltb, leb,
  if◌then◌else◌,
}
use potens_intern_backend_sh.Json.{is_high, is_low}

unfoldable utf8_unit : ℕ → List ℕ
utf8_unit c =
    if ltb c 0x80
    then c ∷ []
    else if ltb c 0x800
    then (0xc0 + c / 64) ∷ (0x80 + c % 64) ∷ []
    else if leb 0xd800 c && ltb c 0xe000
    then 0xef ∷ 0xbf ∷ 0xbd ∷ []
    else (0xe0 + c / 4096) ∷ (0x80 + c / 64 % 64) ∷ (0x80 + c % 64) ∷ []

unfoldable utf8_pair : ℕ → ℕ → List ℕ
utf8_pair high low =
    let c = 0x10000 + (high - 0xd800) * 1024 + (low - 0xdc00) in
    (0xf0 + c / 262144) ∷ (0x80 + c / 4096 % 64) ∷ (0x80 + c / 64 % 64) ∷ (0x80 + c % 64) ∷ []

unfoldable pub utf8 : Text → List ℕ
unfolding utf8_unit utf8_pair
utf8 [] = []
utf8 (c ∷ []) = utf8_unit c
utf8 (c ∷ d ∷ rest) =
    let pair = utf8_pair c d ++ utf8 rest in
    let single = utf8_unit c ++ utf8 (d ∷ rest) in if is_high c && is_low d then pair else single

abbrev pub IsAscii : Text → Type 0
IsAscii t = All (λ c. c < 0x80) t

-- An ASCII text is its own bytes.
pub utf8_of_IsAscii : (t : Text) → IsAscii t → utf8 t ≡ t
unfolding utf8
utf8_of_IsAscii [] h = refl
utf8_of_IsAscii (c ∷ []) h = ground arith
utf8_of_IsAscii (c ∷ d ∷ rest) h = ground (arith, utf8_of_IsAscii (d ∷ rest) h.1)

utf8_tests :
    (utf8 (0xe9 ∷ []) ≡ 0xc3 ∷ 0xa9 ∷ [])
    × (utf8 (0x20ac ∷ []) ≡ 0xe2 ∷ 0x82 ∷ 0xac ∷ [])
    × (utf8 (0xd83d ∷ 0xde00 ∷ 0x61 ∷ []) ≡ 0xf0 ∷ 0x9f ∷ 0x98 ∷ 0x80 ∷ 0x61 ∷ [])
    × (utf8 (0xd83d ∷ []) ≡ 0xef ∷ 0xbf ∷ 0xbd ∷ [])
unfolding utf8
utf8_tests = (refl, refl, refl, refl)
