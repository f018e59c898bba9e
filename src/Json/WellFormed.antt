-- ===== src/Json/WellFormed.antt =====
-- `JSON.stringify` writes no lone half of a surrogate pair, whatever its strings hold.
use potens_intern_backend_sh.Common.{
  ℕ, ◌<◌, ◌≡◌, refl, inl, inr, true, false, ◌&&◌, List, [], ◌∷◌, ◌++◌, map, Text, codes, join, All,
  Bool, ltb, leb, ◌==◌, if◌then◌else◌, Bool-cases, arith,
}
use potens_intern_backend_sh.Json.{
  Json, null, bool, num, str, arr, obj, Items, nil, cons, Fields, end, field, Mark, d0, d1, d2, d3,
  d4, d5, d6, d7, d8, d9, minus, plus, point, exponent, mark_code, hex_digit, unicode_escape,
  escape_unit, escape, quote, stringify, item_texts, field_texts, is_high, is_low,
}
use potens_intern_backend_sh.Utf8.{IsAscii}
use potens_intern_backend_sh.Utf8.WellFormed.{
  IsUnit, IsWellFormed, empty, unit, pair, IsWellFormed-append, IsWellFormed-of_IsAscii,
}

-- A string of 16-bit code units.
abbrev pub IsUtf16 : Text → Type 0
IsUtf16 t = All (λ c. c < 65536) t

unfoldable mutual
  pub HasUtf16 : Json → Type 0
  HasUtf16 null = Unit
  HasUtf16 (bool b) = Unit
  HasUtf16 (num m ms) = Unit
  HasUtf16 (str t) = IsUtf16 t
  HasUtf16 (arr xs) = ItemsUtf16 xs
  HasUtf16 (obj fs) = FieldsUtf16 fs

  ItemsUtf16 : Items → Type 0
  ItemsUtf16 nil = Unit
  ItemsUtf16 (cons x xs) = HasUtf16 x × ItemsUtf16 xs

  FieldsUtf16 : Fields → Type 0
  FieldsUtf16 end = Unit
  FieldsUtf16 (field k v fs) = IsUtf16 k × HasUtf16 v × FieldsUtf16 fs

hex_digit_bound : (n : ℕ) → n < 16 → hex_digit n < 0x80
unfolding hex_digit
hex_digit_bound n h = ground arith

unicode_escape-IsWellFormed : (c : ℕ) → c < 65536 → IsWellFormed (unicode_escape c)
unfolding unicode_escape
unicode_escape-IsWellFormed c h = IsWellFormed-of_IsAscii _ (
  omega arith,
  (
    omega arith,
    (
      hex_digit_bound _ (omega (arith, h)),
      (
        hex_digit_bound _ (omega arith),
        (hex_digit_bound _ (omega arith), (hex_digit_bound _ (omega arith), tt)),
      ),
    ),
  ),
)

-- An escape of two characters, or what follows when there is none.
short :
    (b : Bool) (d : ℕ) (t : Text)
    → d < 0x80
    → IsWellFormed t
    → IsWellFormed (if b then 92 ∷ d ∷ [] else t)
short true d t h k = IsWellFormed-of_IsAscii (92 ∷ d ∷ []) (omega arith, (h, tt))
short false d t h k = k

either :
    (b : Bool) (s t : Text)
    → IsWellFormed s
    → (b ≡ false → IsWellFormed t)
    → IsWellFormed (if b then s else t)
either true s t h k = h
either false s t h k = k refl

IsUnit-of_whole : (c : ℕ) → c < 65536 → leb 0xd800 c && ltb c 0xe000 ≡ false → IsUnit c
IsUnit-of_whole c h whole = elim (Bool-cases (ltb c 0xd800)) [
  | inl low ↦ inl (ground (arith, low))
  | inr high ↦ inr (ground (arith, high, whole), h)
]

escape_unit-IsWellFormed : (c : ℕ) → c < 65536 → IsWellFormed (escape_unit c)
unfolding escape_unit
escape_unit-IsWellFormed c h =
    let code = unicode_escape-IsWellFormed c h in
    short (c == 34) 34 _ (omega arith) (
      short (c == 92) 92 _ (omega arith) (
        short (c == 8) 98 _ (omega arith) (
          short (c == 9) 116 _ (omega arith) (
            short (c == 10) 110 _ (omega arith) (
              short (c == 12) 102 _ (omega arith) (
                short (c == 13) 114 _ (omega arith) (
                  either (ltb c 32) _ _ code λ printed.
                    either (leb 0xd800 c && ltb c 0xe000) _ _ code
                      λ whole. unit c [] (IsUnit-of_whole c h whole) empty)))))))

escape-IsWellFormed : (t : Text) → IsUtf16 t → IsWellFormed (escape t)
unfolding escape
escape-IsWellFormed [] h = empty
escape-IsWellFormed (c ∷ []) h = escape_unit-IsWellFormed c h.0
escape-IsWellFormed (c ∷ d ∷ rest) (hc, (hd, h)) = elim (Bool-cases (is_high c && is_low d)) [
  | inl both ↦
      simp both (pair c d (escape rest) (ground (arith, both)) (escape-IsWellFormed rest h))
  | inr single ↦ simp single (
      IsWellFormed-append (escape_unit c) (escape (d ∷ rest)) (escape_unit-IsWellFormed c hc)
        (escape-IsWellFormed (d ∷ rest) (hd, h)))
]

-- A text between two ASCII characters.
enclosed :
    (c d : ℕ) (t : Text) → c < 0x80 → d < 0x80 → IsWellFormed t → IsWellFormed (c ∷ (t ++ d ∷ []))
enclosed c d t h k w =
    unit c _ (inl (omega (arith, h)))
      (IsWellFormed-append t (d ∷ []) w (IsWellFormed-of_IsAscii (d ∷ []) (k, tt)))

quote-IsWellFormed : (t : Text) → IsUtf16 t → IsWellFormed (quote t)
unfolding quote
quote-IsWellFormed t h =
    enclosed 34 34 (escape t) (omega arith) (omega arith) (escape-IsWellFormed t h)

join-IsWellFormed : (ts : List Text) → All IsWellFormed ts → IsWellFormed (join (codes ",") ts)
unfolding join
join-IsWellFormed [] h = empty
join-IsWellFormed (t ∷ []) h = h.0
join-IsWellFormed (t ∷ u ∷ ts) h =
    IsWellFormed-append t _ h.0 (unit 44 _ (inl (omega arith)) (join-IsWellFormed (u ∷ ts) h.1))

mark_code_bound : (m : Mark) → mark_code m < 0x80
unfolding mark_code
mark_code_bound d0 = omega arith
mark_code_bound d1 = omega arith
mark_code_bound d2 = omega arith
mark_code_bound d3 = omega arith
mark_code_bound d4 = omega arith
mark_code_bound d5 = omega arith
mark_code_bound d6 = omega arith
mark_code_bound d7 = omega arith
mark_code_bound d8 = omega arith
mark_code_bound d9 = omega arith
mark_code_bound minus = omega arith
mark_code_bound plus = omega arith
mark_code_bound point = omega arith
mark_code_bound exponent = omega arith

mark_codes-IsAscii : (ms : List Mark) → IsAscii (map mark_code ms)
mark_codes-IsAscii [] = tt
mark_codes-IsAscii (m ∷ ms) = (mark_code_bound m, mark_codes-IsAscii ms)

mutual
  unfolding stringify HasUtf16

  pub stringify-IsWellFormed : (j : Json) → HasUtf16 j → IsWellFormed (stringify j)
  stringify-IsWellFormed null h = IsWellFormed-of_IsAscii (codes "null") (ground arith)
  stringify-IsWellFormed (bool true) h = IsWellFormed-of_IsAscii (codes "true") (ground arith)
  stringify-IsWellFormed (bool false) h = IsWellFormed-of_IsAscii (codes "false") (ground arith)
  stringify-IsWellFormed (num m ms) h =
      IsWellFormed-of_IsAscii _ (mark_code_bound m, mark_codes-IsAscii ms)
  stringify-IsWellFormed (str t) h = quote-IsWellFormed t h
  stringify-IsWellFormed (arr xs) h =
      enclosed 91 93 _ (omega arith) (omega arith)
        (join-IsWellFormed (item_texts xs) (item_texts-IsWellFormed xs h))
  stringify-IsWellFormed (obj fs) h =
      enclosed 123 125 _ (omega arith) (omega arith)
        (join-IsWellFormed (field_texts fs) (field_texts-IsWellFormed fs h))

  item_texts-IsWellFormed : (xs : Items) → ItemsUtf16 xs → All IsWellFormed (item_texts xs)
  item_texts-IsWellFormed nil h = tt
  item_texts-IsWellFormed (cons x xs) h =
      (stringify-IsWellFormed x h.0, item_texts-IsWellFormed xs h.1)

  field_texts-IsWellFormed : (fs : Fields) → FieldsUtf16 fs → All IsWellFormed (field_texts fs)
  field_texts-IsWellFormed end h = tt
  field_texts-IsWellFormed (field k v fs) (hk, hv, h) = (
    IsWellFormed-append (quote k) _ (quote-IsWellFormed k hk)
        (unit 58 _ (inl (omega arith)) (stringify-IsWellFormed v hv)),
    field_texts-IsWellFormed fs h,
  )
