-- ===== src/Utf8/Injective.antt =====
-- The bytes of a well-formed string determine it.
use mathlib.Core.List.{append_cancel_left, append_cancel_right}
use potens_intern_backend_sh.Common.{
  ℕ, ◌≡◌, ap, inl, inr, ◌<◌, refl, sym, ◌∙◌, List, [], ◌∷◌, ◌++◌, Text, append_assoc, Bool-cases,
  false, ◌&&◌, arith,
}
use potens_intern_backend_sh.Json.{is_high, is_low}
use potens_intern_backend_sh.Utf8.{utf8_unit, utf8_pair, utf8}
use potens_intern_backend_sh.Utf8.WellFormed.{
  IsUnit, IsPair, IsWellFormed, empty, unit, pair, utf8_of_unit, utf8_of_pair,
}

-- The code of a character is not the front of that of another one.
unit_unit :
    (c d : ℕ) (x y : List ℕ)
    → IsUnit c
    → IsUnit d
    → utf8_unit c ++ x ≡ utf8_unit d ++ y
    → (c ≡ d) × (x ≡ y)
unfolding utf8_unit
unit_unit c d x y h k e = ground arith

unit_pair :
    (c high low : ℕ) (x y : List ℕ)
    → IsUnit c
    → IsPair high low
    → ¬ (utf8_unit c ++ x ≡ utf8_pair high low ++ y)
unfolding utf8_unit utf8_pair
unit_pair c high low x y h k e = ground arith

pair_pair :
    (h l k m : ℕ) (x y : List ℕ)
    → IsPair h l
    → IsPair k m
    → utf8_pair h l ++ x ≡ utf8_pair k m ++ y
    → (h ≡ k) × (l ≡ m) × (x ≡ y)
unfolding utf8_pair
pair_pair h l k m x y p q e = ground arith

unit_nil : (c : ℕ) (x : List ℕ) → ¬ (utf8_unit c ++ x ≡ [])
unfolding utf8_unit
unit_nil c x e = ground arith

pair_nil : (h l : ℕ) (x : List ℕ) → ¬ (utf8_pair h l ++ x ≡ [])
unfolding utf8_pair
pair_nil h l x e = cc

utf8-nil : utf8 [] ≡ []
unfolding utf8
utf8-nil = refl

pub utf8_injective : (s t : Text) → IsWellFormed s → IsWellFormed t → utf8 s ≡ utf8 t → s ≡ t
utf8_injective s t empty empty e = refl
utf8_injective s t empty (unit c r u k) e =
    absurd (unit_nil c (utf8 r) (sym (utf8_of_unit c r u) ∙ sym e ∙ utf8-nil))
utf8_injective s t empty (pair h l r p k) e =
    absurd (pair_nil h l (utf8 r) (sym (utf8_of_pair h l r p) ∙ sym e ∙ utf8-nil))
utf8_injective s t (unit c r u h) empty e =
    absurd (unit_nil c (utf8 r) (sym (utf8_of_unit c r u) ∙ e ∙ utf8-nil))
utf8_injective s t (pair a l r p h) empty e =
    absurd (pair_nil a l (utf8 r) (sym (utf8_of_pair a l r p) ∙ e ∙ utf8-nil))
utf8_injective s t (unit c r u h) (unit d q v k) e =
    let (same, rest) =
      unit_unit c d (utf8 r) (utf8 q) u v (sym (utf8_of_unit c r u) ∙ e ∙ utf8_of_unit d q v) in
    let tails = utf8_injective r q h k rest in cc
utf8_injective s t (unit c r u h) (pair a l q p k) e =
    absurd
      (unit_pair c a l (utf8 r) (utf8 q) u p (sym (utf8_of_unit c r u) ∙ e ∙ utf8_of_pair a l q p))
utf8_injective s t (pair a l q p h) (unit c r u k) e = absurd (
    unit_pair c a l (utf8 r) (utf8 q) u p (sym (utf8_of_unit c r u) ∙ sym e ∙ utf8_of_pair a l q p))
utf8_injective s t (pair a l r p h) (pair b m q o k) e =
    let (high, low, rest) =
      pair_pair a l b m (utf8 r) (utf8 q) p o
        (sym (utf8_of_pair a l r p) ∙ e ∙ utf8_of_pair b m q o) in
    let tails = utf8_injective r q h k rest in cc

unit-ascii : (c : ℕ) → c < 0x80 → utf8_unit c ≡ c ∷ []
unfolding utf8_unit
unit-ascii c h = ground (arith, h)

utf8-ascii : (c : ℕ) (t : Text) → c < 0x80 → utf8 (c ∷ t) ≡ c ∷ utf8 t
utf8-ascii c t h =
    utf8_of_unit c t (inl (omega (arith, h)))
    ∙ ap (λ (code : List ℕ). code ++ utf8 t) (unit-ascii c h)

alone : (a c : ℕ) → c < 0x80 → is_high a && is_low c ≡ false
alone a c h = ground (arith, h)

-- A text is cut at an ASCII character as its bytes are.
utf8-append : (s : Text) (c : ℕ) (t : Text) → c < 0x80 → utf8 (s ++ c ∷ t) ≡ utf8 s ++ c ∷ utf8 t
unfolding utf8
utf8-append [] c t h = utf8-ascii c t h
utf8-append (a ∷ []) c t h =
    simp (alone a c h) (ap (λ (r : List ℕ). utf8_unit a ++ r) (utf8-ascii c t h))
utf8-append (a ∷ b ∷ s) c t h = elim (Bool-cases (is_high a && is_low b)) [
  | inl both ↦ simp both (ap (λ (r : List ℕ). utf8_pair a b ++ r) (utf8-append s c t h))
  | inr single ↦ simp single (
      ap (λ (r : List ℕ). utf8_unit a ++ r) (utf8-append (b ∷ s) c t h)
      ∙ sym (append_assoc (utf8_unit a) (utf8 (b ∷ s)) (c ∷ utf8 t)))
]

pub utf8_behind :
    (s : Text) (c : ℕ) (t u : Text)
    → c < 0x80
    → utf8 (s ++ c ∷ t) ≡ utf8 (s ++ c ∷ u)
    → utf8 t ≡ utf8 u
utf8_behind s c t u h e =
    let same : utf8 s ++ c ∷ utf8 t ≡ utf8 s ++ c ∷ utf8 u =
      sym (utf8-append s c t h) ∙ e ∙ utf8-append s c u h in
    let rest = append_cancel_left (utf8 s) _ _ same in cc

pub utf8_before :
    (s : Text) (c : ℕ) (t u : Text)
    → c < 0x80
    → utf8 (t ++ c ∷ s) ≡ utf8 (u ++ c ∷ s)
    → utf8 t ≡ utf8 u
utf8_before s c t u h e =
    append_cancel_right (utf8 t) (utf8 u) (c ∷ utf8 s)
      (sym (utf8-append t c s h) ∙ e ∙ utf8-append u c s h)
