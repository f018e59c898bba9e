-- ===== src/Common/Texts.antt =====
-- JavaScript strings: sequences of UTF-16 code units, whose number is `.length`.
use Prim.Native.Nat.{ℕ}
use Prim.Native.Char.{code}
use Prim.Native.String.{String}
use mathlib.Core.Path.{◌≡◌, refl}
use mathlib.Core.Logic.{◌↔◌, ◌≢◌}
use mathlib.Core.Bool.{Bool, true, false, ◌&&◌}
use mathlib.Core.List.{List, [], ◌∷◌, ◌++◌}
use native.Mathlib.Omega.{arith}
use potens_intern_backend_sh.Common.Tests.{◌==◌}
use potens_intern_backend_sh.Common.Lists.{All}

abbrev pub Text : Type 0
Text = List ℕ

-- An ASCII literal.
abbrev pub codes : String → Text
codes String.[] = []
codes (String.◌∷◌ c s) = code c ∷ codes s

-- `===` on strings.
unfoldable pub text_eq : Text → Text → Bool
text_eq [] [] = true
text_eq [] (b ∷ s) = false
text_eq (a ∷ r) [] = false
text_eq (a ∷ r) (b ∷ s) = (a == b) && text_eq r s

-- `Array.prototype.join`.
unfoldable pub join : Text → List Text → Text
join sep [] = []
join sep (t ∷ []) = t
join sep (t ∷ u ∷ ts) = t ++ (sep ++ join sep (u ∷ ts))

pub text_eq_iff : (a b : Text) → (text_eq a b ≡ true) ↔ (a ≡ b)
unfolding text_eq
text_eq_iff [] [] = ((λ _. refl), (λ _. refl))
text_eq_iff [] (b ∷ bs) = ((λ h. cc), (λ h. cc))
text_eq_iff (a ∷ r) [] = ((λ h. cc), (λ h. cc))
text_eq_iff (a ∷ r) (b ∷ s) = ground (arith, text_eq_iff r s)

-- The text does not hold the code unit.
abbrev pub Lacks : ℕ → Text → Type 0
Lacks c t = All (λ x. x ≢ c) t
