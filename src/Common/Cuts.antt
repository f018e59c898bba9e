-- ===== src/Common/Cuts.antt =====
-- Texts cut at a code unit.
use mathlib.Core.Path.{◌≡◌, refl}
use mathlib.Core.List.{[], ◌∷◌, ◌++◌}
use Prim.Native.Nat.{ℕ}
use potens_intern_backend_sh.Common.Texts.{Text, Lacks}

not-Lacks-append : (c : ℕ) (s t : Text) → ¬ Lacks c (s ++ c ∷ t)
not-Lacks-append c [] t h = h.0 refl
not-Lacks-append c (x ∷ s) t h = not-Lacks-append c s t h.1

-- Two texts cut at their first `c`.
pub first_cut :
    (c : ℕ) (s s' t t' : Text)
    → Lacks c s
    → Lacks c s'
    → s ++ c ∷ t ≡ s' ++ c ∷ t'
    → (s ≡ s') × (t ≡ t')
first_cut c [] [] t t' h h' e = (refl, cc)
first_cut c [] (x ∷ s') t t' h h' e = absurd (h'.0 cc)
first_cut c (x ∷ s) [] t t' h h' e = absurd (h.0 cc)
first_cut c (x ∷ s) (y ∷ s') t t' h h' e =
    let (same, rest) = first_cut c s s' t t' h.1 h'.1 cc in (cc, rest)

-- Two texts cut at their last `c`.
pub last_cut :
    (c : ℕ) (s s' t t' : Text)
    → Lacks c t
    → Lacks c t'
    → s ++ c ∷ t ≡ s' ++ c ∷ t'
    → (s ≡ s') × (t ≡ t')
last_cut c [] [] t t' h h' e = (refl, cc)
last_cut c [] (x ∷ s') t t' h h' e =
    let same : t ≡ s' ++ c ∷ t' = cc in absurd (not-Lacks-append c s' t' (rw same at h))
last_cut c (x ∷ s) [] t t' h h' e =
    let same : t' ≡ s ++ c ∷ t = cc in absurd (not-Lacks-append c s t (rw same at h'))
last_cut c (x ∷ s) (y ∷ s') t t' h h' e =
    let (same, rest) = last_cut c s s' t t' h h' cc in (cc, rest)
