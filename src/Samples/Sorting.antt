-- ===== src/Samples/Sorting.antt =====
-- An insertion sort that keeps what PostgreSQL documents of ORDER BY "createdAt".
use mathlib.Core.List.{Perm, Pairwise, Pairwise-cons, rel_of_Pairwise-cons, mem-cons, not-mem-nil}
use mathlib.Core.List.Perm
use mathlib.Core.List.Pairwise
use mathlib.Core.Logic.Or
use mathlib.Core.Path.{subst}
use native.Mathlib.Bridge.{le_prop}
use potens_intern_backend_sh.Common.{
  ◌≡◌, sym, inl, inr, Bool, true, false, List, [], ◌∷◌, leb, if◌then◌else◌, Bool-cases, arith,
}
use potens_intern_backend_sh.Database.{Row, Direction, asc, desc, InOrder}

abbrev before : Direction → Row → Row → Bool
before asc a b = leb a.created_at b.created_at
before desc a b = leb b.created_at a.created_at

abbrev pub place : Direction → Row → List Row → List Row
place d r [] = r ∷ []
place d r (x ∷ xs) = let rest = place d r xs in if before d r x then r ∷ x ∷ xs else x ∷ rest

abbrev pub sort : Direction → List Row → List Row
sort d [] = []
sort d (r ∷ rows) = place d r (sort d rows)

place-perm : (d : Direction) (r : Row) (xs : List Row) → Perm (place d r xs) (r ∷ xs)
place-perm d r [] = Perm.refl _
place-perm d r (x ∷ xs) = elim (Bool-cases (before d r x)) [
  | inl here ↦ rw here (Perm.refl _)
  | inr later ↦ rw later (Perm.trans (Perm.cons x (place-perm d r xs)) (Perm.swap r x xs))
]

pub sort-perm : (d : Direction) (rows : List Row) → Perm (sort d rows) rows
sort-perm d [] = Perm.refl _
sort-perm d (r ∷ rows) = Perm.trans (place-perm d r (sort d rows)) (Perm.cons r (sort-perm d rows))

InOrder-prop : (d : Direction) (a b : Row) → IsProp (InOrder d a b)
InOrder-prop asc a b = le_prop
InOrder-prop desc a b = le_prop

InOrder-of_before : (d : Direction) (a b : Row) → before d a b ≡ true → InOrder d a b
InOrder-of_before asc a b h = ground arith
InOrder-of_before desc a b h = ground arith

InOrder-of_not : (d : Direction) (a b : Row) → before d a b ≡ false → InOrder d b a
InOrder-of_not asc a b h = ground arith
InOrder-of_not desc a b h = ground arith

InOrder-trans : (d : Direction) (a b c : Row) → InOrder d a b → InOrder d b c → InOrder d a c
InOrder-trans asc a b c h k = omega (arith, h, k)
InOrder-trans desc a b c h k = omega (arith, h, k)

place-sorted :
    (d : Direction) (r : Row) (xs : List Row)
    → Pairwise (InOrder d) xs
    → Pairwise (InOrder d) (place d r xs)
place-sorted d r [] h = Pairwise-cons.1 ((λ a m. absurd (not-mem-nil m)), h)
place-sorted d r (x ∷ xs) h = elim (Bool-cases (before d r x)) [
  | inl here ↦ rw here (
      Pairwise-cons.1 (
        (λ a m.
            Or.elim (InOrder-prop d r a) (mem-cons.0 m)
              (λ same. subst (InOrder d r) (sym same) (InOrder-of_before d r x here))
              (λ after.
                InOrder-trans d r x a (InOrder-of_before d r x here)
                  (rel_of_Pairwise-cons h after))),
        h,
      ))
  | inr later ↦ rw later (
      Pairwise-cons.1 (
        (λ a m.
            Or.elim (InOrder-prop d x a) (mem-cons.0 (Perm.subset (place-perm d r xs) a m))
              (λ same. subst (InOrder d x) (sym same) (InOrder-of_not d r x later))
              (λ after. rel_of_Pairwise-cons h after)),
        place-sorted d r xs (Pairwise.of_cons h),
      ))
]

pub sort-sorted : (d : Direction) (rows : List Row) → Pairwise (InOrder d) (sort d rows)
sort-sorted d [] = Pairwise.nil
sort-sorted d (r ∷ rows) = place-sorted d r (sort d rows) (sort-sorted d rows)
