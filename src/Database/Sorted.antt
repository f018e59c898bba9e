-- ===== src/Database/Sorted.antt =====
-- The orders that ORDER BY "createdAt" of src/repositories/log.repository.js leaves open.
use mathlib.Core.List.{Perm, Pairwise, mem-cons, mem-cons_self, rel_of_Pairwise-cons}
use mathlib.Core.List.Pairwise
use mathlib.Core.List.Perm
use mathlib.Core.Logic.Or
use mathlib.Core.Path.{subst}
use potens_intern_backend_sh.Common.{◌<◌, ◌≡◌, sym, List, [], ◌∷◌, arith}
use potens_intern_backend_sh.Database.{Row, InOrder, asc}

rows_set : IsSet (List Row)
rows_set = hlevel

-- Rows with ever later times have one sorted order.
pub sorted_unique :
    (xs ys : List Row)
    → Pairwise (λ a b. a.created_at < b.created_at) xs
    → Pairwise (InOrder asc) ys
    → Perm ys xs
    → ys ≡ xs
sorted_unique [] ys hx hy perm = Perm.eq-nil perm
sorted_unique (x ∷ xs) [] hx hy perm = cc (Perm.nil-eq perm)
sorted_unique (x ∷ xs) (y ∷ ys) hx hy perm =
    let same : y ≡ x → y ∷ ys ≡ x ∷ xs = λ e.
      let rest =
        sorted_unique xs ys (Pairwise.of_cons hx) (Pairwise.of_cons hy)
          (Perm.cons_inv (subst (λ (r : Row). Perm (r ∷ ys) (x ∷ xs)) e perm)) in
      cc in
    Or.elim (rows_set (y ∷ ys) (x ∷ xs)) (mem-cons.0 (Perm.subset perm y mem-cons_self)) same
      λ later.
        Or.elim (rows_set (y ∷ ys) (x ∷ xs))
          (mem-cons.0 (Perm.subset (Perm.symm perm) x mem-cons_self)) (λ e. same (sym e))
          (λ after.
            let lt = rel_of_Pairwise-cons hx later in
            let le = rel_of_Pairwise-cons hy after in absurd (omega (arith, lt, le)))
