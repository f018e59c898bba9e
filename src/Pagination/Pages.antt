-- ===== src/Pagination/Pages.antt =====
-- The pages of `GET /api/logs` (src/utils/pagination.js, `findAll` of
-- src/repositories/log.repository.js) against the whole log.
use mathlib.Core.List
use mathlib.Core.List.{Perm, Pairwise}
use mathlib.Core.List.Perm
use Prim.Native.Nat.add
use Prim.Native.Nat.mul
use native.Mathlib.Bridge.{from_ℕ}
use native.Mathlib.Nat.{div-add-mod', mod-lt}
use potens_intern_backend_sh.Common.{
  ℕ, zero, suc, ◌+◌, ◌*◌, ◌-◌, ◌/◌, ◌≤◌, ◌<◌, ◌≡◌, refl, sym, ap, ◌∙◌, some, List, [], ◌∷◌, ◌++◌,
  take, drop, length, arith,
}
use potens_intern_backend_sh.Database.{Row, Db, Postgres, IsSorting, asc}
use potens_intern_backend_sh.Database.Sorted.{sorted_unique}
use potens_intern_backend_sh.Repository.{find_all, find_all_ordered, count}
use potens_intern_backend_sh.Pagination.{total_pages}

module _ {ℓ} {A : Type ℓ} where
  take-nil : (n : ℕ) → take {A = A} n [] ≡ []
  take-nil zero = refl
  take-nil (suc n) = refl

  take-add : (a b : ℕ) (xs : List A) → take (a + b) xs ≡ take a xs ++ take b (drop a xs)
  take-add zero b xs = rw (add.zero b)
  take-add (suc a) b [] = rw (add.suc a b) (sym (take-nil b))
  take-add (suc a) b (x ∷ xs) = rw (add.suc a b) (ap (◌∷◌ x) (take-add a b xs))

  take_of_length : (n : ℕ) (xs : List A) → length xs ≤ n → take n xs ≡ xs
  take_of_length zero [] h = refl
  take_of_length zero (x ∷ xs) h = absurd (omega arith)
  take_of_length (suc n) [] h = refl
  take_of_length (suc n) (x ∷ xs) h = ap (◌∷◌ x) (take_of_length n xs (omega arith))

-- No two entries have one time.
abbrev pub HasDistinctTimes : Postgres → Db → Type 0
HasDistinctTimes pg db = Pairwise (λ a b. a.created_at < b.created_at) (find_all_ordered pg db)

-- The first `n` pages, one behind the other.
abbrev pub pages : Postgres → ℕ → ℕ → Db → List Row
pages pg zero size db = []
pages pg (suc n) size db = pages pg n size db ++ find_all pg (suc n) size db

-- Rows with different times have one order, in whichever query.
order_of_page-eq :
    (pg : Postgres) (offset limit : ℕ) (db : Db)
    → IsSorting pg
    → HasDistinctTimes pg db
    → pg.order_of_page offset limit db.log_entries ≡ find_all_ordered pg db
unfolding find_all_ordered
order_of_page-eq pg offset limit db sorting distinct =
    sorted_unique (find_all_ordered pg db) _ distinct
      (sorting.page_sorted offset limit db.log_entries)
      (Perm.trans (sorting.page_perm offset limit db.log_entries)
        (Perm.symm (sorting.perm asc db.log_entries)))

pages-eq-take :
    (pg : Postgres) (n size : ℕ) (db : Db)
    → IsSorting pg
    → HasDistinctTimes pg db
    → pages pg n size db ≡ take (n * size) (find_all_ordered pg db)
unfolding find_all
pages-eq-take pg zero size db sorting distinct = rw (mul.zero size)
pages-eq-take pg (suc n) size db sorting distinct =
    let less : suc n - 1 ≡ n = omega arith in
    let more : suc n * size ≡ n * size + size = omega arith in
    let same = order_of_page-eq pg (n * size) size db sorting distinct in
    rw (less, same, pages-eq-take pg n size db sorting distinct, more)
      (sym (take-add (n * size) size (find_all_ordered pg db)))

-- The library counts in unary numbers.
length-bridge {ℓ} : {A : Type ℓ} (xs : List A) → length xs ≡ from_ℕ (List.length xs)
length-bridge [] = refl
length-bridge (x ∷ xs) = ap suc (length-bridge xs)

length_of_perm {ℓ} : {A : Type ℓ} (xs ys : List A) → Perm xs ys → length xs ≡ length ys
length_of_perm xs ys p = length-bridge xs ∙ ap from_ℕ (Perm.length-eq p) ∙ sym (length-bridge ys)

le_total_pages : (total size n : ℕ) → 0 < size → total_pages total size ≡ some n → total ≤ n * size
unfolding total_pages
le_total_pages zero size n h e = omega arith
le_total_pages (suc total) zero n h e = absurd (omega arith)
le_total_pages (suc total) (suc size) n h e =
    let n_is : (suc total + size) / suc size ≡ n = cc in
    let whole = div-add-mod' (suc total + size) (suc size) in
    let rest = mod-lt (suc total + size) {m = suc size} (omega arith) in
    rw (← n_is) (omega (arith, whole, rest))

-- If no two entries have one time, as many pages as `totalPages` says, of any size but 0, are the
-- whole log in the order of its times: no entry is left out, repeated or moved.
pub pages_cover :
    (pg : Postgres) (db : Db) (size n : ℕ)
    → IsSorting pg
    → HasDistinctTimes pg db
    → 0 < size
    → total_pages (count db) size ≡ some n
    → pages pg n size db ≡ find_all_ordered pg db
unfolding count find_all_ordered
pages_cover pg db size n sorting distinct some_size counted =
    let rows = pg.order_by_created_at asc db.log_entries in
    let same = length_of_perm rows db.log_entries (sorting.perm asc db.log_entries) in
    let enough = le_total_pages (length db.log_entries) size n some_size counted in
    pages-eq-take pg n size db sorting distinct
    ∙ take_of_length (n * size) rows (omega (arith, same, enough))
