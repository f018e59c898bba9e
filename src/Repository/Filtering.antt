-- ===== src/Repository/Filtering.antt =====
-- Which rows `findFiltered` of src/repositories/log.repository.js returns, and in which order.
use mathlib.Core.Bool.{Bool-set}
use mathlib.Core.List.{
  Mem, Mem-prop, mem-cons, mem-cons_self, mem-cons_of_mem, not-mem-nil, Pairwise,
}
use mathlib.Core.List.Perm
use mathlib.Core.Logic.Or
use mathlib.Core.Path.{subst}
use potens_intern_backend_sh.Common.{
  ℕ, ◌≤◌, ◌≡◌, ◌↔◌, refl, sym, ap, ◌∙◌, inl, inr, Bool, true, false, Option, none, some, List, [],
  ◌∷◌, Text, text_eq_iff, arith, Bool-cases,
}
use potens_intern_backend_sh.Database.{Row, Db, Postgres, IsSorting, asc, InOrder}
use potens_intern_backend_sh.Repository.{
  Filters, select, matches_actor, at_least, at_most, matches, find_filtered,
}

Mem_of_select :
    (keep : Row → Bool) (rows : List Row) (r : Row) → Mem r (select keep rows) → Mem r rows
unfolding select
Mem_of_select keep [] r m = absurd (not-mem-nil m)
Mem_of_select keep (x ∷ rows) r m = elim (Bool-cases (keep x)) [
  | inl kept ↦
      Or.elim Mem-prop (mem-cons.0 (rw kept at m))
        (λ here. subst (λ (y : Row). Mem r (y ∷ rows)) here mem-cons_self)
        (λ later. mem-cons_of_mem x (Mem_of_select keep rows r later))
  | inr dropped ↦ mem-cons_of_mem x (Mem_of_select keep rows r (rw dropped at m))
]

kept_of_select :
    (keep : Row → Bool) (rows : List Row) (r : Row) → Mem r (select keep rows) → keep r ≡ true
unfolding select
kept_of_select keep [] r m = absurd (not-mem-nil m)
kept_of_select keep (x ∷ rows) r m = elim (Bool-cases (keep x)) [
  | inl kept ↦
      Or.elim (Bool-set (keep r) true) (mem-cons.0 (rw kept at m)) (λ here. ap keep here ∙ kept)
        (kept_of_select keep rows r)
  | inr dropped ↦ kept_of_select keep rows r (rw dropped at m)
]

Mem-select :
    (keep : Row → Bool) (rows : List Row) (r : Row)
    → keep r ≡ true
    → Mem r rows
    → Mem r (select keep rows)
unfolding select
Mem-select keep [] r kept m = absurd (not-mem-nil m)
Mem-select keep (x ∷ rows) r kept m = elim (Bool-cases (keep x)) [
  | inl chosen ↦ rw chosen (
      Or.elim Mem-prop (mem-cons.0 m)
        (λ here. subst (λ (y : Row). Mem r (y ∷ select keep rows)) here mem-cons_self)
        (λ later. mem-cons_of_mem x (Mem-select keep rows r kept later)))
  | inr dropped ↦ rw dropped (
      Or.elim Mem-prop (mem-cons.0 m)
        (λ here. let clash : true ≡ false = sym kept ∙ ap keep here ∙ dropped in cc)
        (Mem-select keep rows r kept))
]

-- What the filters ask of a row.
pub record IsMatch (f : Filters) (r : Row) : Type 0 where
  pub actor : (c : ℕ) (s : Text) → f.actor ≡ some (c ∷ s) → r.actor ≡ c ∷ s
  pub from_time : (t : ℕ) → f.from_time ≡ some t → t ≤ r.created_at
  pub to_time : (t : ℕ) → f.to_time ≡ some t → r.created_at ≤ t

matches_actor_iff :
    (o : Option Text) (r : Row)
    → (matches_actor o r ≡ true) ↔ ((c : ℕ) (s : Text) → o ≡ some (c ∷ s) → r.actor ≡ c ∷ s)
unfolding matches_actor
matches_actor_iff none r = ((λ h c s e. cc e), (λ h. refl))
matches_actor_iff (some []) r = ((λ h c s e. cc e), (λ h. refl))
matches_actor_iff (some (d ∷ t)) r = (
  (λ h c s e. let same = (text_eq_iff r.actor (d ∷ t)).0 h in cc),
  (λ h. (text_eq_iff r.actor (d ∷ t)).1 (h d t refl)),
)

at_least_iff :
    (o : Option ℕ) (r : Row) → (at_least o r ≡ true) ↔ ((t : ℕ) → o ≡ some t → t ≤ r.created_at)
unfolding at_least
at_least_iff none r = ((λ h t e. cc e), (λ h. refl))
at_least_iff (some u) r = ((λ h t e. ground arith), (λ h. let least = h u refl in ground arith))

at_most_iff :
    (o : Option ℕ) (r : Row) → (at_most o r ≡ true) ↔ ((t : ℕ) → o ≡ some t → r.created_at ≤ t)
unfolding at_most
at_most_iff none r = ((λ h t e. cc e), (λ h. refl))
at_most_iff (some u) r = ((λ h t e. ground arith), (λ h. let most = h u refl in ground arith))

matches_iff : (f : Filters) (r : Row) → (matches f r ≡ true) ↔ IsMatch f r
unfolding matches
matches_iff f r = (
  (λ h. record {
    actor = (matches_actor_iff f.actor r).0 (ground arith);
    from_time = (at_least_iff f.from_time r).0 (ground arith);
    to_time = (at_most_iff f.to_time r).0 (ground arith);
  }),
  (λ m.
      let actor = (matches_actor_iff f.actor r).1 m.actor in
      let from_time = (at_least_iff f.from_time r).1 m.from_time in
      let to_time = (at_most_iff f.to_time r).1 m.to_time in simp (actor, from_time, to_time) refl),
)

-- An export returns exactly the rows that match its filters, in the order of their times.
pub find_filtered_lem :
    (pg : Postgres) (filters : Filters) (db : Db)
    → IsSorting pg
    → ((r : Row) → Mem r (find_filtered pg filters db) ↔ (Mem r db.log_entries × IsMatch filters r))
      × Pairwise (InOrder asc) (find_filtered pg filters db)
unfolding find_filtered
find_filtered_lem pg filters db sorting =
    let chosen = select (matches filters) db.log_entries in
    let same = λ (r : Row). Perm.mem_iff {a = r} (sorting.perm asc chosen) in
    (
      (λ r. (
        (λ m.
            let n = (same r).0 m in
            (
              Mem_of_select (matches filters) db.log_entries r n,
              (matches_iff filters r).0 (kept_of_select (matches filters) db.log_entries r n),
            )),
        (λ (m, matching).
            (same r).1 (
              Mem-select (matches filters) db.log_entries r ((matches_iff filters r).1 matching)
                m)),
      )),
      sorting.sorted asc chosen,
    )
