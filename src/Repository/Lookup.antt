-- ===== src/Repository/Lookup.antt =====
-- The row that `createWithTransaction` of src/repositories/log.repository.js has returned is found.
use mathlib.Core.Path.{subst}
use potens_intern_backend_sh.Common.{
  ℕ, ◌≡◌, false, some, List, [], ◌∷◌, ◌++◌, Text, text_eq, text_eq_iff, arith,
}
use potens_intern_backend_sh.Database.{Row, Db, Postgres, is_taken}
use potens_intern_backend_sh.Repository.{CreateDto, first, find_by_id}
use potens_intern_backend_sh.Repository.Creation.{IsCreated}
use potens_intern_backend_sh.Repository.Ledger.{is_taken_of_violates}

first_of_new :
    (rows : List Row) (r : Row)
    → is_taken rows r ≡ false
    → first (λ x. text_eq x.id r.id) (rows ++ r ∷ []) ≡ some r
unfolding first is_taken
first_of_new [] r free = ground (arith, text_eq_iff r.id r.id)
first_of_new (x ∷ rows) r free = ground (arith, first_of_new rows r (ground arith))

module _ (sha256 : List ℕ → Text) (pg : Postgres) {id : Text} {dto : CreateDto} {db after : Db}
    {row : Row} (made : IsCreated sha256 pg id dto db after row) where
  pub find_by_id_of_IsCreated : find_by_id id after ≡ some row
  unfolding find_by_id
  find_by_id_of_IsCreated = rw made.appended (
      subst (λ (i : Text). first (λ x. text_eq x.id i) (db.log_entries ++ row ∷ []) ≡ some row)
        made.new_id (first_of_new db.log_entries row (is_taken_of_violates _ _ made.allowed)))
