-- ===== src/LogService/Answers.antt =====
-- What `getLogById` of src/services/log.service.js answers while the cache agrees with the table.
use mathlib.Core.Path.{subst}
use potens_intern_backend_sh.Common.{
  ℕ, ◌≡◌, refl, sym, ap, ◌∙◌, ◌⊎◌, inl, inr, Option, none, some, List, Text, false, codes,
  Bool-cases,
}
use potens_intern_backend_sh.Hash.{LogEntry}
use potens_intern_backend_sh.Errors.{Result, ok, err, app_error, database, new_app_error}
use potens_intern_backend_sh.Database.{Row, to_entry}
use potens_intern_backend_sh.Repository.{find_by_id}
use potens_intern_backend_sh.Copies.{json_entry}
use potens_intern_backend_sh.LogService.{
  World, Found, found, status_of, load_entry, after_cache, get_log_by_id,
}
use potens_intern_backend_sh.LogService.Reads.{status_of-json}
use potens_intern_backend_sh.LogService.Coherence.{IsCoherent, cached_of_IsCoherent}

module _ (sha256 : List ℕ → Text) (ttl : ℕ) (id : Text) where
  -- The answer to a read, against the table alone.
  abbrev pub Answer : World → Result Found → Type 0
  Answer w r =
      ((w.db_answers ≡ false) × (r ≡ err database))
      ⊎ ((find_by_id id w.db ≡ none)
          × (r
              ≡ err (
                  app_error (new_app_error (codes "Log entry not found") 404 (codes "NOT_FOUND")))))
      ⊎ ((row : Row) × (f : Found) × (find_by_id id w.db ≡ some row)
          × (r ≡ ok f)
          × (f.verification_status ≡ status_of sha256 (to_entry row))
          × ((f.entry ≡ to_entry row) ⊎ (f.entry ≡ json_entry (to_entry row))))

  load_entry-Answer :
      (w : World) (o : Option Row)
      → find_by_id id w.db ≡ o
      → Answer w (load_entry sha256 ttl id o w).0
  unfolding load_entry found
  load_entry-Answer w none stored = inr (inl (stored, refl))
  load_entry-Answer w (some row) stored = inr (inr (row, _, stored, refl, refl, inl refl))

  read-Answer : (w : World) → Answer w (after_cache sha256 ttl id none w).0
  unfolding after_cache
  read-Answer w = elim (Bool-cases w.db_answers) [
    | inl answers ↦
        let read : after_cache sha256 ttl id none w
            ≡ load_entry sha256 ttl id (find_by_id id w.db) w =
          simp answers refl in
        subst (λ (r : Result Found × World). Answer w r.0) (sym read) (load_entry-Answer w _ refl)
    | inr silent ↦ inl (silent, simp silent refl)
  ]

  after_cache-Answer :
      (w : World) (o : Option LogEntry)
      → (o ≡ none)
        ⊎ ((row : Row) × (find_by_id id w.db ≡ some row) × (o ≡ some (json_entry (to_entry row))))
      → Answer w (after_cache sha256 ttl id o w).0
  unfolding after_cache found
  after_cache-Answer w none h = read-Answer w
  after_cache-Answer w (some x) (inl nothing) = cc
  after_cache-Answer w (some x) (inr (row, stored, copy)) =
      let same : x ≡ json_entry (to_entry row) = cc in
      inr (
        inr (
          row,
          found sha256 x,
          stored,
          refl,
          ap (status_of sha256) same ∙ status_of-json sha256 row,
          inr same,
        ))

  -- With a cache that agrees with the table, a read throws the 404 exactly when the table has no row
  -- with the id; and else answers with that row, or with its copy whose date is text, and with the
  -- verification status of the row.
  pub get_log_by_id-Answer : (w : World) → IsCoherent w → Answer w (get_log_by_id sha256 ttl id w).0
  unfolding get_log_by_id
  get_log_by_id-Answer w h = after_cache-Answer w _ (cached_of_IsCoherent w id h)
