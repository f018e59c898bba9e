-- ===== src/LogService/Reads.antt =====
-- `getLogById` of src/services/log.service.js: what a cached entry says of itself, and what the
-- second read of an entry returns.
use potens_intern_backend_sh.Common.{
  ℕ, ◌<◌, ◌≡◌, refl, ap, true, inl, inr, Option, Bool-cases, none, some, List, [], ◌∷◌, Text,
  text_eq, ◌>>=◌,
}
use potens_intern_backend_sh.Hash.{
  LogEntry, date, text, moment_text, first_moment, hash_input, generate_hash, entry_hash,
  verify_entry,
}
use potens_intern_backend_sh.Errors.{ok}
use potens_intern_backend_sh.Database.{Row, to_entry}
use potens_intern_backend_sh.Repository.{find_by_id}
use potens_intern_backend_sh.Redis
use potens_intern_backend_sh.Redis.Laws.{get-set_self}
use potens_intern_backend_sh.Redis.{Redis, IsStore}
use potens_intern_backend_sh.Copies.{json_entry, entry_json, read_entry-entry_json}
use potens_intern_backend_sh.LogService.{
  World, found, status_of, log_key, cached_entry, load_entry, after_cache, get_log_by_id,
}
use potens_intern_backend_sh.Date.{to_iso}
use potens_intern_backend_sh.Date.Digits.{to_iso-cons}

moment_text_of_text :
    (u : Text) (c : ℕ) (s : Text) → u ≡ c ∷ s → moment_text (first_moment (some (text u)) none) ≡ u
unfolding first_moment moment_text
moment_text_of_text [] c s h = cc
moment_text_of_text (x ∷ u) c s h = refl

-- The text of a date survives JSON.
moment_text-json :
    (t : ℕ)
    → moment_text (first_moment (some (text (moment_text (some (date t))))) none)
      ≡ moment_text (first_moment (some (date t)) none)
unfolding first_moment moment_text
moment_text-json t = let (c, s, same) = to_iso-cons t in moment_text_of_text (to_iso t) c s same

module _ (sha256 : List ℕ → Text) (row : Row) where
  pub entry_hash-json :
      (p : Text)
      → entry_hash sha256 p (json_entry (to_entry row)) ≡ entry_hash sha256 p (to_entry row)
  unfolding entry_hash generate_hash hash_input json_entry
  entry_hash-json p = simp (moment_text-json row.created_at)

  -- A row and its copy in the cache have one verification status.
  pub status_of-json :
      status_of sha256 (json_entry (to_entry row)) ≡ status_of sha256 (to_entry row)
  unfolding status_of verify_entry json_entry
  status_of-json = ap (λ (h : Text). text_eq row.current_hash h) (entry_hash-json _)

  -- The first read of an entry that is not cached answers from the database; while Redis answers, as
  -- documented, the second answers from the cache: the same entry, with its date as text, and
  -- the same verification status.
  pub get_log_by_id_twice :
      (ttl : ℕ) (id : Text) (w : World)
      → IsStore w.redis
      → 0 < ttl
      → w.db_answers ≡ true
      → w.redis.up ≡ true
      → Redis.get (log_key id) w.redis ≡ none
      → find_by_id id w.db ≡ some row
      → (let (first, after) = get_log_by_id sha256 ttl id w in
          (first
            ≡ ok (record {
              entry = to_entry row;
              verification_status = status_of sha256 (to_entry row);
            }))
          × ((get_log_by_id sha256 ttl id after).0
              ≡ ok (record {
                entry = json_entry (to_entry row);
                verification_status = status_of sha256 (to_entry row);
              })))
  unfolding get_log_by_id after_cache cached_entry load_entry found ◌>>=◌
  get_log_by_id_twice ttl id w store live answers up missed stored =
      simp (missed, stored, answers)
        (
          refl,
          simp (
            get-set_self (log_key id) (entry_json (to_entry row)) ttl w.redis store up live,
            read_entry-entry_json (to_entry row),
            status_of-json,
          ),
        )

module _ (sha256 : List ℕ → Text) (ttl : ℕ) (id : Text) where
  load_entry-db : (o : Option Row) (w : World) → (load_entry sha256 ttl id o w).1.db ≡ w.db
  unfolding load_entry
  load_entry-db none w = refl
  load_entry-db (some row) w = refl

  after_cache-db : (o : Option LogEntry) (w : World) → (after_cache sha256 ttl id o w).1.db ≡ w.db
  unfolding after_cache
  after_cache-db (some e) w = refl
  after_cache-db none w = elim (Bool-cases w.db_answers) [
    | inl answers ↦ simp answers (load_entry-db (find_by_id id w.db) w)
    | inr silent ↦ simp silent refl
  ]

  -- A read writes nothing to the tables.
  pub get_log_by_id-db : (w : World) → (get_log_by_id sha256 ttl id w).1.db ≡ w.db
  unfolding get_log_by_id
  get_log_by_id-db w = after_cache-db _ w
