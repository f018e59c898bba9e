-- ===== src/LogService/Creation.antt =====
-- What a request to create an entry leaves behind, and what it does not depend on
-- (`createLogEntry` of src/services/log.service.js).
use mathlib.Core.Path.{subst}
use potens_intern_backend_sh.Common.{ℕ, ◌≡◌, refl, ap, ◌⊎◌, inl, inr, Bool, List, Text}
use potens_intern_backend_sh.Hash.{LogEntry, date}
use potens_intern_backend_sh.Errors.{Result, ok, err, Thrown}
use potens_intern_backend_sh.Database.{Row, Db, Postgres, Query, to_entry}
use potens_intern_backend_sh.Repository.{CreateDto, create_with_transaction}
use potens_intern_backend_sh.Repository.Creation.{
  IsCreated, Outcome, create_with_transaction-Outcome,
}
use potens_intern_backend_sh.Redis
use potens_intern_backend_sh.Copies.{summary_json}
use potens_intern_backend_sh.LogService.{
  World, Body, latest_log_key, enqueue_verification, after_commit, create_log_entry,
}

abbrev pub to_dto : ℕ → Body → CreateDto
to_dto now body = record {
  actor = body.actor;
  action = body.action;
  payload = body.payload;
  created_at = now;
}

module _ (sha256 : List ℕ → Text) (pg : Postgres) where
  same_outcome :
      (ttl : ℕ) (r : Result Row × Db) (w v : World)
      → ((after_commit ttl r w).0 ≡ (after_commit ttl r v).0)
        × ((after_commit ttl r w).1.db ≡ (after_commit ttl r v).1.db)
  unfolding after_commit
  same_outcome ttl (ok row, db) w v = (refl, refl)
  same_outcome ttl (err e, db) w v = (refl, refl)

  -- The result and the tables after it do not depend on Redis or on the queue, on what they hold or
  -- on whether they answer.
  pub create_log_entry_independent :
      (ttl : ℕ) (fails : Query → Bool) (id : Text) (now : ℕ) (body : Body) (w v : World)
      → w.db ≡ v.db
      → ((create_log_entry sha256 pg ttl fails id now body w).0
          ≡ (create_log_entry sha256 pg ttl fails id now body v).0)
        × ((create_log_entry sha256 pg ttl fails id now body w).1.db
            ≡ (create_log_entry sha256 pg ttl fails id now body v).1.db)
  unfolding create_log_entry
  create_log_entry_independent ttl fails id now body w v same =
      simp same
        (same_outcome ttl (create_with_transaction sha256 pg fails id (to_dto now body) v.db) w v)

  -- What a request leaves behind: nothing at all when it throws, and otherwise the new row, its
  -- summary in the cache and its job in the queue, if those services answer.
  abbrev pub Effect : ℕ → Text → ℕ → Body → World → Result LogEntry × World → Type 0
  Effect ttl id now body w (r, after) =
      ((e : Thrown) × (r ≡ err e) × (after ≡ w))
      ⊎ ((row : Row) × (r ≡ ok (to_entry row))
          × IsCreated sha256 pg id (to_dto now body) w.db after.db row
          × (after.redis
              ≡ Redis.set latest_log_key
                  (summary_json (record {
                    id = row.id;
                    current_hash = row.current_hash;
                    created_at = date row.created_at;
                  }))
                  ttl w.redis)
          × (after.queue ≡ enqueue_verification row.id w.queue))

  Effect-of_Outcome :
      (ttl : ℕ) (id : Text) (now : ℕ) (body : Body) (w : World) (r : Result Row × Db)
      → Outcome sha256 pg id (to_dto now body) w.db r
      → Effect ttl id now body w (after_commit ttl r w)
  unfolding after_commit
  Effect-of_Outcome ttl id now body w (ok row, db) (inl (e, thrown, same)) = cc
  Effect-of_Outcome ttl id now body w (err e, db) (inl (e', thrown, same)) =
      inl (e, refl, ap (λ (d : Db). record w { db = d }) same)
  Effect-of_Outcome ttl id now body w (ok row, db) (inr (row', returned, made)) =
      let same : row' ≡ row = cc in
      inr (
        row,
        refl,
        subst (λ (x : Row). IsCreated sha256 pg id (to_dto now body) w.db db x) same made,
        refl,
        refl,
      )
  Effect-of_Outcome ttl id now body w (err e, db) (inr (row', returned, made)) = cc

  -- A request that throws changes nothing; one that returns an entry has appended its row, put its
  -- summary under "latest_log" and asked for its verification.
  pub create_log_entry-Effect :
      (ttl : ℕ) (fails : Query → Bool) (id : Text) (now : ℕ) (body : Body) (w : World)
      → Effect ttl id now body w (create_log_entry sha256 pg ttl fails id now body w)
  unfolding create_log_entry
  create_log_entry-Effect ttl fails id now body w =
      Effect-of_Outcome ttl id now body w _
        (create_with_transaction-Outcome sha256 pg fails id (to_dto now body) w.db)
