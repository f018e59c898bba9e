-- ===== src/Schedule/Kept.antt =====
-- What a step of a call of src/services/log.service.js keeps of the cache and of what the other calls
-- rely on.
use mathlib.Core.List.{append-nil}
use mathlib.Core.Path.{subst}
use potens_intern_backend_sh.Common.{
  ℕ, ◌≡◌, refl, sym, ap, ◌∙◌, inl, inr, Bool, true, false, Option, none, some, List, [], ◌∷◌, ◌++◌,
  Text, All, if◌then◌else◌,
}
use potens_intern_backend_sh.Hash.{LogEntry}
use potens_intern_backend_sh.Errors.{Result, ok, err}
use potens_intern_backend_sh.Database.{Row, Db, Query}
use potens_intern_backend_sh.Repository.{find_by_id}
use potens_intern_backend_sh.Repository.Creation.{Outcome, create_with_transaction-Outcome}
use potens_intern_backend_sh.Repository.Lookup.{find_by_id_of_IsCreated}
use potens_intern_backend_sh.LogService.{World, Body}
use potens_intern_backend_sh.LogService.Creation.{to_dto}
use potens_intern_backend_sh.LogService.Coherence.{IsCoherent, IsCoherent-append, find_by_id-append}
use potens_intern_backend_sh.LogService.Coherence.Writes.{IsCoherent-summary, IsCoherent-entry}
use potens_intern_backend_sh.Controllers.{Config}
use potens_intern_backend_sh.Schedule.{
  Task, creating, caching, queueing, looking, reading, filling, committed, looked, read, advance,
  listed,
}

-- What a task relies on: a row that is in the table.
abbrev pub IsReady : Db → Task → Type 0
IsReady db (caching row) = find_by_id row.id db ≡ some row
IsReady db (queueing row) = find_by_id row.id db ≡ some row
IsReady db (filling id row) = find_by_id id db ≡ some row
IsReady db _ = Unit

-- The rows of a table, and perhaps more.
abbrev pub Grown : Db → Db → Type 0
Grown db after = (more : List Row) × (after.log_entries ≡ db.log_entries ++ more)

Grown-refl : (db : Db) → Grown db db
Grown-refl db = ([], sym (append-nil db.log_entries))

pub IsReady-Grown : (db after : Db) (t : Task) → Grown db after → IsReady db t → IsReady after t
IsReady-Grown db after (creating id now body) grown h = h
IsReady-Grown db after (caching row) (more, grown) h =
    find_by_id-append row.id db after more row grown h
IsReady-Grown db after (queueing row) (more, grown) h =
    find_by_id-append row.id db after more row grown h
IsReady-Grown db after (looking id) grown h = h
IsReady-Grown db after (reading id) grown h = h
IsReady-Grown db after (filling id row) (more, grown) h =
    find_by_id-append id db after more row grown h

-- After a step of a task: what is kept, and that the task may go on.
pub record Kept (w : World) (r : World × Option Task) : Type 0 where
  pub cache : IsCoherent r.0
  pub ready : All (IsReady r.0.db) (listed r.1)
  pub grown : Grown w.db r.0.db

module _ (config : Config) (w : World) (h : IsCoherent w) where
  -- A step that leaves the table as it is.
  Kept-cache :
      (v : World) (o : Option Task)
      → v.db ≡ w.db
      → IsCoherent v
      → All (IsReady v.db) (listed o)
      → Kept w (v, o)
  Kept-cache v o same coherent ready = record {
    cache = coherent;
    ready = ready;
    grown = subst (Grown w.db) (sym same) (Grown-refl w.db);
  }

  committed-Kept :
      (id : Text) (now : ℕ) (body : Body) (r : Result Row × Db)
      → Outcome config.sha256 config.pg id (to_dto now body) w.db r
      → Kept w (committed config r w)
  unfolding committed
  committed-Kept id now body (err e, db) (inl (e', thrown, same)) =
      Kept-cache (record w { db = db }) none same
        (IsCoherent-append w db [] (ap (λ (x : Db). x.log_entries) same ∙ sym (append-nil _)) h) tt
  committed-Kept id now body (ok row, db) (inl (e, thrown, same)) = cc
  committed-Kept id now body (err e, db) (inr (row, returned, made)) = cc
  committed-Kept id now body (ok row, db) (inr (row', returned, made)) = record {
    cache = IsCoherent-append w db (row' ∷ []) made.appended h;
    ready = (
      (let same : row ≡ row' = cc in
          subst (λ (r : Row). find_by_id r.id db ≡ some r) (sym same)
            (subst (λ (i : Text). find_by_id i db ≡ some row') (sym made.new_id)
              (find_by_id_of_IsCreated config.sha256 config.pg made))),
      tt,
    );
    grown = (row' ∷ [], made.appended);
  }

  looked-IsReady :
      (id : Text) (o : Option LogEntry) → All (IsReady w.db) (listed (looked config id o))
  unfolding looked
  looked-IsReady id none = (tt, tt)
  looked-IsReady id (some e) = tt

  read-IsReady :
      (id : Text) (o : Option Row)
      → find_by_id id w.db ≡ o
      → All (IsReady w.db) (listed (read config id o))
  unfolding read
  read-IsReady id none e = tt
  read-IsReady id (some row) e = (e, tt)

  reading-IsReady :
      (id : Text) (b : Bool)
      → All (IsReady w.db) (listed (if b then read config id (find_by_id id w.db) else none))
  reading-IsReady id true = read-IsReady id _ refl
  reading-IsReady id false = tt

  pub advance-Kept :
      (fails : Query → Bool) (t : Task) → IsReady w.db t → Kept w (advance config fails t w)
  unfolding advance
  advance-Kept fails (creating id now body) ready =
      committed-Kept id now body _
        (create_with_transaction-Outcome config.sha256 config.pg fails id (to_dto now body) w.db)
  advance-Kept fails (caching row) ready =
      Kept-cache _ _ refl (IsCoherent-summary w row config.cache_ttl_seconds ready h) (ready, tt)
  advance-Kept fails (queueing row) ready =
      Kept-cache _ _ refl (record { store = h.store; backed = h.backed }) tt
  advance-Kept fails (looking id) ready = Kept-cache w _ refl h (looked-IsReady id _)
  advance-Kept fails (reading id) ready = Kept-cache w _ refl h (reading-IsReady id w.db_answers)
  advance-Kept fails (filling id row) ready =
      Kept-cache _ _ refl (IsCoherent-entry w id row config.cache_ttl_seconds ready h) tt
