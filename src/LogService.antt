-- ===== src/LogService.antt =====
-- src/services/log.service.js, with src/services/queue.service.js and src/services/export.service.js,
-- which it calls and which calls it.
pub mod Creation
pub mod Reads
pub mod Jobs
pub mod Coherence
pub mod Answers
use potens_intern_backend_sh.Common.{
  ℕ, Bool, true, false, Option, none, some, List, [], ◌∷◌, ◌++◌, map, Text, codes, text_eq, or_else,
  if◌then◌else◌, ◌>>=◌,
}
use potens_intern_backend_sh.Json.{Json}
use potens_intern_backend_sh.Hash.{LogEntry, Moment, date, verify_entry, genesis_previous_hash}
use potens_intern_backend_sh.Errors.{Result, ok, err, Thrown, app_error, database, new_app_error}
use potens_intern_backend_sh.Database.{Row, Db, Postgres, Query, to_entry}
use potens_intern_backend_sh.Repository.{
  CreateDto, Filters, create_with_transaction, find_by_id, find_all, count, find_filtered,
}
use potens_intern_backend_sh.Redis
use potens_intern_backend_sh.Redis.{Redis}
use potens_intern_backend_sh.Copies.{Summary, summary_json, entry_json, read_entry}

-- A job of the verification queue.
pub record Job : Type 0 where
  pub job_id : Text
  pub log_entry_id : Text

-- The queue as BullMQ keeps it in Redis; `accepts` is whether `queue.add` succeeds, and `add` is what
-- it does then.
pub record JobQueue : Type 0 where
  pub accepts : Bool
  pub add : Job → List Job → List Job
  pub jobs : List Job

-- `enqueueVerification`: a failure is logged only.
unfoldable pub enqueue_verification : Text → JobQueue → JobQueue
enqueue_verification id q =
    if q.accepts
    then record q {
      jobs = q.add (record { job_id = codes "verify-" ++ id; log_entry_id = id }) q.jobs;
    }
    else q

-- What the service works on; `db_answers` is whether the database answers the reads of the request.
pub record World : Type 0 where
  pub db : Db
  pub db_answers : Bool
  pub redis : Redis
  pub queue : JobQueue

-- The body of a request, after validation; an absent payload is `none`.
pub record Body : Type 0 where
  pub actor : Text
  pub action : Text
  pub payload : Option Json

abbrev pub latest_log_key : Text
latest_log_key = codes "latest_log"

abbrev pub log_key : Text → Text
log_key id = codes "log:" ++ id

pub record Found : Type 0 where
  pub entry : LogEntry
  pub verification_status : Bool

pub record PageMeta : Type 0 where
  pub page : ℕ
  pub page_size : ℕ
  pub total : ℕ

pub record Page : Type 0 where
  pub items : List LogEntry
  pub info : PageMeta

-- `cached` of `getLogById`.
unfoldable pub cached_entry : Option Json → Option LogEntry
unfolding ◌>>=◌
cached_entry cached = cached >>= read_entry

module _ (sha256 : List ℕ → Text) where
  unfoldable pub status_of : LogEntry → Bool
  status_of e = verify_entry sha256 e (some (or_else e.previous_hash genesis_previous_hash))

  unfoldable pub found : LogEntry → Found
  found e = record { entry = e; verification_status = status_of e }

  -- The read from the database, and the write to the cache after it.
  unfoldable pub load_entry : ℕ → Text → Option Row → World → Result Found × World
  load_entry ttl id none w =
      (err (app_error (new_app_error (codes "Log entry not found") 404 (codes "NOT_FOUND"))), w)
  load_entry ttl id (some row) w = (
    ok (found (to_entry row)),
    record w { redis = Redis.set (log_key id) (entry_json (to_entry row)) ttl w.redis },
  )

  unfoldable pub after_cache : ℕ → Text → Option LogEntry → World → Result Found × World
  after_cache ttl id none w =
      if w.db_answers then load_entry ttl id (find_by_id id w.db) w else (err database, w)
  after_cache ttl id (some e) w = (ok (found e), w)

  unfoldable pub get_log_by_id : ℕ → Text → World → Result Found × World
  get_log_by_id ttl id w = after_cache ttl id (cached_entry (Redis.get (log_key id) w.redis)) w

  unfoldable pub entry_of : Result Found × World → Result LogEntry × World
  entry_of (ok f, w) = (ok f.entry, w)
  entry_of (err e, w) = (err e, w)

  unfoldable pub get_log_entry_by_id : ℕ → Text → World → Result LogEntry × World
  get_log_entry_by_id ttl id w = entry_of (get_log_by_id ttl id w)

-- Steps 2 and 3 of `createLogEntry`, after the commit.
unfoldable pub after_commit : ℕ → Result Row × Db → World → Result LogEntry × World
after_commit ttl (err e, db) w = (err e, record w { db = db })
after_commit ttl (ok row, db) w = (
  ok (to_entry row),
  record w {
    db = db;
    redis =
        Redis.set latest_log_key
          (summary_json (record {
            id = row.id;
            current_hash = row.current_hash;
            created_at = date row.created_at;
          }))
          ttl w.redis;
    queue = enqueue_verification row.id w.queue;
  },
)

module _ (sha256 : List ℕ → Text) (pg : Postgres) where
  -- `now` is the time of `new Date()`, which is read before the transaction starts.
  unfoldable pub create_log_entry :
      ℕ → (Query → Bool) → Text → ℕ → Body → World → Result LogEntry × World
  create_log_entry ttl fails id now body w =
      after_commit ttl
        (create_with_transaction sha256 pg fails id
          (record {
            actor = body.actor;
            action = body.action;
            payload = body.payload;
            created_at = now;
          })
          w.db)
        w

module _ (pg : Postgres) where
  unfoldable pub get_all_log_entries : ℕ → ℕ → World → Result Page
  get_all_log_entries page page_size w =
      if w.db_answers
      then ok (record {
        items = map to_entry (find_all pg page page_size w.db);
        info = record { page = page; page_size = page_size; total = count w.db };
      })
      else err database

  unfoldable pub export_logs : Filters → World → Result (List LogEntry)
  export_logs filters w =
      if w.db_answers then ok (map to_entry (find_filtered pg filters w.db)) else err database

  -- src/services/export.service.js
  unfoldable pub export_as_json : Filters → World → Result (List LogEntry)
  export_as_json filters w = export_logs filters w
