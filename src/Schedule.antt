-- ===== src/Schedule.antt =====
-- The calls of src/services/log.service.js at the same time: between two `await`s another call may go
-- on. A task is a call that has come to an `await`; the row lock makes a transaction one step.
pub mod Alone
pub mod Kept
pub mod Interleavings
pub mod Ledgers
pub mod Writers
pub mod Orderly
pub mod Replies
use potens_intern_backend_sh.Common.{
  ℕ, ◌+◌, ◌≡◌, Bool, true, false, Option, none, some, List, [], ◌∷◌, ◌++◌, Text, codes,
  if◌then◌else◌,
}
use potens_intern_backend_sh.Hash.{LogEntry, date}
use potens_intern_backend_sh.Errors.{Result, ok, err, database, app_error, new_app_error}
use potens_intern_backend_sh.Database.{Row, Db, Query, to_entry}
use potens_intern_backend_sh.Repository.{create_with_transaction, find_by_id}
use potens_intern_backend_sh.Repository.Ledger.{Survives}
use potens_intern_backend_sh.Redis
use potens_intern_backend_sh.Redis.{Answers, Within}
use potens_intern_backend_sh.Copies.{summary_json, entry_json}
use potens_intern_backend_sh.LogService.{
  World, Body, Job, Found, found, latest_log_key, log_key, enqueue_verification, cached_entry,
}
use potens_intern_backend_sh.LogService.Creation.{to_dto}
use potens_intern_backend_sh.Controllers.{Config}

-- `createLogEntry` before its transaction, with the time that it has taken, before the write to the
-- cache, and before the job; `getLogById` before the cache, before the table, and before its write to
-- the cache.
pub data Task : Type 0 where
  creating : Text → ℕ → Body → Task
  caching : Row → Task
  queueing : Row → Task
  looking : Text → Task
  reading : Text → Task
  filling : Text → Row → Task

module _ (config : Config) where
  unfoldable pub committed : Result Row × Db → World → World × Option Task
  committed (ok row, db) w = (record w { db = db }, some (caching row))
  committed (err e, db) w = (record w { db = db }, none)

  unfoldable pub looked : Text → Option LogEntry → Option Task
  looked id none = some (reading id)
  looked id (some e) = none

  unfoldable pub read : Text → Option Row → Option Task
  read id none = none
  read id (some row) = some (filling id row)

  -- A task up to its next `await`, or to its end.
  unfoldable pub advance : (Query → Bool) → Task → World → World × Option Task
  unfolding committed looked read
  advance fails (creating id now body) w =
      committed (create_with_transaction config.sha256 config.pg fails id (to_dto now body) w.db) w
  advance fails (caching row) w = (
    record w {
      redis =
          Redis.set latest_log_key
            (summary_json (record {
              id = row.id;
              current_hash = row.current_hash;
              created_at = date row.created_at;
            }))
            config.cache_ttl_seconds w.redis;
    },
    some (queueing row),
  )
  advance fails (queueing row) w = (record w { queue = enqueue_verification row.id w.queue }, none)
  advance fails (looking id) w = (w, looked id (cached_entry (Redis.get (log_key id) w.redis)))
  advance fails (reading id) w = (w, if w.db_answers then read id (find_by_id id w.db) else none)
  advance fails (filling id row) w = (
    record w {
      redis = Redis.set (log_key id) (entry_json (to_entry row)) config.cache_ttl_seconds w.redis;
    },
    none,
  )

-- What a call returns or throws.
pub data Reply : Type 0 where
  of_create : Result LogEntry → Reply
  of_get : Result Found → Reply

unfoldable pub thrown : Result Row → Option Reply
thrown (ok row) = none
thrown (err e) = some (of_create (err e))

module _ (config : Config) where
  unfoldable pub hit : Option LogEntry → Option Reply
  hit none = none
  hit (some e) = some (of_get (ok (found config.sha256 e)))

  unfoldable pub missed : Option Row → Option Reply
  missed none = some (
      of_get
        (err (app_error (new_app_error (codes "Log entry not found") 404 (codes "NOT_FOUND")))))
  missed (some row) = none

  -- What the call of a task returns in the step of `advance`, if it ends in it.
  unfoldable pub reply : (Query → Bool) → Task → World → Option Reply
  unfolding thrown hit missed
  reply fails (creating id now body) w =
      thrown (create_with_transaction config.sha256 config.pg fails id (to_dto now body) w.db).0
  reply fails (caching row) w = none
  reply fails (queueing row) w = some (of_create (ok (to_entry row)))
  reply fails (looking id) w = hit (cached_entry (Redis.get (log_key id) w.redis))
  reply fails (reading id) w =
      if w.db_answers then missed (find_by_id id w.db) else some (of_get (err database))
  reply fails (filling id row) w = some (of_get (ok (found config.sha256 (to_entry row))))

-- The tasks that are under way, and the clock of the process.
pub record State : Type 0 where
  pub world : World
  pub clock : ℕ
  pub tasks : List Task

abbrev pub listed : Option Task → List Task
listed none = []
listed (some t) = t ∷ []

-- A call comes in, and `createLogEntry` takes its time; any task goes on; time passes; a service comes up or goes down, Redis drops keys or lets them
-- expire, the queue is left with other jobs.
pub data Step (config : Config) : State → State → Type 0 where
  create :
      (id : Text) (body : Body) (s : State)
      → Step config s (record s { tasks = creating id s.clock body ∷ s.tasks })
  get : (id : Text) (s : State) → Step config s (record s { tasks = looking id ∷ s.tasks })
  move :
      (fails : Query → Bool) (task : Task) (before after : List Task) (world : World) (clock : ℕ)
      → Step config
          (record { world = world; clock = clock; tasks = before ++ task ∷ after })
          (record {
            world = (advance config fails task world).0;
            clock = clock;
            tasks = before ++ (listed (advance config fails task world).1 ++ after);
          })
  tick : (d : ℕ) (s : State) → Step config s (record s { clock = s.clock + d })
  drift :
      (answers up accepts : Bool) (left : Answers) (jobs : List Job) (s : State)
      → Within s.world.redis.answers left
      → Step config s (record s {
        world = record s.world {
          db_answers = answers;
          redis = record s.world.redis { up = up; answers = left };
          queue = record s.world.queue { accepts = accepts; jobs = jobs };
        };
      })

pub data Reach (config : Config) (start : State) : State → Type 0 where
  here : Reach config start start
  next : {s t : State} → Reach config start s → Step config s t → Reach config start t
