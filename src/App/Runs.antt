-- ===== src/App/Runs.antt =====
-- The life of the service: requests to src/app.js one after the other, in any order and at any times,
-- and what happens to the services between them.
use mathlib.Core.List.{append_assoc, append-nil}
use mathlib.Core.Path.{subst}
use potens_intern_backend_sh.Common.{◌≡◌, sym, ap, ◌∙◌, inl, inr, Bool, List, [], ◌∷◌, ◌++◌}
use potens_intern_backend_sh.Hash.{LogEntry}
use potens_intern_backend_sh.Errors.{Result}
use potens_intern_backend_sh.Database.{Row, Db}
use potens_intern_backend_sh.Repository.Ledger.{Survives, IsConsistent, IsConsistent-of_IsCreated}
use potens_intern_backend_sh.Redis.{Answers, Within}
use potens_intern_backend_sh.LogService.{World, Body, Job}
use potens_intern_backend_sh.LogService.Creation.{Effect, create_log_entry-Effect}
use potens_intern_backend_sh.LogService.Reads.{get_log_by_id-db}
use potens_intern_backend_sh.LogService.Coherence.{
  IsCoherent, create_log_entry-IsCoherent, get_log_by_id-IsCoherent,
}
use potens_intern_backend_sh.LogService.Coherence.Writes.{IsCoherent-drift}
use potens_intern_backend_sh.Controllers.{Config, Turn}
use potens_intern_backend_sh.App.{Request, app}
use potens_intern_backend_sh.App.Keeps.{Allows, app-keeps}

-- The text of a payload is the same after the database has stored it.
abbrev pub IsStable : Config → Body → Type 0
IsStable config body = Survives config.pg body.payload

-- A request, whose payload is stable; or what happens to the services: the database, Redis and the
-- queue come up or go down, Redis drops keys or lets them expire, the queue is left with other jobs.
pub data Step (config : Config) : World → World → Type 0 where
  serve :
      (turn : Turn) (req : Request) (w : World)
      → Allows (IsStable config) req.route
      → Step config w (app config turn req w).1
  drift :
      (answers up accepts : Bool) (left : Answers) (jobs : List Job) (w : World)
      → Within w.redis.answers left
      → Step config w (record w {
        db_answers = answers;
        redis = record w.redis { up = up; answers = left };
        queue = record w.queue { accepts = accepts; jobs = jobs };
      })

pub data Run (config : Config) (start : World) : World → Type 0 where
  here : Run config start start
  next : {v w : World} → Run config start v → Step config v w → Run config start w

-- The log and the cache are sound, and hold what they held before and perhaps more.
pub record IsSound (config : Config) (before : List Row) (w : World) : Type 0 where
  pub ledger : IsConsistent config.sha256 w.db
  pub cache : IsCoherent w
  pub more : List Row
  pub grown : w.db.log_entries ≡ before ++ more

module _ (config : Config) (before : List Row) where
  IsSound-of_Effect :
      (turn : Turn) (body : Body) (w : World) (r : Result LogEntry × World)
      → Effect config.sha256 config.pg config.cache_ttl_seconds turn.uuid turn.now body w r
      → IsCoherent r.1
      → IsStable config body
      → IsSound config before w
      → IsSound config before r.1
  IsSound-of_Effect turn body w r (inl (e, thrown, same)) kept stable h =
      subst (IsSound config before) (sym same) h
  IsSound-of_Effect turn body w r (inr (row, returned, made, cache, queue)) kept stable h = record {
    ledger = IsConsistent-of_IsCreated config.sha256 config.pg stable h.ledger made;
    cache = kept;
    more = h.more ++ row ∷ [];
    grown =
        made.appended
        ∙ ap (λ (rows : List Row). rows ++ row ∷ []) h.grown
        ∙ append_assoc before h.more (row ∷ []);
  }

  app-IsSound :
      (turn : Turn) (req : Request) (w : World)
      → Allows (IsStable config) req.route
      → IsSound config before w
      → IsSound config before (app config turn req w).1
  app-IsSound turn req w allowed h =
      app-keeps config (IsStable config) (IsSound config before)
        (λ turn body w stable h.
          IsSound-of_Effect turn body w _
            (create_log_entry-Effect config.sha256 config.pg config.cache_ttl_seconds turn.fails
              turn.uuid turn.now body w)
            (create_log_entry-IsCoherent config.sha256 config.pg config.cache_ttl_seconds turn.fails
              turn.uuid turn.now body w h.cache)
            stable h)
        (λ id w h.
          let same = get_log_by_id-db config.sha256 config.cache_ttl_seconds id w in
          record {
            ledger = subst (IsConsistent config.sha256) (sym same) h.ledger;
            cache = get_log_by_id-IsCoherent config.sha256 config.cache_ttl_seconds id w h.cache;
            more = h.more;
            grown = ap (λ (db : Db). db.log_entries) same ∙ h.grown;
          })
        turn req w allowed h

  Step-IsSound : {v w : World} → Step config v w → IsSound config before v → IsSound config before w
  Step-IsSound (serve turn req w allowed) h = app-IsSound turn req w allowed h
  Step-IsSound (drift answers up accepts left jobs w within) h = record {
    ledger = h.ledger;
    cache = IsCoherent-drift w answers up accepts left jobs within h.cache;
    more = h.more;
    grown = h.grown;
  }

  Run-keeps : {v w : World} → IsSound config before v → Run config v w → IsSound config before w
  Run-keeps h here = h
  Run-keeps h (next run step) = Step-IsSound step (Run-keeps h run)

-- Whatever requests are served and whatever the services do between them, from a sound log and cache
-- on: the log stays one intact chain with its chain head at the end, it only grows at its end, and
-- the cache holds under "log:" and an id the row with that id, and under "latest_log" the summary of
-- a row of the log, not always the last one, or nothing. The text of each payload that is created
-- survives the database.
pub Run-IsSound :
    (config : Config) (v w : World)
    → IsConsistent config.sha256 v.db
    → IsCoherent v
    → Run config v w
    → IsSound config v.db.log_entries w
Run-IsSound config v w ledger cache run =
    Run-keeps config v.db.log_entries
      (record {
        ledger = ledger;
        cache = cache;
        more = [];
        grown = sym (append-nil v.db.log_entries);
      })
      run
