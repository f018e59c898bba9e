-- ===== src/App/Traces.antt =====
-- Sequences of requests to src/app.js against the reference service.
use potens_intern_backend_sh.Common.{
  ℕ, ◌≡◌, refl, ap, ◌∙◌, inl, inr, Bool, true, Option, none, some, List, [], ◌∷◌, Text, Bool-cases,
}
use potens_intern_backend_sh.Errors.{Result, ok, err}
use potens_intern_backend_sh.Database.{Row, Db}
use potens_intern_backend_sh.LogService.{World, Job, after_commit, create_log_entry, get_log_by_id}
use potens_intern_backend_sh.Redis.{Answers, Within}
use potens_intern_backend_sh.LogService.Coherence.{
  IsCoherent, create_log_entry-IsCoherent, get_log_by_id-IsCoherent,
}
use potens_intern_backend_sh.LogService.Coherence.Writes.{IsCoherent-drift}
use potens_intern_backend_sh.Repository.{find_by_id}
use potens_intern_backend_sh.Http.{Response}
use potens_intern_backend_sh.Controllers.{Config, Turn}
use potens_intern_backend_sh.App.{
  Request, Route, root, health, api, other, post_log, get_log_id, get_logs_page, get_verify,
  get_export, unmatched, app,
}
use potens_intern_backend_sh.App.Keeps.{app-keeps}
use potens_intern_backend_sh.App.Reference.{reference, replay}
use potens_intern_backend_sh.App.Refinement.{app-seen}
use potens_intern_backend_sh.App.Keeps.{Allows}
use potens_intern_backend_sh.Hash.{LogEntry}
use potens_intern_backend_sh.LogService.{load_entry, after_cache}

-- A sequence of requests with their responses; between them Redis and the queue come up or go down,
-- keys are dropped or expire, and jobs come and go.
pub data Trace (config : Config)
    : World → List (Turn × Request) → List Response → World → Type 0 where
  done : (w : World) → Trace config w [] [] w
  serve :
      {calls : List (Turn × Request)} {responses : List Response} {v : World} (turn : Turn)
      (req : Request) (w : World)
      → Trace config (app config turn req w).1 calls responses v
      → Trace config w ((turn, req) ∷ calls) ((app config turn req w).0 ∷ responses) v
  drift :
      {calls : List (Turn × Request)} {responses : List Response} {v : World} (up accepts : Bool)
      (left : Answers) (jobs : List Job) (w : World)
      → Within w.redis.answers left
      → Trace config
          (record w {
            redis = record w.redis { up = up; answers = left };
            queue = record w.queue { accepts = accepts; jobs = jobs };
          })
          calls
          responses
          v
      → Trace config w calls responses v

-- What holds between two requests.
abbrev IsServing : World → Type 0
IsServing w = (w.db_answers ≡ true) × IsCoherent w

module _ (config : Config) where
  create-db_answers :
      (ttl : ℕ) (r : Result Row × Db) (w : World)
      → (after_commit ttl r w).1.db_answers ≡ w.db_answers
  unfolding after_commit
  create-db_answers ttl (ok row, db) w = refl
  create-db_answers ttl (err e, db) w = refl

  load_entry-db_answers :
      (id : Text) (o : Option Row) (w : World)
      → (load_entry config.sha256 config.cache_ttl_seconds id o w).1.db_answers ≡ w.db_answers
  unfolding load_entry
  load_entry-db_answers id none w = refl
  load_entry-db_answers id (some row) w = refl

  after_cache-db_answers :
      (id : Text) (o : Option LogEntry) (w : World)
      → (after_cache config.sha256 config.cache_ttl_seconds id o w).1.db_answers ≡ w.db_answers
  unfolding after_cache
  after_cache-db_answers id (some e) w = refl
  after_cache-db_answers id none w = elim (Bool-cases w.db_answers) [
    | inl answers ↦ simp answers (load_entry-db_answers id (find_by_id id w.db) w ∙ answers)
    | inr silent ↦ simp silent refl
  ]

  get_log_by_id-db_answers :
      (id : Text) (w : World)
      → (get_log_by_id config.sha256 config.cache_ttl_seconds id w).1.db_answers ≡ w.db_answers
  unfolding get_log_by_id
  get_log_by_id-db_answers id w = after_cache-db_answers id _ w

  all-Allows : (r : Route) → Allows (λ body. Unit) r
  all-Allows root = tt
  all-Allows health = tt
  all-Allows other = tt
  all-Allows (api (post_log json)) = λ body valid. tt
  all-Allows (api (get_log_id id)) = tt
  all-Allows (api (get_logs_page query)) = tt
  all-Allows (api get_verify) = tt
  all-Allows (api (get_export query)) = tt
  all-Allows (api unmatched) = tt

  app-IsServing :
      (turn : Turn) (req : Request) (w : World) → IsServing w → IsServing (app config turn req w).1
  app-IsServing turn req w h =
      app-keeps config (λ body. Unit) IsServing
        (λ turn body w meant h. (
          unfold create_log_entry in (create-db_answers config.cache_ttl_seconds _ w ∙ h.0),
          create_log_entry-IsCoherent config.sha256 config.pg config.cache_ttl_seconds turn.fails
              turn.uuid turn.now body w h.1,
        ))
        (λ id w h. (
          get_log_by_id-db_answers id w ∙ h.0,
          get_log_by_id-IsCoherent config.sha256 config.cache_ttl_seconds id w h.1,
        ))
        turn req w (all-Allows req.route) h

replay-cons :
    (config : Config) (turn : Turn) (req : Request) (calls : List (Turn × Request)) (db : Db)
    (r : Response × Db) (responses : List Response) {after : Db}
    → r ≡ reference config turn req db
    → (responses, after) ≡ replay config calls r.1
    → (r.0 ∷ responses, after) ≡ replay config ((turn, req) ∷ calls) db
unfolding replay
replay-cons config turn req calls db r responses now rest =
    ap (λ (q : List Response × Db). (r.0 ∷ q.0, q.1)) rest
    ∙ ap (λ (p : Response × Db). (p.0 ∷ (replay config calls p.1).0, (replay config calls p.1).1))
        now

-- While the database answers, a sequence of requests gets the responses, and leaves the tables, of the
-- reference, which has neither cache nor queue; whatever Redis and the queue do between them.
pub Trace-replay :
    (config : Config) {w v : World} {calls : List (Turn × Request)} {responses : List Response}
    → w.db_answers ≡ true
    → IsCoherent w
    → Trace config w calls responses v
    → (responses, v.db) ≡ replay config calls w.db
unfolding replay
Trace-replay config answers coherent (done w) = refl
Trace-replay config {calls = _ ∷ calls} {responses = _ ∷ responses} answers coherent
      (serve turn req w trace) =
    let (answers', coherent') = app-IsServing config turn req w (answers, coherent) in
    let rest = Trace-replay config answers' coherent' trace in
    let now = app-seen config turn w answers coherent req in
    replay-cons config turn req calls w.db _ responses now rest
Trace-replay config answers coherent (drift up accepts left jobs w within trace) =
    Trace-replay config answers
      (IsCoherent-drift w w.db_answers up accepts left jobs within coherent) trace
