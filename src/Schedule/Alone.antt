-- ===== src/Schedule/Alone.antt =====
-- A task that is not interrupted, against the whole call of src/services/log.service.js.
use potens_intern_backend_sh.Common.{
  ℕ, ◌≡◌, refl, Bool, Option, none, some, Text, inl, inr, Bool-cases,
}
use potens_intern_backend_sh.Hash.{LogEntry}
use potens_intern_backend_sh.Errors.{Result, ok, err}
use potens_intern_backend_sh.Database.{Row, Db, Query}
use potens_intern_backend_sh.Repository.{find_by_id}
use potens_intern_backend_sh.LogService.{
  World, Body, after_commit, create_log_entry, load_entry, after_cache, get_log_by_id,
}
use potens_intern_backend_sh.Controllers.{Config}
use potens_intern_backend_sh.Schedule.{
  Task, creating, looking, committed, looked, read, advance, Reply, of_create, of_get, thrown, hit,
  missed, reply,
}

module _ (config : Config) (fails : Query → Bool) where
  abbrev go_on : World × Option Task → World × Option Task
  go_on (w, none) = (w, none)
  go_on (w, some task) = advance config fails task w

  -- The three steps that a call has at most.
  abbrev pub alone : Task → World → World × Option Task
  alone task w = go_on (go_on (advance config fails task w))

  committed-alone :
      (r : Result Row × Db) (w : World)
      → go_on (go_on (committed config r w)) ≡ ((after_commit config.cache_ttl_seconds r w).1, none)
  unfolding committed after_commit advance
  committed-alone (ok row, db) w = refl
  committed-alone (err e, db) w = refl

  read-alone :
      (id : Text) (o : Option Row) (w : World)
      → go_on (w, read config id o)
        ≡ ((load_entry config.sha256 config.cache_ttl_seconds id o w).1, none)
  unfolding read load_entry advance
  read-alone id none w = refl
  read-alone id (some row) w = refl

  looked-alone :
      (id : Text) (o : Option LogEntry) (w : World)
      → go_on (go_on (w, looked config id o))
        ≡ ((after_cache config.sha256 config.cache_ttl_seconds id o w).1, none)
  unfolding looked after_cache advance
  looked-alone id (some e) w = refl
  looked-alone id none w = elim (Bool-cases w.db_answers) [
    | inl answers ↦ simp answers (read-alone id (find_by_id id w.db) w)
    | inr silent ↦ simp silent refl
  ]

  -- What a task returns that is not interrupted: the first reply of its steps.
  abbrev reply_in : World × Option Task → Option Reply
  reply_in (w, none) = none
  reply_in (w, some task) = reply config fails task w

  abbrev sooner : Option Reply → Option Reply → Option Reply
  sooner none later = later
  sooner (some r) later = some r

  abbrev pub alone_reply : Task → World → Option Reply
  alone_reply task w =
      let second = advance config fails task w in
      sooner (reply config fails task w) (sooner (reply_in second) (reply_in (go_on second)))

  committed-reply :
      (r : Result Row × Db) (w : World)
      → (let second = committed config r w in
          sooner (thrown r.0) (sooner (reply_in second) (reply_in (go_on second))))
        ≡ some (of_create (after_commit config.cache_ttl_seconds r w).0)
  unfolding committed after_commit advance thrown reply
  committed-reply (ok row, db) w = refl
  committed-reply (err e, db) w = refl

  read-reply :
      (id : Text) (o : Option Row) (w : World)
      → sooner (missed config o) (reply_in (w, read config id o))
        ≡ some (of_get (load_entry config.sha256 config.cache_ttl_seconds id o w).0)
  unfolding read load_entry missed reply
  read-reply id none w = refl
  read-reply id (some row) w = refl

  looked-reply :
      (id : Text) (o : Option LogEntry) (w : World)
      → (let second : World × Option Task = (w, looked config id o) in
          sooner (hit config o) (sooner (reply_in second) (reply_in (go_on second))))
        ≡ some (of_get (after_cache config.sha256 config.cache_ttl_seconds id o w).0)
  unfolding looked after_cache advance hit reply
  looked-reply id (some e) w = refl
  looked-reply id none w = elim (Bool-cases w.db_answers) [
    | inl answers ↦ simp answers (read-reply id (find_by_id id w.db) w)
    | inr silent ↦ simp silent refl
  ]

  -- A call that no other one interrupts has ended after its three steps, in the world that the whole
  -- function leaves, and has returned what the whole function returns.
  pub alone_lem :
      (id : Text) (now : ℕ) (body : Body) (w : World)
      → (let (r, after) =
            create_log_entry config.sha256 config.pg config.cache_ttl_seconds fails id now body w in
          (alone (creating id now body) w ≡ (after, none))
          × (alone_reply (creating id now body) w ≡ some (of_create r)))
        × (let (r, after) = get_log_by_id config.sha256 config.cache_ttl_seconds id w in
            (alone (looking id) w ≡ (after, none)) × (alone_reply (looking id) w ≡ some (of_get r)))
  unfolding create_log_entry get_log_by_id advance reply
  alone_lem id now body w =
      ((committed-alone _ w, committed-reply _ w), (looked-alone id _ w, looked-reply id _ w))
