-- ===== src/Schedule/Replies.antt =====
-- What the calls of src/services/log.service.js return when others come between their steps.
use potens_intern_backend_sh.Common.{
  ℕ, ◌≡◌, refl, ap, ◌∙◌, ◌⊎◌, inl, inr, Bool, false, Bool-cases, Option, none, some, [], Text, All,
  All-map,
}
use potens_intern_backend_sh.Hash.{LogEntry}
use potens_intern_backend_sh.Errors.{Result, ok, err, Thrown, database}
use potens_intern_backend_sh.Database.{Row, Db, Query, to_entry}
use potens_intern_backend_sh.Repository.{find_by_id}
use potens_intern_backend_sh.Repository.Creation.{Outcome, create_with_transaction-Outcome}
use potens_intern_backend_sh.Copies.{json_entry}
use potens_intern_backend_sh.LogService.{World, Body, found, status_of}
use potens_intern_backend_sh.LogService.Creation.{to_dto}
use potens_intern_backend_sh.LogService.Reads.{status_of-json}
use potens_intern_backend_sh.LogService.Coherence.{IsCoherent, cached_of_IsCoherent}
use potens_intern_backend_sh.LogService.Answers.{Answer}
use potens_intern_backend_sh.Controllers.{Config}
use potens_intern_backend_sh.Schedule.{
  Task, creating, caching, queueing, looking, reading, filling, advance, committed, State, Reach,
  Reply, of_create, of_get, thrown, hit, missed, reply,
}
use potens_intern_backend_sh.Schedule.Kept.{IsReady}
use potens_intern_backend_sh.Schedule.Interleavings.{Reach-IsSafe}

-- What a call may return at its end: createLogEntry a row that the table has under its id, or an error
-- and the tables as they are; getLogById what the table has at that moment.
abbrev pub IsAnswered : (config : Config) → (Query → Bool) → World → Task → Reply → Type 0
IsAnswered config fails w (creating id now body) (of_create r) =
    (e : Thrown) × (r ≡ err e) × ((advance config fails (creating id now body) w).0.db ≡ w.db)
IsAnswered config fails w (queueing row) (of_create r) =
    (r ≡ ok (to_entry row)) × (find_by_id row.id w.db ≡ some row)
IsAnswered config fails w (looking id) (of_get r) =
    Answer config.sha256 config.cache_ttl_seconds id w r
IsAnswered config fails w (reading id) (of_get r) =
    Answer config.sha256 config.cache_ttl_seconds id w r
IsAnswered config fails w (filling id row) (of_get r) =
    Answer config.sha256 config.cache_ttl_seconds id w r
IsAnswered config fails w _ _ = ⊥

module _ (config : Config) (fails : Query → Bool) (w : World) where
  creating-IsAnswered :
      (id : Text) (now : ℕ) (body : Body) (x : Result Row × Db) (r : Reply)
      → Outcome config.sha256 config.pg id (to_dto now body) w.db x
      → thrown x.0 ≡ some r
      → (e : Thrown) × (r ≡ of_create (err e)) × ((committed config x w).0.db ≡ w.db)
  unfolding thrown committed
  creating-IsAnswered id now body (ok row, db) r outcome e = cc
  creating-IsAnswered id now body (err t, db) r (inl (t', threw, same)) e = (t, cc, same)
  creating-IsAnswered id now body (err t, db) r (inr (row, returned, made)) e = cc

  hit-IsAnswered :
      (id : Text) (o : Option LogEntry) (r : Reply)
      → (o ≡ none)
        ⊎ ((row : Row) × (find_by_id id w.db ≡ some row) × (o ≡ some (json_entry (to_entry row))))
      → hit config o ≡ some r
      → IsAnswered config fails w (looking id) r
  unfolding hit found
  hit-IsAnswered id none r h e = cc
  hit-IsAnswered id (some x) r (inl nothing) e = cc
  hit-IsAnswered id (some x) (of_create y) h e = cc
  hit-IsAnswered id (some x) (of_get y) (inr (row, stored, copy)) e =
      let same : x ≡ json_entry (to_entry row) = cc in
      let result : y ≡ ok (found config.sha256 x) = cc in
      inr (
        inr (
          row,
          found config.sha256 x,
          stored,
          result,
          ap (status_of config.sha256) same ∙ status_of-json config.sha256 row,
          inr same,
        ))

  missed-IsAnswered :
      (id : Text) (o : Option Row) (r : Reply)
      → find_by_id id w.db ≡ o
      → missed config o ≡ some r
      → IsAnswered config fails w (reading id) r
  unfolding missed
  missed-IsAnswered id (some row) r stored e = cc
  missed-IsAnswered id none (of_create y) stored e = cc
  missed-IsAnswered id none (of_get y) stored e = inr (inl (stored, cc))

  silent-IsAnswered :
      (id : Text) (r : Reply)
      → w.db_answers ≡ false
      → some (of_get (err database)) ≡ some r
      → IsAnswered config fails w (reading id) r
  silent-IsAnswered id (of_create y) silent e = cc
  silent-IsAnswered id (of_get y) silent e = inl (silent, cc)

  -- The reply of a task that can rely on what it has seen.
  reply-IsAnswered :
      (t : Task) (r : Reply)
      → IsCoherent w
      → IsReady w.db t
      → reply config fails t w ≡ some r
      → IsAnswered config fails w t r
  unfolding reply advance found
  reply-IsAnswered (creating id now body) (of_create y) h ready e =
      let (t, same, kept) =
        creating-IsAnswered id now body _ (of_create y)
          (create_with_transaction-Outcome config.sha256 config.pg fails id (to_dto now body) w.db)
          e in
      (t, cc, kept)
  reply-IsAnswered (creating id now body) (of_get y) h ready e =
      let (t, same, kept) =
        creating-IsAnswered id now body _ (of_get y)
          (create_with_transaction-Outcome config.sha256 config.pg fails id (to_dto now body) w.db)
          e in
      cc
  reply-IsAnswered (caching row) r h ready e = cc
  reply-IsAnswered (queueing row) (of_create y) h ready e = (cc, ready)
  reply-IsAnswered (queueing row) (of_get y) h ready e = cc
  reply-IsAnswered (looking id) r h ready e = hit-IsAnswered id _ r (cached_of_IsCoherent w id h) e
  reply-IsAnswered (reading id) r h ready e = elim (Bool-cases w.db_answers) [
    | inl answers ↦ missed-IsAnswered id _ r refl (simp answers at e)
    | inr silent ↦ silent-IsAnswered id r silent (simp silent at e)
  ]
  reply-IsAnswered (filling id row) (of_create y) h ready e = cc
  reply-IsAnswered (filling id row) (of_get y) h ready e =
      inr (inr (row, found config.sha256 (to_entry row), ready, cc, refl, inl refl))

-- In every interleaving from a cache that agrees with the table and no call on, what the calls
-- return is right at the moment at which they return: createLogEntry throws and leaves the tables
-- as they are, or returns a row that the table has under its id; getLogById answers as the table
-- does then, though it has looked at the cache or the table before.
pub Reach-IsAnswered :
    (config : Config) (s t : State)
    → s.tasks ≡ []
    → IsCoherent s.world
    → Reach config s t
    → All
        (λ task.
          (fails : Query → Bool) (r : Reply)
          → reply config fails task t.world ≡ some r
          → IsAnswered config fails t.world task r)
        t.tasks
Reach-IsAnswered config s t idle cache reach =
    let safe = Reach-IsSafe config s t idle cache reach in
    All-map (IsReady t.world.db) _
      (λ task ready fails r. reply-IsAnswered config fails t.world task r safe.cache ready) t.tasks
      safe.ready
