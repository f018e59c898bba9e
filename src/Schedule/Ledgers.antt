-- ===== src/Schedule/Ledgers.antt =====
-- The log in the interleavings of the calls of src/services/log.service.js.
use mathlib.Core.List.{append_assoc, append-nil}
use mathlib.Core.Path.{subst}
use potens_intern_backend_sh.Common.{
  ℕ, ◌≡◌, refl, sym, ap, ◌∙◌, inl, inr, Bool, true, false, Option, none, some, List, [], ◌∷◌, ◌++◌,
  Text, All, All-append, All-split, if◌then◌else◌,
}
use potens_intern_backend_sh.Hash.{LogEntry}
use potens_intern_backend_sh.Errors.{Result, ok, err}
use potens_intern_backend_sh.Database.{Row, Db, Query}
use potens_intern_backend_sh.Repository.{find_by_id}
use potens_intern_backend_sh.Repository.Creation.{Outcome, create_with_transaction-Outcome}
use potens_intern_backend_sh.Repository.Ledger.{IsConsistent, IsConsistent-of_IsCreated}
use potens_intern_backend_sh.LogService.{World, Body}
use potens_intern_backend_sh.LogService.Creation.{to_dto}
use potens_intern_backend_sh.LogService.Coherence.{IsCoherent}
use potens_intern_backend_sh.Controllers.{Config}
use potens_intern_backend_sh.App.Runs.{IsStable, IsSound}
use potens_intern_backend_sh.Schedule.{
  Task, creating, caching, queueing, looking, reading, filling, committed, looked, read, advance,
  State, listed, Step, create, get, move, tick, drift, Reach, here, next,
}
use potens_intern_backend_sh.Schedule.Interleavings.{Reach-IsSafe}

-- The payload of a call that creates is one whose text the database keeps.
abbrev pub IsStableStep : (config : Config) (s t : State) → Step config s t → Type 0
IsStableStep config s t (create id body s') = IsStable config body
IsStableStep config s t _ = Unit

abbrev pub AreStable : (config : Config) (s t : State) → Reach config s t → Type 0
AreStable config s t here = Unit
AreStable config s t (next reach step) = AreStable config _ _ reach × IsStableStep config _ _ step

abbrev IsPending : Config → Task → Type 0
IsPending config (creating id now body) = IsStable config body
IsPending config _ = Unit

-- The log is one intact chain that begins with the rows of before, and what is about to be committed
-- keeps it so.
record IsHeld (config : Config) (before : List Row) (db : Db) (tasks : List Task) : Type 0 where
  ledger : IsConsistent config.sha256 db
  more : List Row
  grown : db.log_entries ≡ before ++ more
  pending : All (IsPending config) tasks

module _ (config : Config) (before : List Row) (w : World) (task : Task)
    (h : IsHeld config before w.db (task ∷ [])) where
  -- A step that leaves the table as it is.
  IsHeld-same :
      (db : Db) (ts : List Task)
      → db ≡ w.db
      → All (IsPending config) ts
      → IsHeld config before db ts
  IsHeld-same db ts same pending = record {
    ledger = subst (IsConsistent config.sha256) (sym same) h.ledger;
    more = h.more;
    grown = ap (λ (x : Db). x.log_entries) same ∙ h.grown;
    pending = pending;
  }

  committed-IsHeld :
      (id : Text) (now : ℕ) (body : Body) (r : Result Row × Db)
      → IsStable config body
      → Outcome config.sha256 config.pg id (to_dto now body) w.db r
      → IsHeld config before (committed config r w).0.db (listed (committed config r w).1)
  unfolding committed
  committed-IsHeld id now body (err e, db) stable (inl (e', thrown, same)) =
      IsHeld-same db [] same tt
  committed-IsHeld id now body (ok row, db) stable (inl (e, thrown, same)) = cc
  committed-IsHeld id now body (err e, db) stable (inr (row, returned, made)) = cc
  committed-IsHeld id now body (ok row, db) stable (inr (row', returned, made)) = record {
    ledger = IsConsistent-of_IsCreated config.sha256 config.pg stable h.ledger made;
    more = h.more ++ row' ∷ [];
    grown =
        made.appended
        ∙ ap (λ (rows : List Row). rows ++ row' ∷ []) h.grown
        ∙ append_assoc before h.more (row' ∷ []);
    pending = (tt, tt);
  }

  looked-IsPending :
      (id : Text) (o : Option LogEntry) → All (IsPending config) (listed (looked config id o))
  unfolding looked
  looked-IsPending id none = (tt, tt)
  looked-IsPending id (some e) = tt

  read-IsPending : (id : Text) (o : Option Row) → All (IsPending config) (listed (read config id o))
  unfolding read
  read-IsPending id none = tt
  read-IsPending id (some row) = (tt, tt)

  reading-IsPending :
      (id : Text) (b : Bool)
      → All (IsPending config) (listed (if b then read config id (find_by_id id w.db) else none))
  reading-IsPending id true = read-IsPending id _
  reading-IsPending id false = tt

advance-IsHeld :
    (config : Config) (before : List Row) (w : World) (fails : Query → Bool) (task : Task)
    → IsHeld config before w.db (task ∷ [])
    → IsHeld config before
        (advance config fails task w).0.db
        (listed (advance config fails task w).1)
unfolding advance
advance-IsHeld config before w fails (creating id now body) h =
    committed-IsHeld config before w _ h id now body _ h.pending.0
      (create_with_transaction-Outcome config.sha256 config.pg fails id (to_dto now body) w.db)
advance-IsHeld config before w fails (caching row) h =
    IsHeld-same config before w _ h w.db _ refl (tt, tt)
advance-IsHeld config before w fails (queueing row) h =
    IsHeld-same config before w _ h w.db [] refl tt
advance-IsHeld config before w fails (looking id) h =
    IsHeld-same config before w _ h w.db _ refl (looked-IsPending config before w _ h id _)
advance-IsHeld config before w fails (reading id) h =
    IsHeld-same config before w _ h w.db _ refl
      (reading-IsPending config before w _ h id w.db_answers)
advance-IsHeld config before w fails (filling id row) h =
    IsHeld-same config before w _ h w.db [] refl tt

module _ (config : Config) (before : List Row) where
  moved-IsHeld :
      (fails : Query → Bool) (task : Task) (xs ys : List Task) (w : World)
      → IsHeld config before w.db (xs ++ task ∷ ys)
      → IsHeld config before
          (advance config fails task w).0.db
          (xs ++ (listed (advance config fails task w).1 ++ ys))
  moved-IsHeld fails task xs ys w h =
      let (pending_xs, (pending_task, pending_ys)) =
        All-split (IsPending config) xs (task ∷ ys) h.pending in
      let held = advance-IsHeld config before w fails task (record {
        ledger = h.ledger;
        more = h.more;
        grown = h.grown;
        pending = (pending_task, tt);
      }) in
      record {
        ledger = held.ledger;
        more = held.more;
        grown = held.grown;
        pending =
            All-append (IsPending config) xs _ pending_xs
              (All-append (IsPending config) _ ys held.pending pending_ys);
      }

  Step-IsHeld :
      (s t : State) (step : Step config s t)
      → IsStableStep config s t step
      → IsHeld config before s.world.db s.tasks
      → IsHeld config before t.world.db t.tasks
  Step-IsHeld s t (create id body s') stable h = record {
    ledger = h.ledger;
    more = h.more;
    grown = h.grown;
    pending = (stable, h.pending);
  }
  Step-IsHeld s t (get id s') stable h = record {
    ledger = h.ledger;
    more = h.more;
    grown = h.grown;
    pending = (tt, h.pending);
  }
  Step-IsHeld s t (move fails task xs ys w clock) stable h = moved-IsHeld fails task xs ys w h
  Step-IsHeld s t (tick d s') stable h = h
  Step-IsHeld s t (drift answers up accepts left jobs s' within) stable h = h

  Reach-IsHeld :
      (s t : State) (reach : Reach config s t)
      → AreStable config s t reach
      → IsHeld config before s.world.db s.tasks
      → IsHeld config before t.world.db t.tasks
  Reach-IsHeld s t here stable h = h
  Reach-IsHeld s t (next reach step) (stable, last) h =
      Step-IsHeld _ t step last (Reach-IsHeld s _ reach stable h)

-- In every interleaving of calls that create and read entries, with failures of the services between
-- any two of their steps, from a sound log and cache and no call on, if the text of each payload that
-- is created survives the database: the log stays one intact chain that only grows at its end, with
-- its chain head there; and the cache holds under "log:" and an id the row with that id, and under
-- "latest_log" the summary of a row of the log, not always the last one, or nothing.
pub Reach-IsSound :
    (config : Config) (s t : State) (reach : Reach config s t)
    → s.tasks ≡ []
    → IsConsistent config.sha256 s.world.db
    → IsCoherent s.world
    → AreStable config s t reach
    → IsSound config s.world.db.log_entries t.world
Reach-IsSound config s t reach idle ledger cache stable =
    let held = Reach-IsHeld config s.world.db.log_entries s t reach stable (record {
      ledger = ledger;
      more = [];
      grown = sym (append-nil s.world.db.log_entries);
      pending = subst (All (IsPending config)) (sym idle) tt;
    }) in
    record {
      ledger = held.ledger;
      cache = (Reach-IsSafe config s t idle cache reach).cache;
      more = held.more;
      grown = held.grown;
    }
