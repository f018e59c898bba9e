-- ===== src/Schedule/Writers.antt =====
-- The calls of `createLogEntry` of src/services/log.service.js that have taken their time and not yet
-- committed, and what a step of a call does to the rows.
use mathlib.Core.List.{Pairwise, Pairwise-append, Pairwise-cons, mem-cons, not-mem-nil}
use mathlib.Core.Logic.Or
use mathlib.Core.Path.{subst}
use native.Mathlib.Bridge.{le_prop}
use potens_intern_backend_sh.Common.{
  ℕ, ◌+◌, ◌<◌, ◌≡◌, refl, sym, ap, ◌⊎◌, inl, inr, Bool, true, false, Option, none, some, List, [],
  ◌∷◌, ◌++◌, Text, All, All-Mem, if◌then◌else◌, arith,
}
use potens_intern_backend_sh.Hash.{LogEntry}
use potens_intern_backend_sh.Errors.{Result, ok, err}
use potens_intern_backend_sh.Database.{Row, Db, Query}
use potens_intern_backend_sh.Repository.{find_by_id}
use potens_intern_backend_sh.Repository.Creation.{Outcome, create_with_transaction-Outcome}
use potens_intern_backend_sh.LogService.{World, Body}
use potens_intern_backend_sh.LogService.Creation.{to_dto}
use potens_intern_backend_sh.Controllers.{Config}
use potens_intern_backend_sh.Schedule.{
  Task, creating, caching, queueing, looking, reading, filling, committed, looked, read, advance,
  listed,
}

abbrev pub weight : Task → ℕ
weight (creating id now body) = 1
weight _ = 0

-- How many calls have taken their time and not yet committed.
abbrev pub writers : List Task → ℕ
writers [] = 0
writers (t ∷ ts) = weight t + writers ts

-- All rows are earlier than a time.
abbrev pub AreBefore : ℕ → List Row → Type 0
AreBefore now rows = All (λ (row : Row). row.created_at < now) rows

abbrev pub IsLater : List Row → Task → Type 0
IsLater rows (creating id now body) = AreBefore now rows
IsLater rows _ = Unit

abbrev pub Increasing : List Row → Type 0
Increasing rows = Pairwise (λ a b. a.created_at < b.created_at) rows

-- What a step of a task does to the rows: nothing, or it commits the row of its call.
pub record Moved (t : Task) (w : World) (r : World × Option Task) : Type 0 where
  pub idle : writers (listed r.1) ≡ 0
  pub rows :
      (r.0.db.log_entries ≡ w.db.log_entries)
      ⊎ ((id : Text) × (now : ℕ) × (body : Body) × (row : Row) × (t ≡ creating id now body)
          × (row.created_at ≡ now)
          × (r.0.db.log_entries ≡ w.db.log_entries ++ row ∷ []))

module _ (config : Config) (w : World) where
  committed-Moved :
      (id : Text) (now : ℕ) (body : Body) (r : Result Row × Db)
      → Outcome config.sha256 config.pg id (to_dto now body) w.db r
      → Moved (creating id now body) w (committed config r w)
  unfolding committed
  committed-Moved id now body (err e, db) (inl (e', thrown, same)) = record {
    idle = refl;
    rows = inl (ap (λ (x : Db). x.log_entries) same);
  }
  committed-Moved id now body (ok row, db) (inl (e, thrown, same)) = cc
  committed-Moved id now body (err e, db) (inr (row, returned, made)) = cc
  committed-Moved id now body (ok row, db) (inr (row', returned, made)) = record {
    idle = refl;
    rows = inr (id, now, body, row', refl, made.created_at, made.appended);
  }

  looked-idle : (id : Text) (o : Option LogEntry) → writers (listed (looked config id o)) ≡ 0
  unfolding looked
  looked-idle id none = refl
  looked-idle id (some e) = refl

  read-idle : (id : Text) (o : Option Row) → writers (listed (read config id o)) ≡ 0
  unfolding read
  read-idle id none = refl
  read-idle id (some row) = refl

  reading-idle :
      (id : Text) (b : Bool)
      → writers (listed (if b then read config id (find_by_id id w.db) else none)) ≡ 0
  reading-idle id true = read-idle id _
  reading-idle id false = refl

  pub advance-Moved : (fails : Query → Bool) (t : Task) → Moved t w (advance config fails t w)
  unfolding advance
  advance-Moved fails (creating id now body) =
      committed-Moved id now body _
        (create_with_transaction-Outcome config.sha256 config.pg fails id (to_dto now body) w.db)
  advance-Moved fails (caching row) = record { idle = refl; rows = inl refl }
  advance-Moved fails (queueing row) = record { idle = refl; rows = inl refl }
  advance-Moved fails (looking id) = record { idle = looked-idle id _; rows = inl refl }
  advance-Moved fails (reading id) = record { idle = reading-idle id w.db_answers; rows = inl refl }
  advance-Moved fails (filling id row) = record { idle = refl; rows = inl refl }

pub writers-append : (ts us : List Task) → writers (ts ++ us) ≡ writers ts + writers us
writers-append [] us = omega arith
writers-append (t ∷ ts) us = omega (arith, writers-append ts us)

-- A task that commits nothing is later than anything.
IsLater-of_idle : (rows : List Row) (t : Task) → weight t ≡ 0 → IsLater rows t
IsLater-of_idle rows (creating id now body) h = absurd (omega (arith, h))
IsLater-of_idle rows (caching row) h = tt
IsLater-of_idle rows (queueing row) h = tt
IsLater-of_idle rows (looking id) h = tt
IsLater-of_idle rows (reading id) h = tt
IsLater-of_idle rows (filling id row) h = tt

pub All-IsLater : (rows : List Row) (ts : List Task) → writers ts ≡ 0 → All (IsLater rows) ts
All-IsLater rows [] h = tt
All-IsLater rows (t ∷ ts) h =
    (IsLater-of_idle rows t (omega (arith, h)), All-IsLater rows ts (omega (arith, h)))

pub Increasing-append :
    (rows : List Row) (row : Row)
    → Increasing rows
    → AreBefore row.created_at rows
    → Increasing (rows ++ row ∷ [])
Increasing-append rows row h k =
    (Pairwise-append {R = λ a b. a.created_at < b.created_at} (λ a b. le_prop)).1 (
      h,
      Pairwise-cons.1 ((λ a m. absurd (not-mem-nil m)), Pairwise.nil),
      (λ a m b n.
          Or.elim le_prop (mem-cons.0 n)
            (λ same.
              subst (λ (r : Row). a.created_at < r.created_at) (sym same)
                (All-Mem (λ r. r.created_at < row.created_at) (λ r. le_prop) a rows k m))
            (λ later. absurd (not-mem-nil later))),
    )
