-- ===== src/Repository/Throws.antt =====
-- What `createWithTransaction` of src/repositories/log.repository.js can throw.
use potens_intern_backend_sh.Common.{
  ℕ, inl, inr, Option, none, some, List, Text, Bool-cases, Bool, true, false, ◌||◌,
}
use potens_intern_backend_sh.Errors.{Result, ok, err, Thrown, app_error}
use potens_intern_backend_sh.Database.{
  Row, ChainHead, Db, Postgres, Query, select_for_update, insert, update, commit, violates, Tx,
  continue, ◌>>=◌, pure, raise, transaction, settle,
}
use potens_intern_backend_sh.Repository.{
  CreateDto, lock_chain_head, latest_hash, insert_log_entry, update_chain_head, new_row,
  create_in_lock, create_with_transaction,
}

-- The error is none that chooses its response.
abbrev pub IsInternal : Thrown → Type 0
IsInternal (app_error e) = ⊥
IsInternal _ = Unit

abbrev pub ThrowsInternal : {A : Type 0} → Result A → Type 0
ThrowsInternal (ok a) = Unit
ThrowsInternal (err e) = IsInternal e

-- Every run of the queries throws internal errors only.
record IsOpaque {A : Type 0} (m : Tx A) : Type 0 where
  runs : (db : Db) → ThrowsInternal (m db).0

bind-IsOpaque :
    {A B : Type 0} (m : Tx A) (f : A → Tx B)
    → IsOpaque m
    → ((a : A) → IsOpaque (f a))
    → IsOpaque (m >>= f)
unfolding ◌>>=◌
bind-IsOpaque {A} {B} m f h k = record { runs = λ db. on (m db).0 (m db).1 (h.runs db) }
  where
    on : (r : Result A) (db : Db) → ThrowsInternal r → ThrowsInternal (continue r f db).0
    on (ok a) db thrown = (k a).runs db
    on (err e) db thrown = thrown

pure-IsOpaque : {A : Type 0} (a : A) → IsOpaque (pure a)
unfolding pure
pure-IsOpaque a = record { runs = λ db. tt }

lock_chain_head-IsOpaque : (fails : Query → Bool) → IsOpaque (lock_chain_head fails)
unfolding lock_chain_head
lock_chain_head-IsOpaque fails = record {
  runs = λ db. elim (Bool-cases (fails select_for_update)) [
    | inl lost ↦ rw lost tt
    | inr locked ↦ rw locked tt
  ];
}

latest_hash-IsOpaque : (o : Option ChainHead) → IsOpaque (latest_hash o)
unfolding latest_hash raise pure
latest_hash-IsOpaque none = record { runs = λ db. tt }
latest_hash-IsOpaque (some h) = record { runs = λ db. tt }

insert_log_entry-IsOpaque :
    (pg : Postgres) (fails : Query → Bool) (r : Row) → IsOpaque (insert_log_entry pg fails r)
unfolding insert_log_entry
insert_log_entry-IsOpaque pg fails r = record {
  runs = λ db. elim (Bool-cases (fails insert || violates db.log_entries r || pg.refuses r)) [
    | inl refused ↦ rw refused tt
    | inr accepted ↦ rw accepted tt
  ];
}

update_chain_head-IsOpaque :
    (fails : Query → Bool) (hash id : Text) → IsOpaque (update_chain_head fails hash id)
unfolding update_chain_head
update_chain_head-IsOpaque fails hash id = record {
  runs = λ db. elim (Bool-cases (fails update)) [ inl lost ↦ rw lost tt | inr made ↦ rw made tt ];
}

module _ (sha256 : List ℕ → Text) (pg : Postgres) (fails : Query → Bool) (id : Text)
    (dto : CreateDto) where
  create_in_lock-IsOpaque : IsOpaque (create_in_lock sha256 pg fails id dto)
  unfolding create_in_lock
  create_in_lock-IsOpaque = bind-IsOpaque _ _ (lock_chain_head-IsOpaque fails) λ head.
      bind-IsOpaque _ _ (latest_hash-IsOpaque head) λ latest.
        bind-IsOpaque _ _ (insert_log_entry-IsOpaque pg fails (new_row sha256 pg id latest dto))
          λ created.
            bind-IsOpaque _ _ (update_chain_head-IsOpaque fails created.current_hash created.id)
              λ u. pure-IsOpaque created

  settled-ThrowsInternal :
      (lost : Bool) (before : Db) (r : Result Row × Db)
      → ThrowsInternal r.0
      → ThrowsInternal (settle lost before r).0
  settled-ThrowsInternal true before r h = tt
  settled-ThrowsInternal false before (ok row, after) h = tt
  settled-ThrowsInternal false before (err e, after) h = h

  -- It throws no error that chooses its response.
  pub create_with_transaction-ThrowsInternal :
      (db : Db) → ThrowsInternal (create_with_transaction sha256 pg fails id dto db).0
  unfolding create_with_transaction transaction
  create_with_transaction-ThrowsInternal db =
      settled-ThrowsInternal (fails commit) db (create_in_lock sha256 pg fails id dto db)
        (create_in_lock-IsOpaque.runs db)
