-- ===== src/Repository/Creation.antt =====
-- What `createWithTransaction` of src/repositories/log.repository.js does, on every path.
use mathlib.Core.Path.{subst}
use potens_intern_backend_sh.Common.{
  ℕ, ◌≡◌, refl, ◌⊎◌, inl, inr, Bool, false, ◌||◌, Option, none, some, List, [], ◌∷◌, ◌++◌, Text,
  text_eq, text_eq_iff, or_else, arith, ap, Bool-cases, if◌then◌else◌, true,
}
use potens_intern_backend_sh.Json.{null}
use potens_intern_backend_sh.Hash.{
  LogEntry, date, genesis_previous_hash, entry_hash, create_genesis_hash, calculate_current_hash,
}
use potens_intern_backend_sh.Errors.{Result, ok, err, Thrown, reading_undefined, database}
use potens_intern_backend_sh.Database.{
  Row, ChainHead, Db, Postgres, Query, select_for_update, insert, update, commit, violates, ◌>>=◌,
  pure, raise, transaction,
}
use potens_intern_backend_sh.Repository.{
  CreateDto, lock_chain_head, latest_hash, insert_log_entry, update_chain_head, next_hashes,
  new_row, create_in_lock, create_with_transaction,
}

-- The entry that is hashed for a request: the payload is the one that was sent.
abbrev pub drafted : Text → CreateDto → LogEntry
drafted id dto = record {
  id = id;
  actor = dto.actor;
  action = dto.action;
  payload = or_else dto.payload null;
  previous_hash = none;
  current_hash = [];
  created_at = date dto.created_at;
}

next_hashes_lem :
    (sha256 : List ℕ → Text) (id latest : Text) (dto : CreateDto)
    → next_hashes sha256 latest dto ≡ (latest, entry_hash sha256 latest (drafted id dto))
unfolding next_hashes create_genesis_hash calculate_current_hash entry_hash
next_hashes_lem sha256 id latest dto = elim (Bool-cases (text_eq latest genesis_previous_hash)) [
  | inl genesis ↦ rw (genesis, (text_eq_iff _ _).0 genesis)
  | inr later ↦ rw later
]

module _ (sha256 : List ℕ → Text) (pg : Postgres) where
  -- What has happened when a row comes back.
  pub record IsCreated (id : Text) (dto : CreateDto) (db after : Db) (row : Row) : Type 0 where
    pub head : ChainHead
    pub locked : db.chain_head ≡ some head
    pub new_id : row.id ≡ id
    pub actor : row.actor ≡ dto.actor
    pub action : row.action ≡ dto.action
    pub payload : row.payload ≡ pg.stored (or_else dto.payload null)
    pub created_at : row.created_at ≡ dto.created_at
    pub previous : row.previous_hash ≡ some head.latest_hash
    pub current : row.current_hash ≡ entry_hash sha256 head.latest_hash (drafted id dto)
    pub allowed : violates db.log_entries row ≡ false
    pub appended : after.log_entries ≡ db.log_entries ++ row ∷ []
    pub moved :
        after.chain_head
        ≡ some (record { latest_hash = row.current_hash; latest_log_id = some row.id })

  IsCreated-new_row :
      (id : Text) (dto : CreateDto) (rows : List Row) (head : ChainHead)
      → violates rows (new_row sha256 pg id head.latest_hash dto) ≡ false
      → (let row = new_row sha256 pg id head.latest_hash dto in
          IsCreated id dto
            (record { log_entries = rows; chain_head = some head })
            (record {
              log_entries = rows ++ row ∷ [];
              chain_head =
                  some (record { latest_hash = row.current_hash; latest_log_id = some row.id });
            })
            row)
  unfolding new_row
  IsCreated-new_row id dto rows head allowed = record {
    head = head;
    locked = refl;
    new_id = refl;
    actor = refl;
    action = refl;
    payload = refl;
    created_at = refl;
    previous = ap (λ (h : Text × Text). some h.0) (next_hashes_lem sha256 id head.latest_hash dto);
    current = ap (λ (h : Text × Text). h.1) (next_hashes_lem sha256 id head.latest_hash dto);
    allowed = allowed;
    appended = refl;
    moved = refl;
  }

  -- The transaction, branch by branch, once the lock has been taken.
  create_in_lock_lem :
      (fails : Query → Bool) (id : Text) (dto : CreateDto) (rows : List Row) (head : ChainHead)
      → create_in_lock sha256 pg fails id dto
          (record { log_entries = rows; chain_head = some head })
        ≡ (let row = new_row sha256 pg id head.latest_hash dto in
            if fails select_for_update
            then (err database, record { log_entries = rows; chain_head = some head })
            else if fails insert || violates rows row || pg.refuses row
            then (err database, record { log_entries = rows; chain_head = some head })
            else if fails update
            then (err database, record { log_entries = rows ++ row ∷ []; chain_head = some head })
            else (
              ok row,
              record {
                log_entries = rows ++ row ∷ [];
                chain_head =
                    some (record { latest_hash = row.current_hash; latest_log_id = some row.id });
              },
            ))
  unfolding create_in_lock lock_chain_head latest_hash insert_log_entry update_chain_head ◌>>=◌ pure
  create_in_lock_lem fails id dto rows head = ground arith

  -- A throw leaves the tables as they were; else there is a new row.
  abbrev pub Outcome : Text → CreateDto → Db → Result Row × Db → Type 0
  Outcome id dto db (r, after) =
      ((e : Thrown) × (r ≡ err e) × (after ≡ db))
      ⊎ ((row : Row) × (r ≡ ok row) × IsCreated id dto db after row)

  create_in_lock_of_none :
      (fails : Query → Bool) (id : Text) (dto : CreateDto) (rows : List Row)
      → create_in_lock sha256 pg fails id dto (record { log_entries = rows; chain_head = none }) ≡ (
        err (if fails select_for_update then database else reading_undefined),
        record { log_entries = rows; chain_head = none },
      )
  unfolding create_in_lock lock_chain_head latest_hash ◌>>=◌ raise
  create_in_lock_of_none fails id dto rows = ground arith

  -- Without the row of chain_head every call throws, whatever the services do, and the tables stay as
  -- they are.
  pub create_of_none :
      (fails : Query → Bool) (id : Text) (dto : CreateDto) (rows : List Row)
      → (e : Thrown) × (create_with_transaction sha256 pg fails id dto
            (record { log_entries = rows; chain_head = none })
          ≡ (err e, record { log_entries = rows; chain_head = none }))
  unfolding create_with_transaction transaction
  create_of_none fails id dto rows = elim (Bool-cases (fails commit)) [
    | inl lost ↦ (database, rw lost)
    | inr kept ↦ (
      if fails select_for_update then database else reading_undefined,
      rw (kept, create_in_lock_of_none fails id dto rows),
    )
  ]

  -- The transaction, once the lock has been taken and the commit goes through.
  settled :
      (fails : Query → Bool) (id : Text) (dto : CreateDto) (rows : List Row) (head : ChainHead)
      → fails commit ≡ false
      → Outcome id dto
          (record { log_entries = rows; chain_head = some head })
          (create_with_transaction sha256 pg fails id dto
            (record { log_entries = rows; chain_head = some head }))
  unfolding create_with_transaction transaction
  settled fails id dto rows head kept =
      let row = new_row sha256 pg id head.latest_hash dto in
      rw (kept, create_in_lock_lem fails id dto rows head)
        (elim (Bool-cases (fails select_for_update)) [
          | inl no_lock ↦ rw no_lock (inl (database, refl, refl))
          | inr locked ↦
              rw locked (elim (Bool-cases (fails insert || violates rows row || pg.refuses row)) [
                | inl refused ↦ rw refused (inl (database, refl, refl))
                | inr taken ↦ rw taken (elim (Bool-cases (fails update)) [
                  | inl stale ↦ rw stale (inl (database, refl, refl))
                  | inr moved ↦
                      rw moved (inr (row, refl, IsCreated-new_row id dto rows head (ground arith)))
                ])
              ])
        ])

  create-Outcome :
      (fails : Query → Bool) (id : Text) (dto : CreateDto) (rows : List Row) (o : Option ChainHead)
      → Outcome id dto
          (record { log_entries = rows; chain_head = o })
          (create_with_transaction sha256 pg fails id dto
            (record { log_entries = rows; chain_head = o }))
  create-Outcome fails id dto rows none =
      let (e, thrown) = create_of_none fails id dto rows in rw thrown (inl (e, refl, refl))
  create-Outcome fails id dto rows (some head) = elim (Bool-cases (fails commit)) [
    | inl lost ↦ unfold create_with_transaction transaction in rw lost (inl (database, refl, refl))
    | inr kept ↦ settled fails id dto rows head kept
  ]

  -- Either the call throws and the tables are as they were, or it returns the one row that it has
  -- appended: its id, fields, time and stored payload are those of the request, it refers to the
  -- hash of the locked chain head and holds the hash of the request after it, no constraint forbids
  -- it, and the chain head has moved to it.
  pub create_with_transaction-Outcome :
      (fails : Query → Bool) (id : Text) (dto : CreateDto) (db : Db)
      → Outcome id dto db (create_with_transaction sha256 pg fails id dto db)
  create_with_transaction-Outcome fails id dto db =
      create-Outcome fails id dto db.log_entries db.chain_head

  create_of_failed_update_on :
      (fails : Query → Bool) (id : Text) (dto : CreateDto) (rows : List Row) (o : Option ChainHead)
      → fails update ≡ true
      → (e : Thrown) × (create_with_transaction sha256 pg fails id dto
            (record { log_entries = rows; chain_head = o })
          ≡ (err e, record { log_entries = rows; chain_head = o }))
  unfolding create_with_transaction transaction
  create_of_failed_update_on fails id dto rows none failed = create_of_none fails id dto rows
  create_of_failed_update_on fails id dto rows (some head) failed =
      elim (Bool-cases (fails commit)) [
        | inl lost ↦ (database, rw lost)
        | inr kept ↦
            let row = new_row sha256 pg id head.latest_hash dto in
            (
              database,
              rw (kept, create_in_lock_lem fails id dto rows head, failed)
                  (elim (Bool-cases (fails select_for_update)) [
                    | inl no_lock ↦ rw no_lock refl
                    | inr locked ↦
                        rw locked
                          (elim (Bool-cases (fails insert || violates rows row || pg.refuses row)) [
                            | inl refused ↦ rw refused refl
                            | inr taken ↦ rw taken refl
                          ])
                  ]),
            )
      ]

  -- If the update of the chain head always fails, as it does with a Prisma client that has no model
  -- ChainHead, every call throws and the tables stay as they are, whatever else happens.
  pub create_of_failed_update :
      (fails : Query → Bool) (id : Text) (dto : CreateDto) (db : Db)
      → fails update ≡ true
      → (e : Thrown) × (create_with_transaction sha256 pg fails id dto db ≡ (err e, db))
  create_of_failed_update fails id dto db failed =
      create_of_failed_update_on fails id dto db.log_entries db.chain_head failed

  -- With a chain head, a row that no constraint and no service refuses is created.
  pub create_with_transaction_succeeds :
      (fails : Query → Bool) (id : Text) (dto : CreateDto) (rows : List Row) (head : ChainHead)
      → ((q : Query) → fails q ≡ false)
      → violates rows (new_row sha256 pg id head.latest_hash dto) ≡ false
      → pg.refuses (new_row sha256 pg id head.latest_hash dto) ≡ false
      → (create_with_transaction sha256 pg fails id dto
          (record { log_entries = rows; chain_head = some head })).0
        ≡ ok (new_row sha256 pg id head.latest_hash dto)
  unfolding create_with_transaction transaction
  create_with_transaction_succeeds fails id dto rows head up free accepted =
      rw (up commit, create_in_lock_lem fails id dto rows head)
        (ground (arith, up select_for_update, up insert, up update))

  IsCreated-of_Outcome :
      (id : Text) (dto : CreateDto) (db after : Db) (row : Row)
      → Outcome id dto db (ok row, after)
      → IsCreated id dto db after row
  IsCreated-of_Outcome id dto db after row (inl (e, thrown, same)) = cc
  IsCreated-of_Outcome id dto db after row (inr (made_row, returned, made)) =
      let same : made_row ≡ row = cc in subst (λ (r : Row). IsCreated id dto db after r) same made

  pub IsCreated-of_eq :
      (fails : Query → Bool) (id : Text) (dto : CreateDto) (db after : Db) (row : Row)
      → create_with_transaction sha256 pg fails id dto db ≡ (ok row, after)
      → IsCreated id dto db after row
  IsCreated-of_eq fails id dto db after row e = IsCreated-of_Outcome id dto db after row (
      subst (λ (r : Result Row × Db). Outcome id dto db r) e
        (create_with_transaction-Outcome fails id dto db))
