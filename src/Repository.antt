-- ===== src/Repository.antt =====
-- src/repositories/log.repository.js. The logger's calls write nothing that is read back, and are
-- left out.
pub mod Creation
pub mod Ledger
pub mod Payloads
pub mod Filtering
pub mod Throws
pub mod Lookup
use mathlib.Core.List.{head?}
use potens_intern_backend_sh.Common.{
  ℕ, ◌-◌, ◌*◌, ◌≡◌, Bool, true, false, ◌&&◌, ◌||◌, not, Option, none, some, List, [], ◌∷◌, ◌++◌,
  Text, text_eq, length, take, drop, ltb, leb, or_else, if◌then◌else◌,
}
use potens_intern_backend_sh.Json.{Json, null}
use potens_intern_backend_sh.Hash.{
  LogEntry, date, genesis_previous_hash, create_genesis_hash, calculate_current_hash,
}
use potens_intern_backend_sh.Errors.{Result, ok, err, Thrown, reading_undefined, database}
use potens_intern_backend_sh.Database.{
  Row, ChainHead, Db, Direction, asc, desc, Postgres, Query, select_for_update, insert, update,
  violates, Tx, ◌>>=◌, ◌>>◌, pure, raise, transaction,
}

-- The argument of `createWithTransaction`; an absent payload is `none`.
pub record CreateDto : Type 0 where
  pub actor : Text
  pub action : Text
  pub payload : Option Json
  pub created_at : ℕ

-- The filters of an export.
pub record Filters : Type 0 where
  pub actor : Option Text
  pub from_time : Option ℕ
  pub to_time : Option ℕ

unfoldable pub select : (Row → Bool) → List Row → List Row
select keep [] = []
select keep (r ∷ rows) = let rest = select keep rows in if keep r then r ∷ rest else rest

unfoldable pub first : (Row → Bool) → List Row → Option Row
first keep [] = none
first keep (r ∷ rows) = let rest = first keep rows in if keep r then some r else rest

unfoldable pub find_by_id : Text → Db → Option Row
unfolding first
find_by_id id db = first (λ r. text_eq r.id id) db.log_entries

unfoldable pub count : Db → ℕ
count db = length db.log_entries

-- `if (filters.actor)`: an empty text is no filter.
unfoldable pub matches_actor : Option Text → Row → Bool
matches_actor none r = true
matches_actor (some []) r = true
matches_actor (some (c ∷ s)) r = text_eq r.actor (c ∷ s)

unfoldable pub at_least : Option ℕ → Row → Bool
at_least none r = true
at_least (some t) r = leb t r.created_at

unfoldable pub at_most : Option ℕ → Row → Bool
at_most none r = true
at_most (some t) r = leb r.created_at t

unfoldable pub matches : Filters → Row → Bool
unfolding matches_actor at_least at_most
matches f r = matches_actor f.actor r && at_least f.from_time r && at_most f.to_time r

-- Step 1: the row is locked and read. Without it `chainHeads[0]` is undefined.
unfoldable pub lock_chain_head : (Query → Bool) → Tx (Option ChainHead)
lock_chain_head fails db =
    if fails select_for_update then (err database, db) else (ok db.chain_head, db)

unfoldable pub latest_hash : Option ChainHead → Tx Text
unfolding pure raise
latest_hash none = raise reading_undefined
latest_hash (some h) = pure h.latest_hash

-- Step 4, for a client with the model ChainHead. prisma/schema.prisma has none, so that with a client
-- made from it `tx.chainHead` is undefined and this always throws: then `fails update` holds.
unfoldable pub update_chain_head : (Query → Bool) → Text → Text → Tx (Unit {0})
update_chain_head fails hash id db = if fails update then (err database, db) else (
  ok tt,
  record db { chain_head = some (record { latest_hash = hash; latest_log_id = some id }) },
)

module _ (pg : Postgres) where
  unfoldable pub find_latest : Db → Option Row
  find_latest db = head? (pg.order_by_created_at desc db.log_entries)

  unfoldable pub find_previous : ℕ → Db → Option Row
  unfolding select
  find_previous created_at db =
      head? (pg.order_by_created_at desc (select (λ r. ltb r.created_at created_at) db.log_entries))

  -- Pages are counted from 1. `skip` is exact: below 2 ^ 53 the product is, and no table is as long.
  unfoldable pub find_all : ℕ → ℕ → Db → List Row
  find_all page page_size db =
      let skip = (page - 1) * page_size in
      take page_size (drop skip (pg.order_of_page skip page_size db.log_entries))

  unfoldable pub find_all_ordered : Db → List Row
  find_all_ordered db = pg.order_by_created_at asc db.log_entries

  unfoldable pub find_filtered : Filters → Db → List Row
  unfolding select matches
  find_filtered filters db = pg.order_by_created_at asc (select (matches filters) db.log_entries)

  -- Step 3.
  unfoldable pub insert_log_entry : (Query → Bool) → Row → Tx Row
  insert_log_entry fails r db =
      if fails insert || violates db.log_entries r || pg.refuses r
      then (err database, db)
      else (ok r, record db { log_entries = db.log_entries ++ r ∷ [] })

module _ (sha256 : List ℕ → Text) where
  -- Step 2: `previousHash` and `currentHash`.
  unfoldable pub next_hashes : Text → CreateDto → Text × Text
  next_hashes latest dto =
      let payload = or_else dto.payload null in
      if text_eq latest genesis_previous_hash
      then (
        genesis_previous_hash,
        create_genesis_hash sha256 dto.actor dto.action payload (date dto.created_at),
      )
      else (
        latest,
        calculate_current_hash sha256 dto.actor dto.action payload latest (date dto.created_at),
      )

module _ (sha256 : List ℕ → Text) (pg : Postgres) where
  -- The row that is inserted; `id` is the UUID that Prisma makes.
  unfoldable pub new_row : Text → Text → CreateDto → Row
  new_row id latest dto =
      let (previous, current) = next_hashes sha256 latest dto in
      record {
        id = id;
        actor = dto.actor;
        action = dto.action;
        payload = pg.stored (or_else dto.payload null);
        previous_hash = some previous;
        current_hash = current;
        created_at = dto.created_at;
      }

  unfoldable pub create_in_lock : (Query → Bool) → Text → CreateDto → Tx Row
  create_in_lock fails id dto = do
    chain_head ← lock_chain_head fails
    latest ← latest_hash chain_head
    created ← insert_log_entry pg fails (new_row id latest dto)
    update_chain_head fails created.current_hash created.id
    pure created

  unfoldable pub create_with_transaction : (Query → Bool) → Text → CreateDto → Tx Row
  create_with_transaction fails id dto = transaction fails (create_in_lock fails id dto)
