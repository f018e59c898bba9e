-- ===== src/Database.antt =====
-- The tables that src/repositories/log.repository.js reads and writes, the constraints that
-- prisma/schema.prisma puts on them, and transactions.
pub mod Sorted
use mathlib.Core.List.{Perm, Pairwise}
use potens_intern_backend_sh.Common.{
  ℕ, ◌+◌, ◌≤◌, Bool, true, false, ◌&&◌, ◌||◌, Option, List, [], ◌∷◌, Text, text_eq, ltb,
  if◌then◌else◌,
}
use potens_intern_backend_sh.Json.{Json, is_high, is_low}
use potens_intern_backend_sh.Hash.{LogEntry, date}
use potens_intern_backend_sh.Errors.{Result, ok, err, Thrown, database}

-- model LogEntry of the schema. `created_at` counts milliseconds.
pub record Row : Type 0 where
  pub id : Text
  pub actor : Text
  pub action : Text
  pub payload : Json
  pub previous_hash : Option Text
  pub current_hash : Text
  pub created_at : ℕ

-- A row as Prisma returns it.
abbrev pub to_entry : Row → LogEntry
to_entry r = record {
  id = r.id;
  actor = r.actor;
  action = r.action;
  payload = r.payload;
  previous_hash = r.previous_hash;
  current_hash = r.current_hash;
  created_at = date r.created_at;
}

-- The row of chain_head whose id is 1.
pub record ChainHead : Type 0 where
  pub latest_hash : Text
  pub latest_log_id : Option Text

-- The rows of log_entries in the order in which they were inserted.
pub record Db : Type 0 where
  pub log_entries : List Row
  pub chain_head : Option ChainHead

pub data Direction : Type 0 where
  asc desc : Direction

abbrev pub InOrder : Direction → Row → Row → Type 0
InOrder asc a b = a.created_at ≤ b.created_at
InOrder desc a b = b.created_at ≤ a.created_at

-- What PostgreSQL does that is not in the code. `stored` is what a value of a jsonb column is read
-- back as; `order_by_created_at` is ORDER BY "createdAt", which leaves the order of equal times
-- open; `order_of_page offset limit` is the ascending order that a query with that OFFSET and that
-- LIMIT takes its rows from, which need not be that of another query where times are equal;
-- `refuses` is any failure to insert a row that the schema does not explain.
pub record Postgres : Type 0 where
  pub stored : Json → Json
  pub order_by_created_at : Direction → List Row → List Row
  pub order_of_page : ℕ → ℕ → List Row → List Row
  pub refuses : Row → Bool

-- The documented behaviour of ORDER BY.
pub record IsSorting (pg : Postgres) : Type 0 where
  pub perm : (d : Direction) (rows : List Row) → Perm (pg.order_by_created_at d rows) rows
  pub sorted :
      (d : Direction) (rows : List Row) → Pairwise (InOrder d) (pg.order_by_created_at d rows)
  pub page_perm :
      (offset limit : ℕ) (rows : List Row) → Perm (pg.order_of_page offset limit rows) rows
  pub page_sorted :
      (offset limit : ℕ) (rows : List Row)
      → Pairwise (InOrder asc) (pg.order_of_page offset limit rows)

-- The queries of one transaction, each of which the service may fail.
pub data Query : Type 0 where
  select_for_update insert update commit : Query

-- VARCHAR(n) counts characters: a surrogate pair is one.
unfoldable pub characters : Text → ℕ
characters [] = 0
characters (c ∷ []) = 1
characters (c ∷ d ∷ rest) =
    let pair = characters rest in
    let single = characters (d ∷ rest) in if is_high c && is_low d then pair + 1 else single + 1

-- Some row has the id or the hash of the new one.
unfoldable pub is_taken : List Row → Row → Bool
is_taken [] r = false
is_taken (x ∷ xs) r = text_eq x.id r.id || text_eq x.current_hash r.current_hash || is_taken xs r

-- @id, @unique and the lengths of the columns.
unfoldable pub violates : List Row → Row → Bool
unfolding is_taken characters
violates rows r =
    is_taken rows r
    || ltb 255 (characters r.actor)
    || ltb 500 (characters r.action)
    || ltb 128 (characters r.current_hash)

-- A query in a transaction.
abbrev pub Tx : Type 0 → Type 0
Tx A = Db → Result A × Db

abbrev pub continue {ℓ} :
    {A B : Type 0} {S : Type ℓ} → Result A → (A → S → Result B × S) → S → Result B × S
continue (ok a) f s = f a s
continue (err e) f s = (err e, s)

infixl 5 ◌>>=◌ ◌>>◌
unfoldable pub ◌>>=◌ : {A B : Type 0} → Tx A → (A → Tx B) → Tx B
◌>>=◌ m f db = let (r, db') = m db in continue r f db'

abbrev pub ◌>>◌ : {A B : Type 0} → Tx A → Tx B → Tx B
m >> n = m >>= λ _. n

unfoldable pub pure : {A : Type 0} → A → Tx A
pure a db = (ok a, db)

unfoldable pub raise : {A : Type 0} → Thrown → Tx A
raise e db = (err e, db)

-- `prisma.$transaction(f)`: what the queries wrote stays only if none of them fails, nor the commit.
abbrev pub settle : {A : Type 0} → Bool → Db → Result A × Db → Result A × Db
settle true before (r, after) = (err database, before)
settle false before (ok a, after) = (ok a, after)
settle false before (err e, after) = (err e, before)

unfoldable pub transaction : {A : Type 0} → (Query → Bool) → Tx A → Tx A
transaction fails body db = settle (fails commit) db (body db)
