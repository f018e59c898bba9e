-- ===== src/Samples.antt =====
-- Concrete stand-ins for what src/ calls, and a log for the examples of the modules Tests.
pub mod Sorting
use mathlib.Core.List.Perm
use potens_intern_backend_sh.Common.{
  ℕ, zero, suc, ◌+◌, ◌*◌, ◌%◌, ◌/◌, ◌≡◌, ◌≢◌, refl, Bool, true, false, ◌&&◌, ◌||◌, Option, none,
  some, List, [], ◌∷◌, ◌++◌, Text, codes, text_eq, text_eq_iff, Bool-cases, ◌⊎◌, inl, inr, join,
  length, ltb, ◌==◌, if◌then◌else◌, All, All-append, All-map, replicate, Lacks, arith,
}
use potens_intern_backend_sh.Json.{
  Json, Fields, end, field, null, d5, num, obj, str, quote, stringify, hex_digit,
}
use potens_intern_backend_sh.Hash.Input.{bar}
use potens_intern_backend_sh.Hash.Digest.{IsDigest, IsHexDigit}
use potens_intern_backend_sh.Database.{
  Row, ChainHead, Db, asc, Postgres, IsSorting, Query, transaction, ◌>>=◌, violates, characters,
  is_taken, pure,
}
use potens_intern_backend_sh.Errors.{ok}
use potens_intern_backend_sh.Date.{to_iso}
use potens_intern_backend_sh.Utf8.{utf8}
use potens_intern_backend_sh.Hash.{
  create_genesis_hash, generate_hash, calculate_current_hash, first_moment, hash_input, moment_text,
  payload_text,
}
use potens_intern_backend_sh.Repository.{
  CreateDto, create_with_transaction, create_in_lock, lock_chain_head, latest_hash,
  insert_log_entry, new_row, next_hashes, update_chain_head,
}
use potens_intern_backend_sh.Redis.{Redis, IsStore}
use potens_intern_backend_sh.LogService.{Job}
use potens_intern_backend_sh.LogService.Jobs.{has_job}
use potens_intern_backend_sh.Samples.Sorting.{sort, sort-perm, sort-sorted}

abbrev checksum : ℕ → List ℕ → ℕ
checksum n [] = n
checksum n (b ∷ bytes) = checksum ((n * 31 + b) % 9973) bytes

abbrev decimals : ℕ → ℕ → Text
decimals zero n = []
decimals (suc w) n = (48 + n % 10) ∷ decimals w (n / 10)

abbrev sealed : ℕ → Text
sealed n = decimals 4 n ++ replicate 60 48

-- Four digits that depend on all bytes, and 60 zeros.
abbrev pub sample_digest : List ℕ → Text
sample_digest bytes = sealed (checksum 7 bytes)

replicate-hex : (n : ℕ) → All IsHexDigit (replicate n 48)
replicate-hex zero = tt
replicate-hex (suc n) = (ground arith, replicate-hex n)

decimals-hex : (w n : ℕ) → All IsHexDigit (decimals w n)
decimals-hex zero n = tt
decimals-hex (suc w) n = (inl (omega arith, omega arith), decimals-hex w (n / 10))

pub sample_digest-IsDigest : IsDigest sample_digest
sample_digest-IsDigest = record {
  long = λ bytes. refl;
  hex = λ bytes.
      All-append IsHexDigit (decimals 4 (checksum 7 bytes)) (replicate 60 48)
        (decimals-hex 4 (checksum 7 bytes)) (replicate-hex 60);
}

-- A database that keeps a payload as it is.
abbrev pub plain_pg : Postgres
plain_pg = record {
  stored = λ j. j;
  order_by_created_at = sort;
  order_of_page = λ offset limit. sort asc;
  refuses = λ r. false;
}

pub plain_pg-IsSorting : IsSorting plain_pg
plain_pg-IsSorting = record {
  perm = sort-perm;
  sorted = sort-sorted;
  page_perm = λ offset limit. sort-perm asc;
  page_sorted = λ offset limit. sort-sorted asc;
}

-- jsonb keeps a shorter key before a longer one.
abbrev place : Text → Json → Fields → Fields
place k v end = field k v end
place k v (field l u fs) =
    if ltb (length l) (length k) then field l u (place k v fs) else field k v (field l u fs)

abbrev by_key : Fields → Fields
by_key end = end
by_key (field k v fs) = place k v (by_key fs)

abbrev pub as_jsonb : Json → Json
as_jsonb (obj fs) = obj (by_key fs)
as_jsonb j = j

abbrev pub jsonb_pg : Postgres
jsonb_pg = record {
  stored = as_jsonb;
  order_by_created_at = sort;
  order_of_page = λ offset limit. sort asc;
  refuses = λ r. false;
}

pub jsonb_pg-IsSorting : IsSorting jsonb_pg
jsonb_pg-IsSorting = record {
  perm = sort-perm;
  sorted = sort-sorted;
  page_perm = λ offset limit. sort-perm asc;
  page_sorted = λ offset limit. sort-sorted asc;
}

-- A queue that adds no job twice.
abbrev pub add_once : Job → List Job → List Job
add_once j jobs = if has_job j.job_id jobs then jobs else jobs ++ j ∷ []

set_only :
    (key k : Text) (ttl : ℕ) (v x : Text) (old : Option Text)
    → (if text_eq key k then (if ltb 0 ttl then some v else none) else old) ≡ some x
    → ((key ≡ k) × (v ≡ x)) ⊎ (old ≡ some x)
set_only key k ttl v x old held = elim (Bool-cases (text_eq key k)) [
  | inl same ↦ inl ((text_eq_iff key k).0 same, ground (arith))
  | inr other ↦ inr (ground arith)
]

-- A server that holds what it was told.
abbrev pub redis_of : Bool → Redis
redis_of up = record {
  up = up;
  answers = λ key. none;
  setex = λ key ttl v a k. if text_eq key k then (if ltb 0 ttl then some v else none) else a k;
  delete = λ key a k. if text_eq key k then none else a k;
}

pub redis_of-IsStore : (up : Bool) → IsStore (redis_of up)
redis_of-IsStore up = record {
  gives = λ key ttl v a live. ground (arith, text_eq_iff key key);
  only = λ key ttl v a k x held. set_only key k ttl v x (a k) held;
  keeps = λ key ttl v a k other. ground (arith, text_eq_iff key k);
  deletes = λ key a. ground (arith, text_eq_iff key key);
  spares = λ key a k other. ground (arith, text_eq_iff key k);
}

abbrev pub all_up : Query → Bool
all_up q = false

abbrev pub two_keys : Json
two_keys = obj (field (codes "amount") (num d5 []) (field (codes "to") (str (codes "bob")) end))

abbrev pub empty_db : Db
empty_db = record {
  log_entries = [];
  chain_head = some (record { latest_hash = codes "GENESIS"; latest_log_id = none });
}

abbrev pub first_dto : CreateDto
first_dto = record {
  actor = codes "alice";
  action = codes "login";
  payload = none;
  created_at = 1_705_314_600_000;
}

abbrev pub second_dto : CreateDto
second_dto = record {
  actor = codes "bob";
  action = codes "pay";
  payload = some two_keys;
  created_at = 1_705_314_600_005;
}

-- A request whose time is before that of the first one.
abbrev pub late_dto : CreateDto
late_dto = record second_dto { created_at = 1_705_314_599_990 }

abbrev pub first_row : Row
first_row = record {
  id = codes "a1";
  actor = codes "alice";
  action = codes "login";
  payload = null;
  previous_hash = some (codes "GENESIS");
  current_hash = sealed 6883;
  created_at = 1_705_314_600_000;
}

abbrev pub second_row : Row
second_row = record {
  id = codes "b2";
  actor = codes "bob";
  action = codes "pay";
  payload = two_keys;
  previous_hash = some (sealed 6883);
  current_hash = sealed 9156;
  created_at = 1_705_314_600_005;
}

abbrev pub db_of : List Row → Row → Db
db_of rows r = record {
  log_entries = rows ++ r ∷ [];
  chain_head = some (record { latest_hash = r.current_hash; latest_log_id = some r.id });
}

-- The late request's row, and the second one's as jsonb gives it back.
abbrev pub late_row : Row
late_row = record second_row { current_hash = sealed 300; created_at = late_dto.created_at }

abbrev pub jsonb_row : Row
jsonb_row = record second_row { payload = as_jsonb two_keys }

-- The log after one request, and after two.
abbrev pub one_db : Db
one_db = db_of [] first_row

abbrev pub two_db : Db
two_db = db_of (first_row ∷ []) second_row

pub first_created :
    create_with_transaction sample_digest plain_pg all_up (codes "a1") first_dto empty_db
    ≡ (ok first_row, one_db)
unfolding create_with_transaction transaction create_in_lock ◌>>=◌ lock_chain_head latest_hash
    insert_log_entry violates new_row next_hashes text_eq create_genesis_hash generate_hash
    update_chain_head calculate_current_hash utf8 join characters is_taken pure to_iso first_moment
    hash_input moment_text payload_text quote stringify hex_digit
first_created = refl

pub second_created :
    create_with_transaction sample_digest plain_pg all_up (codes "b2") second_dto one_db
    ≡ (ok second_row, two_db)
unfolding create_with_transaction transaction create_in_lock ◌>>=◌ lock_chain_head latest_hash
    insert_log_entry violates new_row next_hashes text_eq create_genesis_hash generate_hash
    update_chain_head calculate_current_hash utf8 join characters is_taken pure to_iso first_moment
    hash_input moment_text payload_text quote stringify hex_digit
second_created = refl

pub late_created :
    create_with_transaction sample_digest plain_pg all_up (codes "b2") late_dto one_db
    ≡ (ok late_row, db_of (first_row ∷ []) late_row)
unfolding create_with_transaction transaction create_in_lock ◌>>=◌ lock_chain_head latest_hash
    insert_log_entry violates new_row next_hashes text_eq create_genesis_hash generate_hash
    update_chain_head calculate_current_hash utf8 join characters is_taken pure to_iso first_moment
    hash_input moment_text payload_text quote stringify hex_digit
late_created = refl

pub jsonb_created :
    create_with_transaction sample_digest jsonb_pg all_up (codes "b2") second_dto one_db
    ≡ (ok jsonb_row, db_of (first_row ∷ []) jsonb_row)
unfolding create_with_transaction transaction create_in_lock ◌>>=◌ lock_chain_head latest_hash
    insert_log_entry violates new_row next_hashes text_eq create_genesis_hash generate_hash
    update_chain_head calculate_current_hash utf8 join characters is_taken pure to_iso first_moment
    hash_input moment_text payload_text quote stringify hex_digit
jsonb_created = refl
