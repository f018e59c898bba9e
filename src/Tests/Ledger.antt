-- ===== src/Tests/Ledger.antt =====
-- The theorems on src/repositories/log.repository.js and src/services/verification.service.js at the
-- requests of Samples.
use mathlib.Core.List.{Mem, mem-cons_self, head?, Pairwise, Nodup-nil}
use mathlib.Core.Path.{subst}
use potens_intern_backend_sh.Common.{
  ◌≡◌, ◌↔◌, refl, ◌⊎◌, Bool, none, some, [], ◌∷◌, Text, codes, map, true, false, arith, text_eq,
  join, ap, drop, or_else,
}
use potens_intern_backend_sh.Date.{to_iso}
use potens_intern_backend_sh.Json.{quote, stringify, hex_digit}
use potens_intern_backend_sh.Json.WellFormed.{HasUtf16}
use potens_intern_backend_sh.Utf8.{utf8}
use potens_intern_backend_sh.Hash.{
  generate_hash, hash_input, first_moment, moment_text, payload_text, create_genesis_hash,
  calculate_current_hash,
}
use potens_intern_backend_sh.Errors.{Result, err, Thrown}
use potens_intern_backend_sh.Database.{
  Row, InOrder, asc, Db, to_entry, violates, characters, is_taken, Query, select_for_update, insert,
  update, commit,
}
use potens_intern_backend_sh.Repository.{
  create_with_transaction, new_row, next_hashes, find_all_ordered, Filters, find_filtered,
}
use potens_intern_backend_sh.Repository.Creation.{
  Outcome, create_with_transaction-Outcome, create_of_none, create_of_failed_update,
}
use potens_intern_backend_sh.Repository.Filtering.{IsMatch, find_filtered_lem}
use potens_intern_backend_sh.Repository.Ledger.{
  entries, Survives, IsConsistent, create_with_transaction-IsConsistent,
}
use potens_intern_backend_sh.Repository.Payloads.{Clash}
use potens_intern_backend_sh.Verification.{verify_integrity}
use potens_intern_backend_sh.Verification.Order.{verify_integrity_iff}
use potens_intern_backend_sh.Verification.Races.{overtaken_fails}
use potens_intern_backend_sh.Verification.Payloads.{changed_payload_fails}
use potens_intern_backend_sh.Samples.{
  sample_digest, sample_digest-IsDigest, plain_pg, plain_pg-IsSorting, jsonb_pg, jsonb_pg-IsSorting,
  all_up, empty_db, one_db, two_db, two_keys, as_jsonb, first_dto, second_dto, late_dto, first_row,
  first_created, second_created, late_created, jsonb_created, late_row, jsonb_row, db_of,
}

empty_db-IsConsistent : IsConsistent sample_digest empty_db
empty_db-IsConsistent = record {
  head = record { latest_hash = codes "GENESIS"; latest_log_id = none };
  locked = refl;
  chain = tt;
  tip = refl;
  distinct = Nodup-nil;
}

create_with_transaction-IsConsistent_example :
    IsConsistent sample_digest
      (create_with_transaction sample_digest plain_pg all_up (codes "a1") first_dto empty_db).1
create_with_transaction-IsConsistent_example =
    create_with_transaction-IsConsistent sample_digest plain_pg all_up (codes "a1") first_dto
      empty_db refl empty_db-IsConsistent

pub one_db-IsConsistent : IsConsistent sample_digest one_db
one_db-IsConsistent =
    subst (λ (r : Result Row × Db). IsConsistent sample_digest r.1) first_created
      (create_with_transaction-IsConsistent sample_digest plain_pg all_up (codes "a1") first_dto
        empty_db refl empty_db-IsConsistent)

two_db-IsConsistent : IsConsistent sample_digest two_db
two_db-IsConsistent =
    subst (λ (r : Result Row × Db). IsConsistent sample_digest r.1) second_created
      (create_with_transaction-IsConsistent sample_digest plain_pg all_up (codes "b2") second_dto
        one_db refl one_db-IsConsistent)

create_with_transaction-Outcome_example :
    Outcome sample_digest plain_pg
      (codes "b2")
      second_dto
      one_db
      (create_with_transaction sample_digest plain_pg all_up (codes "b2") second_dto one_db)
create_with_transaction-Outcome_example =
    create_with_transaction-Outcome sample_digest plain_pg all_up (codes "b2") second_dto one_db

pub second_allowed :
    violates
      (first_row ∷ [])
      (new_row sample_digest plain_pg (codes "b2") first_row.current_hash second_dto)
    ≡ false
unfolding violates new_row next_hashes text_eq create_genesis_hash generate_hash
    calculate_current_hash utf8 join characters is_taken to_iso first_moment hash_input moment_text
    payload_text quote stringify hex_digit
second_allowed = refl

verify_integrity_iff_example :
    ((verify_integrity sample_digest plain_pg two_db).success ≡ true)
    ↔ (map to_entry (find_all_ordered plain_pg two_db) ≡ entries two_db)
verify_integrity_iff_example =
    verify_integrity_iff sample_digest plain_pg two_db sample_digest-IsDigest plain_pg-IsSorting
      two_db-IsConsistent

overtaken_fails_example :
    (verify_integrity sample_digest plain_pg (db_of (first_row ∷ []) late_row)).success ≡ false
overtaken_fails_example =
    overtaken_fails sample_digest plain_pg all_up (codes "b2") late_dto one_db
      (db_of (first_row ∷ []) late_row) first_row late_row sample_digest-IsDigest plain_pg-IsSorting
      refl one_db-IsConsistent mem-cons_self (ground arith) late_created

two_keys_lost : ¬ Survives jsonb_pg second_dto.payload
unfolding payload_text stringify quote hex_digit join
two_keys_lost = λ same.
    let third : 116 ≡ 97 = ap (λ (t : Text). or_else (head? (drop 2 t)) 0) same in
    omega (arith, third)

sent_keys : HasUtf16 two_keys
unfolding HasUtf16
sent_keys = ground arith

stored_keys : HasUtf16 (as_jsonb two_keys)
unfolding HasUtf16
stored_keys = ground arith

changed_payload_fails_example :
    ((verify_integrity sample_digest jsonb_pg (db_of (first_row ∷ []) jsonb_row)).success ≡ false)
    ⊎ Clash sample_digest jsonb_pg (codes "b2") second_dto jsonb_row
changed_payload_fails_example =
    changed_payload_fails sample_digest jsonb_pg all_up (codes "b2") second_dto one_db
      (db_of (first_row ∷ []) jsonb_row) jsonb_row jsonb_pg-IsSorting sent_keys stored_keys
      two_keys_lost jsonb_created

abbrev of_bob : Filters
of_bob = record { actor = some (codes "bob"); from_time = some 1_705_314_600_001; to_time = none }

find_filtered_lem_example :
    ((r : Row)
      → Mem r (find_filtered plain_pg of_bob two_db)
        ↔ (Mem r two_db.log_entries × IsMatch of_bob r))
    × Pairwise (InOrder asc) (find_filtered plain_pg of_bob two_db)
find_filtered_lem_example = find_filtered_lem plain_pg of_bob two_db plain_pg-IsSorting

create_of_none_example :
    (e : Thrown) × (create_with_transaction sample_digest plain_pg all_up
        (codes "a1")
        first_dto
        (record { log_entries = []; chain_head = none })
      ≡ (err e, record { log_entries = []; chain_head = none }))
create_of_none_example = create_of_none sample_digest plain_pg all_up (codes "a1") first_dto []

-- A client without the model ChainHead.
abbrev no_model : Query → Bool
no_model select_for_update = false
no_model insert = false
no_model update = true
no_model commit = false

create_of_failed_update_example :
    (e : Thrown) × (create_with_transaction sample_digest plain_pg no_model
        (codes "b2")
        second_dto
        one_db
      ≡ (err e, one_db))
create_of_failed_update_example =
    create_of_failed_update sample_digest plain_pg no_model (codes "b2") second_dto one_db refl
