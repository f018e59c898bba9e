-- ===== src/Tests/Service.antt =====
-- The theorems on src/services/log.service.js at the requests of Samples.
use potens_intern_backend_sh.Common.{
  ◌≡◌, refl, none, some, [], codes, [], ◌∷◌, Bool, true, false, ◌>>=◌, ◌&&◌, if◌then◌else◌, arith,
  text_eq,
}
use potens_intern_backend_sh.Errors.{ok}
use potens_intern_backend_sh.Database.{Db, to_entry}
use potens_intern_backend_sh.Repository.{find_by_id, first}
use potens_intern_backend_sh.Redis
use potens_intern_backend_sh.Redis.Laws.{reads_after}
use potens_intern_backend_sh.Redis.{Redis}
use potens_intern_backend_sh.Copies.{json_entry}
use potens_intern_backend_sh.LogService.{
  World, Body, JobQueue, enqueue_verification, create_log_entry, get_log_by_id, status_of, log_key,
}
use potens_intern_backend_sh.LogService.Creation.{
  Effect, create_log_entry-Effect, create_log_entry_independent,
}
use potens_intern_backend_sh.LogService.Jobs.{AddsOnce, IsEnqueued, enqueue_verification-IsEnqueued}
use potens_intern_backend_sh.LogService.Reads.{get_log_by_id_twice}
use potens_intern_backend_sh.LogService.Coherence.{IsCoherent}
use potens_intern_backend_sh.Samples.{
  sample_digest, plain_pg, redis_of, redis_of-IsStore, add_once, all_up, one_db, two_db, two_keys,
  second_row,
}

abbrev world_of : Bool → Db → World
world_of up db = record {
  db = db;
  db_answers = true;
  redis = redis_of up;
  queue = record { accepts = up; add = add_once; jobs = [] };
}

abbrev pay : Body
pay = record { actor = codes "bob"; action = codes "pay"; payload = some two_keys }

world_of-IsCoherent : (up : Bool) (db : Db) → IsCoherent (world_of up db)
world_of-IsCoherent up db = record {
  store = redis_of-IsStore up;
  backed = λ key v held. absurd (cc);
}

create_log_entry-Effect_example :
    Effect sample_digest plain_pg 3600 (codes "b2") 1_705_314_600_005 pay (world_of true one_db) (
      create_log_entry sample_digest plain_pg 3600 all_up
        (codes "b2")
        1_705_314_600_005
        pay
        (world_of true one_db))
create_log_entry-Effect_example =
    create_log_entry-Effect sample_digest plain_pg 3600 all_up (codes "b2") 1_705_314_600_005 pay
      (world_of true one_db)

-- With Redis and the queue, and without them.
create_log_entry_independent_example :
    ((create_log_entry sample_digest plain_pg 3600 all_up
        (codes "b2")
        1_705_314_600_005
        pay
        (world_of true one_db)).0
      ≡ (create_log_entry sample_digest plain_pg 3600 all_up
          (codes "b2")
          1_705_314_600_005
          pay
          (world_of false one_db)).0)
    × ((create_log_entry sample_digest plain_pg 3600 all_up
          (codes "b2")
          1_705_314_600_005
          pay
          (world_of true one_db)).1.db
        ≡ (create_log_entry sample_digest plain_pg 3600 all_up
            (codes "b2")
            1_705_314_600_005
            pay
            (world_of false one_db)).1.db)
create_log_entry_independent_example =
    create_log_entry_independent sample_digest plain_pg 3600 all_up (codes "b2") 1_705_314_600_005
      pay (world_of true one_db) (world_of false one_db) refl

not_cached : Redis.get (log_key (codes "b2")) (world_of true two_db).redis ≡ none
unfolding Redis.get ◌>>=◌
not_cached = refl

stored : find_by_id (codes "b2") (world_of true two_db).db ≡ some second_row
unfolding find_by_id first text_eq
stored = refl

get_log_by_id_twice_example :
    (let (first, after) = get_log_by_id sample_digest 3600 (codes "b2") (world_of true two_db) in
      (first
        ≡ ok (record {
          entry = to_entry second_row;
          verification_status = status_of sample_digest (to_entry second_row);
        }))
      × ((get_log_by_id sample_digest 3600 (codes "b2") after).0
          ≡ ok (record {
            entry = json_entry (to_entry second_row);
            verification_status = status_of sample_digest (to_entry second_row);
          })))
get_log_by_id_twice_example =
    get_log_by_id_twice sample_digest second_row 3600 (codes "b2") (world_of true two_db)
      (redis_of-IsStore true) (omega arith) refl refl not_cached stored

reads_after_example :
    (Redis.get (codes "k") (Redis.set (codes "k") two_keys 600 (redis_of true)) ≡ (
      if true && text_eq (codes "k") (codes "k")
      then some two_keys
      else Redis.get (codes "k") (redis_of true)))
    × (Redis.get (codes "k") (Redis.del (codes "k") (redis_of true))
        ≡ (if text_eq (codes "k") (codes "k") then none else Redis.get (codes "k") (redis_of true)))
    × (true ≡ false → Redis.get (codes "k") (redis_of true) ≡ none)
reads_after_example =
    reads_after (codes "k") (codes "k") two_keys 600 (redis_of true) (redis_of-IsStore true)
      (omega arith)

abbrev queue : JobQueue
queue = record {
  accepts = true;
  add = add_once;
  jobs = record { job_id = codes "verify-a1"; log_entry_id = codes "a1" } ∷ [];
}

queue-AddsOnce : AddsOnce queue
queue-AddsOnce = record {
  present = λ j jobs held. rw held refl;
  absent = λ j jobs free. rw free refl;
}

enqueue_verification-IsEnqueued_example :
    IsEnqueued (codes "b2") queue (enqueue_verification (codes "b2") queue)
enqueue_verification-IsEnqueued_example =
    enqueue_verification-IsEnqueued (codes "b2") queue queue-AddsOnce (refl, tt) (refl, tt)
