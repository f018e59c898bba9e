-- ===== src/Tests/Interleaved.antt =====
-- The theorems on interleaved calls of src/services/log.service.js.
use mathlib.Core.List.{Pairwise, Pairwise-cons, not-mem-nil}
use potens_intern_backend_sh.Common.{
  ◌≡◌, Bool, some, All, true, ◌++◌, ◌<◌, arith, refl, [], ◌∷◌, codes,
}
use potens_intern_backend_sh.App.Runs.{IsSound}
use potens_intern_backend_sh.Schedule.{
  Task, Reply, reply, listed, creating, looking, advance, State, create, get, move, Reach, here,
  next,
}
use potens_intern_backend_sh.Schedule.Ledgers.{Reach-IsSound}
use potens_intern_backend_sh.Schedule.Replies.{IsAnswered, Reach-IsAnswered}
use potens_intern_backend_sh.Schedule.Orderly.{orderly_verifies}
use potens_intern_backend_sh.Verification.{verify_integrity}
use potens_intern_backend_sh.Database.{Query}
use potens_intern_backend_sh.Samples.{
  sample_digest, sample_digest-IsDigest, plain_pg, plain_pg-IsSorting, all_up, one_db, first_row,
}
use potens_intern_backend_sh.Tests.Ledger.{one_db-IsConsistent}
use potens_intern_backend_sh.Tests.Site.{config, world_of, coherent, pay_body}

-- A call that creates, and one that reads, of which the first then goes one step.
abbrev start : State
start = record { world = world_of one_db; clock = 5; tasks = [] }

abbrev both : State
both = record start { tasks = looking (codes "a1") ∷ creating (codes "b2") 5 pay_body ∷ [] }

abbrev two_calls : Reach config start both
two_calls =
    next (next here (create (codes "b2") pay_body start))
      (get (codes "a1") (record start { tasks = creating (codes "b2") 5 pay_body ∷ [] }))

Reach-IsSound_example :
    IsSound config
      (first_row ∷ [])
      (advance config all_up (creating (codes "b2") 5 pay_body) (world_of one_db)).0
Reach-IsSound_example =
    Reach-IsSound config start _
      (next two_calls (
        move all_up (creating (codes "b2") 5 pay_body) (looking (codes "a1") ∷ []) []
          (world_of one_db) 5))
      refl one_db-IsConsistent (coherent one_db) (((tt, refl), tt), tt)

Reach-IsAnswered_example :
    All
      (λ task.
        (fails : Query → Bool) (r : Reply)
        → reply config fails task both.world ≡ some r
        → IsAnswered config fails both.world task r)
      both.tasks
Reach-IsAnswered_example = Reach-IsAnswered config start both refl (coherent one_db) two_calls

-- A call that takes its time after that of the row that is there, and then commits.
abbrev later_start : State
later_start = record start { clock = 1_705_314_600_005 }

abbrev paying : Task
paying = creating (codes "b2") 1_705_314_600_005 pay_body

abbrev paid : State
paid = record {
  world = (advance config all_up paying (world_of one_db)).0;
  clock = 1_705_314_600_005;
  tasks = listed (advance config all_up paying (world_of one_db)).1 ++ [];
}

abbrev payment : Reach config later_start paid
payment =
    next (next here (create (codes "b2") pay_body later_start))
      (move all_up paying [] [] (world_of one_db) 1_705_314_600_005)

one_db_increasing : Pairwise (λ a b. a.created_at < b.created_at) one_db.log_entries
one_db_increasing = Pairwise-cons.1 ((λ a m. absurd (not-mem-nil m)), Pairwise.nil)

orderly_verifies_example : (verify_integrity sample_digest plain_pg paid.world.db).success ≡ true
orderly_verifies_example =
    orderly_verifies config later_start paid payment sample_digest-IsDigest plain_pg-IsSorting refl
      one_db-IsConsistent (coherent one_db) one_db_increasing ((tt, refl), tt)
      ((tt, (refl, (ground arith, tt))), tt)
