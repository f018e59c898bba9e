-- ===== src/Verification.antt =====
-- src/services/verification.service.js, and the job of src/workers/verification.worker.js that calls
-- it.
pub mod Order
pub mod Races
pub mod Payloads
use potens_intern_backend_sh.Common.{ℕ, Bool, List, map, Text, if◌then◌else◌}
use potens_intern_backend_sh.Errors.{Result, ok, err, database}
use potens_intern_backend_sh.Hash.{ChainResult, verify_entire_chain}
use potens_intern_backend_sh.Database.{Db, Postgres, to_entry}
use potens_intern_backend_sh.Repository.{find_all_ordered}

unfoldable pub verify_integrity : (List ℕ → Text) → Postgres → Db → ChainResult
verify_integrity sha256 pg db = verify_entire_chain sha256 (map to_entry (find_all_ordered pg db))

-- The processor of the worker, whose result BullMQ keeps; it throws if the database does not answer.
unfoldable pub process_job : (List ℕ → Text) → Postgres → Bool → Db → Result ChainResult
process_job sha256 pg answers db =
    if answers then ok (verify_integrity sha256 pg db) else err database
