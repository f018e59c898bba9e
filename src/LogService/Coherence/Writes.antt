-- ===== src/LogService/Coherence/Writes.antt =====
-- The single writes of src/services/log.service.js to the table and to the cache.
use potens_intern_backend_sh.Common.{ℕ, ◌≡◌, refl, inl, inr, some, List, Text, Bool}
use potens_intern_backend_sh.Database.{Row, to_entry}
use potens_intern_backend_sh.Repository.{find_by_id}
use potens_intern_backend_sh.Redis
use potens_intern_backend_sh.Redis.{Answers, Within}
use potens_intern_backend_sh.Copies.{summary_json, entry_json}
use potens_intern_backend_sh.LogService.{World, Job, latest_log_key, log_key}
use potens_intern_backend_sh.LogService.Coherence.{IsCoherent, IsCoherent-set, summary_of}

-- The summary of a row of the table under the key of the latest entry.
pub IsCoherent-summary :
    (w : World) (row : Row) (ttl : ℕ)
    → find_by_id row.id w.db ≡ some row
    → IsCoherent w
    → IsCoherent
        (record w { redis = Redis.set latest_log_key (summary_json (summary_of row)) ttl w.redis })
IsCoherent-summary w row ttl stored h =
    IsCoherent-set w latest_log_key (summary_json (summary_of row)) ttl
      (inl (row, refl, stored, refl)) h

-- A row of the table under the key of its id.
pub IsCoherent-entry :
    (w : World) (id : Text) (row : Row) (ttl : ℕ)
    → find_by_id id w.db ≡ some row
    → IsCoherent w
    → IsCoherent
        (record w { redis = Redis.set (log_key id) (entry_json (to_entry row)) ttl w.redis })
IsCoherent-entry w id row ttl stored h =
    IsCoherent-set w (log_key id) (entry_json (to_entry row)) ttl
      (inr (id, row, refl, stored, refl)) h

-- What happens to the services: the server of the cache comes up or goes down and may lose keys, and
-- the database and the queue come up or go down, with any jobs left.
pub IsCoherent-drift :
    (w : World) (answers up accepts : Bool) (left : Answers) (jobs : List Job)
    → Within w.redis.answers left
    → IsCoherent w
    → IsCoherent (record w {
      db_answers = answers;
      redis = record w.redis { up = up; answers = left };
      queue = record w.queue { accepts = accepts; jobs = jobs };
    })
IsCoherent-drift w answers up accepts left jobs within h = record {
  store = record {
    gives = h.store.gives;
    only = h.store.only;
    keeps = h.store.keeps;
    deletes = h.store.deletes;
    spares = h.store.spares;
  };
  backed = λ key v held. h.backed key v (within key v held);
}
