-- ===== src/Tests/Site.antt =====
-- The theorems on src/app.js and src/validators/log.validator.js at requests to a small service.
use potens_intern_backend_sh.Common.{
  ◌≡◌, List, refl, true, false, none, some, [], ◌∷◌, Text, codes, text_eq,
}
use potens_intern_backend_sh.Utf8.{utf8}
use potens_intern_backend_sh.Json.{stringify, property_of, Json, str, obj, end, field}
use potens_intern_backend_sh.Hash.{LogEntry, verify_entire_chain}
use potens_intern_backend_sh.Database.{Db, ChainHead, to_entry, violates, is_taken}
use potens_intern_backend_sh.Repository.{new_row}
use potens_intern_backend_sh.LogService.{World, Body}
use potens_intern_backend_sh.LogService.Creation.{to_dto}
use potens_intern_backend_sh.LogService.Coherence.{IsCoherent}
use potens_intern_backend_sh.Auth.{require_api_key, timing_safe_equal, is_falsy, copy}
use potens_intern_backend_sh.Pagination.{is_space}
use potens_intern_backend_sh.Validation.{
  create_log_schema, text_within, record_or_null, without_proto, body_of,
}
use potens_intern_backend_sh.Validation.Bounds.{
  IsValidated, create_log_schema-IsValidated, validated_fits,
}
use potens_intern_backend_sh.Copies.{entry_json}
use potens_intern_backend_sh.Http.{created, success, chain_result_json}
use potens_intern_backend_sh.Controllers.{
  Config, Turn, found_json, is_empty, trim, trim_start, trim_end,
}
use potens_intern_backend_sh.App.{
  Request, ApiRoute, api, post_log, get_log_id, get_verify, get_export, app,
}
use potens_intern_backend_sh.App.Access.{unauthorized_blind}
use potens_intern_backend_sh.App.Writes.{Writes, app-Writes}
use potens_intern_backend_sh.App.Runs.{serve, drift, Run, here, next, IsSound, Run-IsSound}
use potens_intern_backend_sh.App.Audit.{bare, read_export, export_verifies}
use potens_intern_backend_sh.App.Replies.{IsAdmitted, Reply, get_log-Reply}
use potens_intern_backend_sh.App.RoundTrip.{IsCreatable, created_is_found}
use potens_intern_backend_sh.Samples.{
  sample_digest, sample_digest-IsDigest, plain_pg, redis_of, redis_of-IsStore, add_once, all_up,
  empty_db, one_db, two_db, two_keys, first_row,
}
use potens_intern_backend_sh.Tests.Ledger.{one_db-IsConsistent, second_allowed}

abbrev pub config : Config
config = record {
  sha256 = sample_digest;
  pg = plain_pg;
  zod = record { body_issues = λ json. []; filter_issues = λ query. []; datetime = λ t. none };
  api_key = codes "secret";
  cache_ttl_seconds = 3600;
}

abbrev pub turn : Turn
turn = record { now = 1_705_314_600_005; uuid = codes "b2"; fails = all_up }

abbrev pub world_of : Db → World
world_of db = record {
  db = db;
  db_answers = true;
  redis = redis_of true;
  queue = record { accepts = true; add = add_once; jobs = [] };
}

pub coherent : (db : Db) → IsCoherent (world_of db)
coherent db = record { store = redis_of-IsStore true; backed = λ key v held. absurd (cc) }

abbrev pub request : Text → ApiRoute → Request
request key r = record {
  is_options = false;
  body_error = none;
  limited = false;
  api_key = some key;
  route = api r;
}

abbrev pub pay_json : Json
pay_json = obj (
    field (codes "actor") (str (codes "bob"))
      (field (codes "action") (str (codes "pay")) (field (codes "payload") two_keys end)))

abbrev pub pay_body : Body
pay_body = record { actor = codes "bob"; action = codes "pay"; payload = some two_keys }

pay_valid : create_log_schema pay_json ≡ some pay_body
unfolding create_log_schema property_of text_within record_or_null without_proto body_of text_eq
pay_valid = refl

pub admitted : (r : ApiRoute) → IsAdmitted config (request (codes "secret") r) r
unfolding require_api_key timing_safe_equal is_falsy copy utf8 text_eq
admitted r = record { passed = refl; parsed = refl; within_limit = refl; key = refl; routed = refl }

refused : require_api_key (some (codes "guess")) (codes "secret") ≡ false
unfolding require_api_key timing_safe_equal is_falsy copy utf8 text_eq
refused = refl

unauthorized_blind_example :
    ((app config turn (request (codes "guess") get_verify) (world_of two_db)).0
      ≡ (app config turn (request (codes "guess") get_verify) (world_of empty_db)).0)
    × ((app config turn (request (codes "guess") get_verify) (world_of two_db)).1 ≡ world_of two_db)
unauthorized_blind_example =
    unauthorized_blind config turn (world_of two_db) (world_of empty_db) refl
      (request (codes "guess") get_verify) refused

app-Writes_example :
    Writes config turn
      (request (codes "secret") (post_log pay_json))
      (world_of one_db)
      (app config turn (request (codes "secret") (post_log pay_json)) (world_of one_db))
app-Writes_example =
    app-Writes config turn (request (codes "secret") (post_log pay_json)) (world_of one_db)

b2_named : is_empty (trim (codes " b2 ")) ≡ false
unfolding is_empty trim trim_start trim_end is_space
b2_named = refl

b2_trimmed : trim (codes " b2 ") ≡ codes "b2"
unfolding trim trim_start trim_end is_empty is_space
b2_trimmed = refl

get_log-Reply_example :
    Reply sample_digest 3600
      (trim (codes " b2 "))
      (world_of two_db)
      (app config turn (request (codes "secret") (get_log_id (codes " b2 "))) (world_of two_db)).0
get_log-Reply_example =
    get_log-Reply config turn (request (codes "secret") (get_log_id (codes " b2 "))) (codes " b2 ")
      (world_of two_db) (admitted (get_log_id (codes " b2 "))) b2_named (coherent two_db)

abbrev head : ChainHead
head = record { latest_hash = first_row.current_hash; latest_log_id = some (codes "a1") }

creatable : IsCreatable config turn pay_body head (world_of one_db)
creatable = record { up = λ q. refl; locked = refl; allowed = second_allowed; accepted = refl }

created_is_found_example :
    (let row =
        new_row sample_digest plain_pg (codes "b2") head.latest_hash (to_dto turn.now pay_body) in
      ((app config turn (request (codes "secret") (post_log pay_json)) (world_of one_db)).0
        ≡ created (entry_json (to_entry row)))
      × ((app config turn
            (request (codes "secret") (get_log_id (codes " b2 ")))
            (app config turn (request (codes "secret") (post_log pay_json)) (world_of one_db)).1).0
          ≡ success (found_json (record { entry = to_entry row; verification_status = true }))))
created_is_found_example =
    created_is_found config turn turn (request (codes "secret") (post_log pay_json))
      (request (codes "secret") (get_log_id (codes " b2 "))) pay_json pay_body head (codes " b2 ")
      (world_of one_db) creatable (admitted (post_log pay_json)) pay_valid
      (admitted (get_log_id (codes " b2 "))) b2_named b2_trimmed refl refl (coherent one_db)

-- A request, and a key that is dropped from the cache.
abbrev served : World
served = (app config turn (request (codes "secret") (post_log pay_json)) (world_of one_db)).1

abbrev evicted : World
evicted = record served { redis = record served.redis { answers = λ key. none } }

two_steps : Run config (world_of one_db) evicted
two_steps =
    next
      (next here (
        serve turn (request (codes "secret") (post_log pay_json)) (world_of one_db)
          (λ body valid. refl)))
      (drift served.db_answers served.redis.up served.queue.accepts (λ key. none) served.queue.jobs
        served (λ key v held. absurd (cc)))

Run-IsSound_example : IsSound config (first_row ∷ []) evicted
Run-IsSound_example =
    Run-IsSound config (world_of one_db) evicted one_db-IsConsistent (coherent one_db) two_steps

create_log_schema-IsValidated_example : IsValidated pay_body
create_log_schema-IsValidated_example = create_log_schema-IsValidated pay_json pay_body pay_valid

validated_fits_example :
    (let row = new_row sample_digest plain_pg (codes "b2") head.latest_hash (to_dto 5 pay_body) in
      violates (first_row ∷ []) row ≡ is_taken (first_row ∷ []) row)
validated_fits_example =
    validated_fits sample_digest plain_pg (first_row ∷ []) (codes "b2") head.latest_hash 5 pay_json
      pay_body sample_digest-IsDigest pay_valid

export_verifies_example :
    (es : List LogEntry) × (read_export (
        stringify
          (app config turn (request (codes "secret") (get_export bare)) (world_of two_db)).0.body)
      ≡ some es)
    × ((app config turn (request (codes "secret") get_verify) (world_of two_db)).0
        ≡ success (chain_result_json (verify_entire_chain sample_digest es)))
export_verifies_example =
    export_verifies config turn (request (codes "secret") (get_export bare))
      (request (codes "secret") get_verify) (world_of two_db) (admitted (get_export bare))
      (admitted get_verify) refl
