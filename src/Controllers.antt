-- ===== src/Controllers.antt =====
-- src/controllers/log.controller.js and src/controllers/health.controller.js, with
-- src/services/health.service.js.
use potens_intern_backend_sh.Common.{
  ℕ, Bool, true, false, ◌&&◌, Option, none, some, List, [], ◌∷◌, Text, codes, text_eq,
  if◌then◌else◌,
}
use potens_intern_backend_sh.Constants.{HttpStatus, http_status, Message, messages}
use potens_intern_backend_sh.Json.{Json, bool, str, arr, obj, end, field}
use potens_intern_backend_sh.Date.{to_iso}
use potens_intern_backend_sh.Hash.{LogEntry}
use potens_intern_backend_sh.Errors.{Result, ok, err, app_error, database, new_app_error}
use potens_intern_backend_sh.Database.{Postgres, Query}
use potens_intern_backend_sh.Verification.{verify_integrity}
use potens_intern_backend_sh.LogService.{
  World, Body, Found, Page, create_log_entry, get_log_by_id, get_all_log_entries, export_as_json,
}
use potens_intern_backend_sh.Pagination.{
  is_space, PageQuery, parse_pagination, PaginationMeta, build_pagination_meta,
}
use potens_intern_backend_sh.Repository.{Filters}
use potens_intern_backend_sh.Validation.{Zod, FilterQuery, details, export_filter_schema}
use potens_intern_backend_sh.Copies.{entry_json}
use potens_intern_backend_sh.Http.{
  Response, number, entry_items, chain_result_json, success, created, error, paginated,
}

-- What is fixed when the service starts: the code that it calls, and its configuration.
pub record Config : Type 0 where
  pub sha256 : List ℕ → Text
  pub pg : Postgres
  pub zod : Zod
  pub api_key : Text
  pub cache_ttl_seconds : ℕ

-- What a request meets: the time, the UUID that Prisma would make, the queries that fail.
pub record Turn : Type 0 where
  pub now : ℕ
  pub uuid : Text
  pub fails : Query → Bool

unfoldable pub trim_start : Text → Text
unfolding is_space
trim_start [] = []
trim_start (c ∷ s) = let rest = trim_start s in if is_space c then rest else c ∷ s

unfoldable pub is_empty : Text → Bool
is_empty [] = true
is_empty (c ∷ s) = false

unfoldable pub trim_end : Text → Text
unfolding is_space is_empty
trim_end [] = []
trim_end (c ∷ s) = let rest = trim_end s in if is_space c && is_empty rest then [] else c ∷ rest

-- `String.prototype.trim`
unfoldable pub trim : Text → Text
trim t = trim_end (trim_start t)

unfoldable pub answer {ℓ} : {A : Type ℓ} → (A → Response) → Result A → Result Response
answer f (ok a) = ok (f a)
answer f (err e) = err e

unfoldable pub found_json : Found → Json
found_json f = obj (
    field (codes "entry") (entry_json f.entry)
      (field (codes "verificationStatus") (bool f.verification_status) end))

-- `totalPages` is Infinity, and so null in JSON, for a page size of 0, which the query cannot give.
unfoldable pub total_pages_json : Option ℕ → Json
total_pages_json none = Json.null
total_pages_json (some n) = number n

unfoldable pub meta_json : PaginationMeta → Json
unfolding total_pages_json
meta_json m = obj (
    field (codes "page") (number m.page) (
      field (codes "pageSize") (number m.page_size) (
        field (codes "total") (number m.total)
          (field (codes "totalPages") (total_pages_json m.total_pages) end))))

module _ (config : Config) where
  unfoldable pub create_log : Turn → Body → World → Result Response × World
  unfolding answer
  create_log turn body w =
      let (r, after) =
        create_log_entry config.sha256 config.pg config.cache_ttl_seconds turn.fails turn.uuid
          turn.now body w in
      (answer (λ e. created (entry_json e)) r, after)

  unfoldable pub find_log : Text → World → Result Response × World
  unfolding answer found_json
  find_log id w =
      let (r, after) = get_log_by_id config.sha256 config.cache_ttl_seconds id w in
      (answer (λ f. success (found_json f)) r, after)

  -- `getLogById`: `!id` holds of the empty id, whose trimmed text is empty too.
  unfoldable pub get_log : Text → World → Result Response × World
  unfolding trim_start trim_end trim is_empty
  get_log id w =
      if is_empty (trim id)
      then (
        err (
            app_error (
              new_app_error (codes "Invalid id") (http_status HttpStatus.bad_request)
                (codes "INVALID_ID"))),
        w,
      )
      else find_log (trim id) w

  unfoldable pub get_logs : PageQuery → World → Result Response
  unfolding answer meta_json
  get_logs query w =
      let params = parse_pagination query in
      answer
        (λ (p : Page).
          paginated (arr (entry_items p.items))
            (meta_json (build_pagination_meta params.page params.page_size p.info.total)))
        (get_all_log_entries config.pg params.page params.page_size w)

  unfoldable pub verify_log : World → Result Response
  verify_log w =
      if w.db_answers
      then ok (success (chain_result_json (verify_integrity config.sha256 config.pg w.db)))
      else err database

  -- Prisma rejects the query with an invalid date.
  unfoldable pub export_found : Option (Option Filters) → FilterQuery → World → Result Response
  unfolding answer
  export_found none query w = ok (
      error (http_status HttpStatus.unprocessable_entity) (messages Message.validation_error)
        (some (arr (details (config.zod.filter_issues query)))))
  export_found (some none) query w = err database
  export_found (some (some filters)) query w =
      answer (λ (es : List LogEntry). success (arr (entry_items es)))
        (export_as_json config.pg filters w)

  -- `exportLogs`
  unfoldable pub export_logs_reply : FilterQuery → World → Result Response
  export_logs_reply query w = export_found (export_filter_schema config.zod query) query w

-- `checkHealth`. The probe is the race of a query with a timeout of 5 seconds.
pub record Health : Type 0 where
  pub status : Text
  pub database : Text
  pub timestamp : Text

unfoldable pub check_health : Turn → World → Health
check_health turn w =
    if w.db_answers
    then record { status = codes "ok"; database = codes "ok"; timestamp = to_iso turn.now }
    else record {
      status = codes "degraded";
      database = codes "unreachable";
      timestamp = to_iso turn.now;
    }

unfoldable pub health_json : Health → Json
health_json h = obj (
    field (codes "status") (str h.status)
      (field (codes "database") (str h.database) (field (codes "timestamp") (str h.timestamp) end)))

-- `healthCheck`
unfoldable pub health_check : Turn → World → Response
unfolding text_eq
health_check turn w =
    let health = check_health turn w in
    record {
      status = if text_eq health.status (codes "ok") then 200 else 503;
      body = health_json health;
    }
