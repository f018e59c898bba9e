-- ===== src/App/Reference.antt =====
-- The service of src/app.js without its cache and its queue: each route said of the tables alone, with
-- a database that answers.
use potens_intern_backend_sh.Common.{
  ℕ, Option, none, some, List, [], ◌∷◌, Text, codes, map, if◌then◌else◌, Bool, true, false,
}
use potens_intern_backend_sh.Json.{Json, arr}
use potens_intern_backend_sh.Errors.{Result, ok, err, database, body_parser}
use potens_intern_backend_sh.Database.{Row, Db, to_entry}
use potens_intern_backend_sh.Repository.{
  Filters, create_with_transaction, find_by_id, find_all, count, find_filtered,
}
use potens_intern_backend_sh.Date.{to_iso}
use potens_intern_backend_sh.Verification.{verify_integrity}
use potens_intern_backend_sh.LogService.{Body}
use potens_intern_backend_sh.LogService.Creation.{to_dto}
use potens_intern_backend_sh.Pagination.{PageQuery, parse_pagination, build_pagination_meta}
use potens_intern_backend_sh.Auth.{require_api_key}
use potens_intern_backend_sh.Validation.{
  FilterQuery, details, validation_error, create_log_schema, export_filter_schema,
}
use potens_intern_backend_sh.Copies.{entry_json}
use potens_intern_backend_sh.Http.{
  Response, success, created, error, paginated, plain_error, entry_items, chain_result_json,
  not_found_handler, global_error_handler,
}
use potens_intern_backend_sh.Controllers.{Config, Turn, meta_json, health_json, is_empty, trim}
use potens_intern_backend_sh.App.{
  Request, Route, root, health, api, other, ApiRoute, post_log, get_log_id, get_logs_page,
  get_verify, get_export, unmatched, unauthorized, no_content, landing,
}
use potens_intern_backend_sh.App.Replies.{reply_of}

unfoldable pub committed_reply : Result Row × Db → Response × Db
committed_reply (ok row, db) = (created (entry_json (to_entry row)), db)
committed_reply (err e, db) = (global_error_handler e, db)

module _ (config : Config) (turn : Turn) where
  unfoldable pub reference_post : Option Body → Json → Db → Response × Db
  reference_post none json db = (validation_error (config.zod.body_issues json), db)
  reference_post (some body) json db = committed_reply (
      create_with_transaction config.sha256 config.pg turn.fails turn.uuid (to_dto turn.now body)
        db)

  unfoldable pub reference_get : Text → Db → Response
  reference_get id db =
      if is_empty (trim id)
      then plain_error 400 (codes "Invalid id")
      else reply_of config.sha256 (find_by_id (trim id) db)

  unfoldable pub reference_page : PageQuery → Db → Response
  reference_page query db =
      let params = parse_pagination query in
      paginated
        (arr (entry_items (map to_entry (find_all config.pg params.page params.page_size db))))
        (meta_json (build_pagination_meta params.page params.page_size (count db)))

  unfoldable pub reference_export : Option (Option Filters) → FilterQuery → Db → Response
  reference_export none query db =
      error 422 (codes "Validation Error") (some (arr (details (config.zod.filter_issues query))))
  reference_export (some none) query db = global_error_handler database
  reference_export (some (some filters)) query db =
      success (arr (entry_items (map to_entry (find_filtered config.pg filters db))))

  unfoldable pub reference_api : ApiRoute → Db → Response × Db
  reference_api (post_log json) db = reference_post (create_log_schema json) json db
  reference_api (get_log_id id) db = (reference_get id db, db)
  reference_api (get_logs_page query) db = (reference_page query db, db)
  reference_api get_verify db =
      (success (chain_result_json (verify_integrity config.sha256 config.pg db)), db)
  reference_api (get_export query) db =
      (reference_export (export_filter_schema config.zod query) query db, db)
  reference_api unmatched db = (not_found_handler, db)

  unfoldable pub healthy : Response
  healthy = record {
    status = 200;
    body =
        health_json
          (record { status = codes "ok"; database = codes "ok"; timestamp = to_iso turn.now });
  }

  unfoldable pub reference_route : Option Text → Route → Db → Response × Db
  reference_route key root db = (landing, db)
  reference_route key health db = (healthy, db)
  reference_route key other db = (not_found_handler, db)
  reference_route key (api r) db =
      if require_api_key key config.api_key then reference_api r db else (unauthorized, db)

  unfoldable pub reference_parsed : Option ℕ → Request → Db → Response × Db
  reference_parsed (some status) req db = (global_error_handler (body_parser status), db)
  reference_parsed none req db =
      if req.limited
      then (plain_error 429 (codes "Too Many Requests"), db)
      else reference_route req.api_key req.route db

  unfoldable pub reference_entered : Bool → Request → Db → Response × Db
  reference_entered true req db = (no_content, db)
  reference_entered false req db = reference_parsed req.body_error req db

  unfoldable pub reference : Request → Db → Response × Db
  reference req db = reference_entered req.is_options req db

-- The responses to a sequence of requests, and the tables after it.
unfoldable pub replay : Config → List (Turn × Request) → Db → List Response × Db
replay config [] db = ([], db)
replay config ((turn, req) ∷ calls) db =
    let (response, after) = reference config turn req db in
    let (responses, end) = replay config calls after in (response ∷ responses, end)
