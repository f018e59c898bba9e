-- ===== src/App/Shapes/Routes.antt =====
-- What each route of src/routes/log.routes.js answers, and with which errors.
use potens_intern_backend_sh.Common.{
  ℕ, refl, inl, inr, Option, none, some, Text, Bool-cases, Option-cases,
}
use potens_intern_backend_sh.Hash.{LogEntry}
use potens_intern_backend_sh.Errors.{Result, ok, err}
use potens_intern_backend_sh.Database.{Row, Db}
use potens_intern_backend_sh.Repository.Throws.{
  ThrowsInternal, create_with_transaction-ThrowsInternal,
}
use potens_intern_backend_sh.LogService.{
  World, Body, after_commit, create_log_entry, load_entry, after_cache, get_log_by_id,
  get_all_log_entries, export_logs, export_as_json,
}
use potens_intern_backend_sh.LogService.Creation.{to_dto}
use potens_intern_backend_sh.Pagination.{PageQuery}
use potens_intern_backend_sh.Pagination.Bounds.{parse_pagination_bounds}
use potens_intern_backend_sh.Repository.{Filters}
use potens_intern_backend_sh.Validation.{FilterQuery, create_log_schema}
use potens_intern_backend_sh.Copies.{entry_json}
use potens_intern_backend_sh.Http.{success, created, async_handler}
use potens_intern_backend_sh.Controllers.{
  Config, Turn, answer, create_log, find_log, get_log, get_logs, verify_log, export_found,
  export_logs_reply, is_empty, trim, found_json,
}
use potens_intern_backend_sh.App.{
  ApiRoute, post_log, get_log_id, get_logs_page, get_verify, get_export, unmatched, post_log_body,
  log_router,
}
use potens_intern_backend_sh.App.Shapes.{
  posting, fetching, listing, exporting, kind_of, exported-IsTyped, IsTyped, ThrowsKnown,
  success-IsTyped, created-IsTyped, blank-IsTyped, handler-IsTyped, meta_json-IsPaginationMeta,
  paginated-IsTyped, error-IsTyped, validation_error-IsTyped, not_found_handler-IsTyped,
  database-IsTyped,
}

module _ (config : Config) (turn : Turn) where
  created-ThrowsKnown :
      (ttl : ℕ) (r : Result Row × Db) (w : World)
      → ThrowsInternal r.0
      → ThrowsKnown (after_commit ttl r w).0
  unfolding after_commit
  created-ThrowsKnown ttl (ok row, db) w h = tt
  created-ThrowsKnown ttl (err e, db) w h = inl h

  create_log-IsTyped :
      (body : Body) (w : World) → IsTyped posting (async_handler (create_log config turn body w)).0
  unfolding create_log create_log_entry
  create_log-IsTyped body w =
      handler-IsTyped (λ e. created (entry_json e)) _ _ (λ e. created-IsTyped (entry_json e))
        (created-ThrowsKnown config.cache_ttl_seconds _ w (
          create_with_transaction-ThrowsInternal config.sha256 config.pg turn.fails turn.uuid
            (to_dto turn.now body) w.db))

  load_entry-ThrowsKnown :
      (id : Text) (o : Option Row) (w : World)
      → ThrowsKnown (load_entry config.sha256 config.cache_ttl_seconds id o w).0
  unfolding load_entry
  load_entry-ThrowsKnown id none w = inr (inl refl)
  load_entry-ThrowsKnown id (some row) w = tt

  after_cache-ThrowsKnown :
      (id : Text) (o : Option LogEntry) (w : World)
      → ThrowsKnown (after_cache config.sha256 config.cache_ttl_seconds id o w).0
  unfolding after_cache
  after_cache-ThrowsKnown id (some e) w = tt
  after_cache-ThrowsKnown id none w = elim (Bool-cases w.db_answers) [
    | inl answers ↦ simp answers (load_entry-ThrowsKnown id _ w)
    | inr silent ↦ simp silent (inl tt)
  ]

  get_log-IsTyped :
      (id : Text) (w : World) → IsTyped fetching (async_handler (get_log config id w)).0
  unfolding get_log find_log get_log_by_id
  get_log-IsTyped id w = elim (Bool-cases (is_empty (trim id))) [
    | inl blank ↦ simp blank (unfold async_handler in blank-IsTyped)
    | inr named ↦ simp named (
        handler-IsTyped (λ f. success (found_json f)) _ _ (λ f. success-IsTyped (found_json f))
          (after_cache-ThrowsKnown (trim id) _ w))
  ]

module _ (config : Config) (w : World) where
  get_logs-IsTyped :
      (query : PageQuery) → IsTyped listing (async_handler (get_logs config query w, w)).0
  unfolding get_logs get_all_log_entries
  get_logs-IsTyped query = elim (Bool-cases w.db_answers) [
    | inl answers ↦ simp answers (
        unfold answer async_handler in
        (paginated-IsTyped _ _
          (meta_json-IsPaginationMeta _ _ _ (parse_pagination_bounds query).1)))
    | inr silent ↦ simp silent (unfold answer async_handler in database-IsTyped)
  ]

  verify_log-IsTyped : IsTyped fetching (async_handler (verify_log config w, w)).0
  unfolding verify_log async_handler
  verify_log-IsTyped = elim (Bool-cases w.db_answers) [
    | inl answers ↦ simp answers (success-IsTyped _)
    | inr silent ↦ simp silent database-IsTyped
  ]

  export_found-IsTyped :
      (o : Option (Option Filters)) (query : FilterQuery)
      → IsTyped exporting (async_handler (export_found config o query w, w)).0
  unfolding export_found export_as_json export_logs async_handler answer
  export_found-IsTyped none query = error-IsTyped _
  export_found-IsTyped (some none) query = database-IsTyped
  export_found-IsTyped (some (some filters)) query = elim (Bool-cases w.db_answers) [
    | inl answers ↦ simp answers (exported-IsTyped _)
    | inr silent ↦ simp silent database-IsTyped
  ]

-- Every response of a route below /api to a request with the key is the documented one of that route
-- (201 with an ApiResponse to POST /api/log, 200 with a PaginatedResponse to GET /api/logs, 200 with
-- an ApiResponse to the other three, and 422 with an ErrorResponse to GET /api/export), or 400, 404,
-- 422 or 500 with a body that starts with its error.
pub log_router-IsTyped :
    (config : Config) (turn : Turn) (r : ApiRoute) (w : World)
    → IsTyped (kind_of r) (log_router config turn r w).0
unfolding log_router post_log_body export_logs_reply
log_router-IsTyped config turn (post_log json) w = elim (Option-cases (create_log_schema json)) [
  | inl bad ↦ simp bad (validation_error-IsTyped _)
  | inr (body, valid) ↦ simp valid (create_log-IsTyped config turn body w)
]
log_router-IsTyped config turn (get_log_id id) w = get_log-IsTyped config turn id w
log_router-IsTyped config turn (get_logs_page query) w = get_logs-IsTyped config w query
log_router-IsTyped config turn get_verify w = verify_log-IsTyped config w
log_router-IsTyped config turn (get_export query) w = export_found-IsTyped config w _ query
log_router-IsTyped config turn unmatched w = not_found_handler-IsTyped
