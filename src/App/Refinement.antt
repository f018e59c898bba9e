-- ===== src/App/Refinement.antt =====
-- The service of src/app.js against its reference: what Redis and the queue hold, and whether they
-- answer, shows in no response and in no table.
use potens_intern_backend_sh.Common.{
  ℕ, ◌≡◌, refl, sym, ap, ◌∙◌, inl, inr, true, false, Option, none, some, Text, Bool-cases, Bool,
}
use potens_intern_backend_sh.Json.{Json}
use potens_intern_backend_sh.Errors.{Result, ok, err}
use potens_intern_backend_sh.Database.{Row, Db}
use potens_intern_backend_sh.LogService.{
  World, Body, after_commit, create_log_entry, get_log_by_id, get_all_log_entries, export_logs,
  export_as_json,
}
use potens_intern_backend_sh.LogService.Coherence.{IsCoherent}
use potens_intern_backend_sh.LogService.Answers.{get_log_by_id-Answer}
use potens_intern_backend_sh.Repository.{Filters, find_by_id}
use potens_intern_backend_sh.Verification.{verify_integrity}
use potens_intern_backend_sh.Auth.{require_api_key}
use potens_intern_backend_sh.Validation.{FilterQuery, create_log_schema, export_filter_schema}
use potens_intern_backend_sh.Copies.{entry_json}
use potens_intern_backend_sh.Http.{
  Response, created, success, global_error_handler, async_handler, chain_result_json,
}
use potens_intern_backend_sh.Pagination.{PageQuery}
use potens_intern_backend_sh.Controllers.{
  Config, Turn, answer, create_log, find_log, get_log, get_logs, verify_log, export_found,
  export_logs_reply, check_health, health_check, is_empty, trim,
}
use potens_intern_backend_sh.App.{
  Request, Route, root, health, api, other, ApiRoute, post_log, get_log_id, get_logs_page,
  get_verify, get_export, unmatched, post_log_body, log_router, route_request, after_parser,
  after_cors, app,
}
use potens_intern_backend_sh.App.Replies.{Reply, Reply-of_Answer, reply_of}
use potens_intern_backend_sh.App.Writes.{async_handler-snd, get_log-db}
use potens_intern_backend_sh.App.Reference.{
  committed_reply, reference_post, reference_get, reference_page, reference_export, reference_api,
  healthy, reference_route, reference_parsed, reference_entered, reference,
}

-- What of the world the tables are.
abbrev pub seen : Response × World → Response × Db
seen (response, w) = (response, w.db)

module _ (config : Config) (turn : Turn) (w : World) (answers : w.db_answers ≡ true)
    (coherent : IsCoherent w) where
  committed-seen :
      (r : Result Row × Db)
      → seen (
          async_handler (
            answer (λ e. created (entry_json e)) (after_commit config.cache_ttl_seconds r w).0,
            (after_commit config.cache_ttl_seconds r w).1,
          ))
        ≡ committed_reply r
  unfolding async_handler answer after_commit committed_reply
  committed-seen (ok row, db) = refl
  committed-seen (err e, db) = refl

  post-seen :
      (o : Option Body) (json : Json)
      → seen (post_log_body config turn o json w) ≡ reference_post config turn o json w.db
  unfolding post_log_body create_log create_log_entry reference_post
  post-seen none json = refl
  post-seen (some body) json = committed-seen _

  table-Reply :
      (id : Text) (r : Response)
      → Reply config.sha256 config.cache_ttl_seconds id w r
      → r ≡ reply_of config.sha256 (find_by_id id w.db)
  table-Reply id r (inl (silent, failed)) = let clash : true ≡ false = sym answers ∙ silent in cc
  table-Reply id r (inr reply) = reply

  get-response :
      (id : Text) → (async_handler (get_log config id w)).0 ≡ reference_get config turn id w.db
  unfolding get_log find_log reference_get
  get-response id = elim (Bool-cases (is_empty (trim id))) [
    | inl blank ↦ simp blank (unfold async_handler global_error_handler in refl)
    | inr named ↦ simp named (
        table-Reply (trim id) _ (
          Reply-of_Answer config.sha256 config.cache_ttl_seconds (trim id) w
            (get_log_by_id config.sha256 config.cache_ttl_seconds (trim id) w)
            (get_log_by_id-Answer config.sha256 config.cache_ttl_seconds (trim id) w coherent)))
  ]

  get-seen :
      (id : Text)
      → seen (async_handler (get_log config id w)) ≡ (reference_get config turn id w.db, w.db)
  get-seen id =
      let tables : (async_handler (get_log config id w)).1.db ≡ w.db =
        ap (λ (v : World). v.db) (async_handler-snd (get_log config id w))
        ∙ get_log-db config turn id w in
      cc (get-response id)

  page-seen :
      (query : PageQuery)
      → seen (async_handler (get_logs config query w, w))
        ≡ (reference_page config turn query w.db, w.db)
  unfolding get_logs get_all_log_entries async_handler answer reference_page
  page-seen query = simp answers refl

  verify-seen :
      seen (async_handler (verify_log config w, w))
      ≡ (success (chain_result_json (verify_integrity config.sha256 config.pg w.db)), w.db)
  unfolding verify_log async_handler
  verify-seen = simp answers refl

  export-seen :
      (o : Option (Option Filters)) (query : FilterQuery)
      → seen (async_handler (export_found config o query w, w))
        ≡ (reference_export config turn o query w.db, w.db)
  unfolding export_found export_as_json export_logs async_handler answer reference_export
  export-seen none query = refl
  export-seen (some none) query = refl
  export-seen (some (some filters)) query = simp answers refl

  router-seen :
      (r : ApiRoute) → seen (log_router config turn r w) ≡ reference_api config turn r w.db
  unfolding log_router export_logs_reply reference_api
  router-seen (post_log json) = post-seen (create_log_schema json) json
  router-seen (get_log_id id) = get-seen id
  router-seen (get_logs_page query) = page-seen query
  router-seen get_verify = verify-seen
  router-seen (get_export query) = export-seen (export_filter_schema config.zod query) query
  router-seen unmatched = refl

  route-seen :
      (key : Option Text) (r : Route)
      → seen (route_request config turn key r w) ≡ reference_route config turn key r w.db
  unfolding route_request reference_route health_check check_health healthy
  route-seen key root = refl
  route-seen key health = simp answers refl
  route-seen key other = refl
  route-seen key (api r) = elim (Bool-cases (require_api_key key config.api_key)) [
    | inl allowed ↦ simp allowed (router-seen r)
    | inr no_key ↦ simp no_key refl
  ]

  parsed-seen :
      (o : Option ℕ) (req : Request)
      → seen (after_parser config turn o req w) ≡ reference_parsed config turn o req w.db
  unfolding after_parser reference_parsed
  parsed-seen (some status) req = refl
  parsed-seen none req = elim (Bool-cases req.limited) [
    | inl many ↦ simp many refl
    | inr few ↦ simp few (route-seen req.api_key req.route)
  ]

  entered-seen :
      (b : Bool) (req : Request)
      → seen (after_cors config turn b req w) ≡ reference_entered config turn b req w.db
  unfolding after_cors reference_entered
  entered-seen true req = refl
  entered-seen false req = parsed-seen req.body_error req

  pub app-seen : (req : Request) → seen (app config turn req w) ≡ reference config turn req w.db
  unfolding app reference
  app-seen req = entered-seen req.is_options req
