-- ===== src/App.antt =====
-- src/app.js, src/routes/log.routes.js and src/routes/health.routes.js: the middlewares in their
-- order, and the routes. Express matches the path and the method; what it has found is the `Route`.
-- helmet and pino add headers and log lines only, and are left out; so are the headers of cors.
pub mod Access
pub mod Writes
pub mod Keeps
pub mod Runs
pub mod Replies
pub mod RoundTrip
pub mod Shapes
pub mod Reference
pub mod Refinement
pub mod Traces
pub mod Audit
pub mod Paging
use potens_intern_backend_sh.Common.{
  ℕ, Bool, true, false, Option, none, some, Text, codes, if◌then◌else◌,
}
use potens_intern_backend_sh.Json.{Json, null, bool, str, obj, end, field}
use potens_intern_backend_sh.Errors.{body_parser}
use potens_intern_backend_sh.LogService.{World, Body}
use potens_intern_backend_sh.Pagination.{PageQuery}
use potens_intern_backend_sh.Validation.{FilterQuery, create_log_schema, validation_error}
use potens_intern_backend_sh.Auth.{require_api_key}
use potens_intern_backend_sh.Http.{
  Response, plain_error, not_found_handler, global_error_handler, async_handler,
}
use potens_intern_backend_sh.Controllers.{
  Config, Turn, create_log, get_log, get_logs, verify_log, export_logs_reply, health_check,
}

-- The routes of logRouter; `unmatched` is any other path below /api, or another method
-- but OPTIONS.
pub data ApiRoute : Type 0 where
  post_log : Json → ApiRoute
  get_log_id : Text → ApiRoute
  get_logs_page : PageQuery → ApiRoute
  get_verify : ApiRoute
  get_export : FilterQuery → ApiRoute
  unmatched : ApiRoute

pub data Route : Type 0 where
  root : Route
  health : Route
  api : ApiRoute → Route
  other : Route

-- `is_options` is whether the method is OPTIONS; `body_error` is the status of the error of
-- express.json, on a body that it cannot read or that is too large; `limited` is whether
-- express-rate-limit has had too many requests.
pub record Request : Type 0 where
  pub is_options : Bool
  pub body_error : Option ℕ
  pub limited : Bool
  pub api_key : Option Text
  pub route : Route

-- What cors answers to OPTIONS; `null` stands for no body.
abbrev pub no_content : Response
no_content = record { status = 204; body = null }

unfoldable pub unauthorized : Response
unauthorized = record {
  status = 401;
  body = obj (
      field (codes "success") (bool false)
        (field (codes "error") (str (codes "Unauthorized")) end));
}

unfoldable pub landing : Response
landing = record {
  status = 200;
  body = obj (
      field (codes "success") (bool true) (
        field (codes "message") (str (codes "Tamper-Evident Log Service Running")) (
          field (codes "version") (str (codes "1.0.0")) (
            field (codes "endpoints")
              (obj (
                field (codes "health") (str (codes "GET /health")) (
                  field (codes "createLog") (str (codes "POST /api/log")) (
                    field (codes "getLog") (str (codes "GET /api/log/:id")) (
                      field (codes "listLogs") (str (codes "GET /api/logs")) (
                        field (codes "verify") (str (codes "GET /api/verify"))
                          (field (codes "export") (str (codes "GET /api/export")) end)))))))
              (field (codes "note") (str (codes "All /api/* endpoints require x-api-key header"))
                end)))));
}

module _ (config : Config) (turn : Turn) where
  -- `validateBody(CreateLogSchema)`, then `createLog`.
  unfoldable pub post_log_body : Option Body → Json → World → Response × World
  post_log_body none json w = (validation_error (config.zod.body_issues json), w)
  post_log_body (some body) json w = async_handler (create_log config turn body w)

  unfoldable pub log_router : ApiRoute → World → Response × World
  unfolding post_log_body
  log_router (post_log json) w = post_log_body (create_log_schema json) json w
  log_router (get_log_id id) w = async_handler (get_log config id w)
  log_router (get_logs_page query) w = async_handler (get_logs config query w, w)
  log_router get_verify w = async_handler (verify_log config w, w)
  log_router (get_export query) w = async_handler (export_logs_reply config query w, w)
  log_router unmatched w = (not_found_handler, w)

  -- `logRouter.use(requireApiKey)` comes before the routes.
  unfoldable pub route_request : Option Text → Route → World → Response × World
  unfolding log_router unauthorized landing
  route_request key root w = (landing, w)
  route_request key health w = (health_check turn w, w)
  route_request key other w = (not_found_handler, w)
  route_request key (api r) w =
      if require_api_key key config.api_key then log_router r w else (unauthorized, w)

  unfoldable pub after_parser : Option ℕ → Request → World → Response × World
  unfolding route_request
  after_parser (some status) req w = (global_error_handler (body_parser status), w)
  after_parser none req w =
      if req.limited
      then (plain_error 429 (codes "Too Many Requests"), w)
      else route_request req.api_key req.route w

  -- cors ends every OPTIONS request, which no later middleware sees.
  unfoldable pub after_cors : Bool → Request → World → Response × World
  unfolding after_parser
  after_cors true req w = (no_content, w)
  after_cors false req w = after_parser req.body_error req w

  -- `createApp`, as a function of one request.
  unfoldable pub app : Request → World → Response × World
  unfolding after_cors
  app req w = after_cors req.is_options req w
