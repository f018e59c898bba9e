-- ===== src/App/Keeps.antt =====
-- Invariants of the operations of src/services/log.service.js, carried over to the requests to
-- src/app.js.
use mathlib.Core.Path.{subst}
use potens_intern_backend_sh.Common.{
  ◌≡◌, refl, sym, inl, inr, Option, none, some, Text, Bool-cases, ℕ, Bool, true, false,
}
use potens_intern_backend_sh.Json.{Json}
use potens_intern_backend_sh.LogService.{World, Body, create_log_entry, get_log_by_id}
use potens_intern_backend_sh.Auth.{require_api_key}
use potens_intern_backend_sh.Validation.{create_log_schema}
use potens_intern_backend_sh.Controllers.{
  Config, Turn, create_log, get_log, get_logs, verify_log, export_logs_reply, find_log, is_empty,
  trim,
}
use potens_intern_backend_sh.App.{
  Request, Route, root, health, other, ApiRoute, post_log, get_log_id, get_logs_page, get_verify,
  get_export, unmatched, api, post_log_body, log_router, route_request, after_parser, after_cors,
  app,
}
use potens_intern_backend_sh.App.Writes.{async_handler-snd}

-- Each body that the request may create an entry of is one that is meant.
abbrev pub AllowsApi : (Body → Type 0) → ApiRoute → Type 0
AllowsApi Meant (post_log json) = (body : Body) → create_log_schema json ≡ some body → Meant body
AllowsApi Meant _ = Unit

abbrev pub Allows : (Body → Type 0) → Route → Type 0
Allows Meant (api r) = AllowsApi Meant r
Allows Meant _ = Unit

module _ (config : Config) (Meant : Body → Type 0) (P : World → Type 0)
    (create_keeps : (turn : Turn) (body : Body) (w : World)
      → Meant body
      → P w
      → P
          (create_log_entry config.sha256 config.pg config.cache_ttl_seconds turn.fails turn.uuid
            turn.now body w).1)
    (read_keeps : (id : Text) (w : World)
      → P w
      → P (get_log_by_id config.sha256 config.cache_ttl_seconds id w).1)
    (turn : Turn) where
  post_log_body-keeps :
      (o : Option Body) (json : Json) (w : World)
      → ((body : Body) → o ≡ some body → Meant body)
      → P w
      → P (post_log_body config turn o json w).1
  unfolding post_log_body create_log
  post_log_body-keeps none json w meant h = h
  post_log_body-keeps (some body) json w meant h =
      subst P (sym (async_handler-snd (create_log config turn body w)))
        (create_keeps turn body w (meant body refl) h)

  get_log-keeps : (id : Text) (w : World) → P w → P (get_log config id w).1
  unfolding get_log find_log
  get_log-keeps id w h = elim (Bool-cases (is_empty (trim id))) [
    | inl blank ↦ simp blank h
    | inr named ↦ simp named (read_keeps (trim id) w h)
  ]

  log_router-keeps :
      (r : ApiRoute) (w : World) → AllowsApi Meant r → P w → P (log_router config turn r w).1
  unfolding log_router
  log_router-keeps (post_log json) w m h = post_log_body-keeps (create_log_schema json) json w m h
  log_router-keeps (get_log_id id) w m h =
      subst P (sym (async_handler-snd (get_log config id w))) (get_log-keeps id w h)
  log_router-keeps (get_logs_page query) w m h =
      subst P (sym (async_handler-snd (get_logs config query w, w))) h
  log_router-keeps get_verify w m h = subst P (sym (async_handler-snd (verify_log config w, w))) h
  log_router-keeps (get_export query) w m h =
      subst P (sym (async_handler-snd (export_logs_reply config query w, w))) h
  log_router-keeps unmatched w m h = h

  route_request-keeps :
      (key : Option Text) (r : Route) (w : World)
      → Allows Meant r
      → P w
      → P (route_request config turn key r w).1
  unfolding route_request
  route_request-keeps key root w m h = h
  route_request-keeps key health w m h = h
  route_request-keeps key other w m h = h
  route_request-keeps key (api r) w m h = elim (Bool-cases (require_api_key key config.api_key)) [
    | inl allowed ↦ simp allowed (log_router-keeps r w m h)
    | inr refused ↦ simp refused h
  ]

  pub app-keeps :
      (req : Request) (w : World) → Allows Meant req.route → P w → P (app config turn req w).1
  unfolding app after_cors after_parser
  app-keeps req w m h = entered req.is_options
    where
      parsed : (e : Option ℕ) → P (after_parser config turn e req w).1
      parsed (some status) = h
      parsed none = elim (Bool-cases req.limited) [
        | inl many ↦ simp many h
        | inr few ↦ simp few (route_request-keeps req.api_key req.route w m h)
      ]

      entered : (b : Bool) → P (after_cors config turn b req w).1
      entered true = h
      entered false = parsed req.body_error
