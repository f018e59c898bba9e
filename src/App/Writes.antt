-- ===== src/App/Writes.antt =====
-- Which requests to src/app.js write to the tables.
use mathlib.Core.Path.{subst}
use potens_intern_backend_sh.Common.{
  ◌≡◌, refl, ap, codes, ◌∙◌, sym, if◌then◌else◌, ◌⊎◌, inl, inr, Bool, true, Option, none, some,
  Text, Bool-cases, Option-cases, false,
}
use potens_intern_backend_sh.Json.{Json}
use potens_intern_backend_sh.Hash.{LogEntry}
use potens_intern_backend_sh.Errors.{Result, ok, err}
use potens_intern_backend_sh.Database.{Row, to_entry}
use potens_intern_backend_sh.Repository.Creation.{IsCreated}
use potens_intern_backend_sh.LogService.{World, Body, create_log_entry}
use potens_intern_backend_sh.LogService.Creation.{to_dto, Effect, create_log_entry-Effect}
use potens_intern_backend_sh.LogService.Reads.{get_log_by_id-db}
use potens_intern_backend_sh.Auth.{require_api_key}
use potens_intern_backend_sh.Validation.{create_log_schema}
use potens_intern_backend_sh.Copies.{entry_json}
use potens_intern_backend_sh.Http.{Response, created, plain_error, async_handler}
use potens_intern_backend_sh.Controllers.{
  Config, Turn, answer, create_log, get_log, find_log, is_empty, trim, get_logs, verify_log,
  export_logs_reply,
}
use potens_intern_backend_sh.App.{
  Request, Route, root, health, other, ApiRoute, post_log, get_log_id, get_logs_page, get_verify,
  get_export, unmatched, api, post_log_body, unauthorized, log_router, route_request, after_parser,
  after_cors, app,
}

pub async_handler-snd {ℓ} : {S : Type ℓ} (r : Result Response × S) → (async_handler r).1 ≡ r.1
unfolding async_handler
async_handler-snd (ok response, s) = refl
async_handler-snd (err e, s) = refl

module _ (config : Config) (turn : Turn) where
  -- A response to a body that has been validated.
  abbrev pub Created : Body → World → Response × World → Type 0
  Created body w (response, after) =
      (row : Row) × IsCreated config.sha256 config.pg turn.uuid (to_dto turn.now body) w.db after.db
        row
      × (response ≡ created (entry_json (to_entry row)))

  -- The tables are untouched, or a request with the key and a valid body has appended a row and got
  -- it as its answer.
  abbrev pub Writes : Request → World → Response × World → Type 0
  Writes req w r =
      (r.1.db ≡ w.db)
      ⊎ ((json : Json) × (body : Body) × (req.route ≡ api (post_log json))
          × (require_api_key req.api_key config.api_key ≡ true)
          × (create_log_schema json ≡ some body)
          × Created body w r)

  created_of_Effect :
      (body : Body) (w : World) (r : Result LogEntry × World)
      → Effect config.sha256 config.pg config.cache_ttl_seconds turn.uuid turn.now body w r
      → ((async_handler (answer (λ e. created (entry_json e)) r.0, r.1)).1 ≡ w)
        ⊎ Created body w (async_handler (answer (λ e. created (entry_json e)) r.0, r.1))
  unfolding async_handler answer
  created_of_Effect body w (ok x, after) (inl (e, thrown, same)) = inl same
  created_of_Effect body w (err x, after) (inl (e, thrown, same)) = inl same
  created_of_Effect body w (ok x, after) (inr (row, returned, made, cache, queue)) =
      let same : x ≡ to_entry row = cc in
      inr (row, made, ap (λ (y : LogEntry). created (entry_json y)) same)
  created_of_Effect body w (err e, after) (inr (row, returned, made, cache, queue)) = cc

  post_log_body-Created :
      (body : Body) (json : Json) (w : World)
      → ((post_log_body config turn (some body) json w).1 ≡ w)
        ⊎ Created body w (post_log_body config turn (some body) json w)
  unfolding post_log_body create_log
  post_log_body-Created body json w =
      created_of_Effect body w
        (create_log_entry config.sha256 config.pg config.cache_ttl_seconds turn.fails turn.uuid
          turn.now body w)
        (create_log_entry-Effect config.sha256 config.pg config.cache_ttl_seconds turn.fails
          turn.uuid turn.now body w)

  pub get_log-db : (id : Text) (w : World) → (get_log config id w).1.db ≡ w.db
  unfolding get_log find_log
  get_log-db id w =
      let read = get_log_by_id-db config.sha256 config.cache_ttl_seconds (trim id) w in
      elim (Bool-cases (is_empty (trim id))) [
        | inl blank ↦ simp blank refl
        | inr named ↦ simp named read
      ]

  log_router-Writes :
      (req : Request) (r : ApiRoute) (w : World)
      → req.route ≡ api r
      → require_api_key req.api_key config.api_key ≡ true
      → Writes req w (log_router config turn r w)
  unfolding log_router post_log_body
  log_router-Writes req (post_log json) w at_route allowed =
      elim (Option-cases (create_log_schema json)) [
        | inl invalid ↦ inl (simp invalid refl)
        | inr (body, valid) ↦
            subst (λ (o : Option Body). Writes req w (post_log_body config turn o json w))
              (sym valid)
              (elim (post_log_body-Created body json w) [
                | inl same ↦ inl (ap (λ (v : World). v.db) same)
                | inr made ↦ inr (json, body, at_route, allowed, valid, made)
              ])
      ]
  log_router-Writes req (get_log_id id) w at_route allowed =
      inl (ap (λ (v : World). v.db) (async_handler-snd (get_log config id w)) ∙ get_log-db id w)
  log_router-Writes req (get_logs_page query) w at_route allowed =
      inl (ap (λ (v : World). v.db) (async_handler-snd (get_logs config query w, w)))
  log_router-Writes req get_verify w at_route allowed =
      inl (ap (λ (v : World). v.db) (async_handler-snd (verify_log config w, w)))
  log_router-Writes req (get_export query) w at_route allowed =
      inl (ap (λ (v : World). v.db) (async_handler-snd (export_logs_reply config query w, w)))
  log_router-Writes req unmatched w at_route allowed = inl refl

  route_request-Writes :
      (req : Request) (r : Route) (w : World)
      → req.route ≡ r
      → Writes req w (route_request config turn req.api_key r w)
  unfolding route_request
  route_request-Writes req root w at_route = inl refl
  route_request-Writes req health w at_route = inl refl
  route_request-Writes req other w at_route = inl refl
  route_request-Writes req (api r) w at_route =
      elim (Bool-cases (require_api_key req.api_key config.api_key)) [
        | inl allowed ↦
            subst
              (λ (b : Bool).
                Writes req w (if b then log_router config turn r w else (unauthorized, w)))
              (sym allowed) (log_router-Writes req r w at_route allowed)
        | inr refused ↦ inl (simp refused refl)
      ]

  -- A request leaves the tables as they are; but a request to POST /api/log with the key and a body
  -- that the schema accepts may append one row, which links to the chain head and moves it, and then
  -- the response is 201 with that row.
  pub app-Writes : (req : Request) (w : World) → Writes req w (app config turn req w)
  unfolding app after_cors after_parser
  app-Writes req w = entered req.is_options
    where
      parsed : (e : Option _) → Writes req w (after_parser config turn e req w)
      parsed (some status) = inl refl
      parsed none = elim (Bool-cases req.limited) [
        | inl many ↦ inl (simp many refl)
        | inr few ↦
            subst
              (λ (b : Bool). Writes req w (
                if b
                then (plain_error 429 (codes "Too Many Requests"), w)
                else route_request config turn req.api_key req.route w))
              (sym few) (route_request-Writes req req.route w refl)
      ]

      entered : (b : Bool) → Writes req w (after_cors config turn b req w)
      entered true = inl refl
      entered false = parsed req.body_error
