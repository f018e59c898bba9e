-- ===== src/App/Access.antt =====
-- What a request without the key can do to the service of src/app.js, and learn from it.
use potens_intern_backend_sh.Common.{
  ◌≡◌, refl, Bool, true, false, Option, none, some, Text, Bool-cases, inl, inr,
}
use potens_intern_backend_sh.LogService.{World}
use potens_intern_backend_sh.Auth.{require_api_key}
use potens_intern_backend_sh.Http.{Response}
use potens_intern_backend_sh.Controllers.{Config, Turn, check_health, health_check}
use potens_intern_backend_sh.App.{
  Request, Route, root, health, api, other, route_request, after_parser, after_cors, app,
}

-- Two runs with one response, the first of which leaves its world as it was.
abbrev Blind : World → Response × World → Response × World → Type 0
Blind w r s = (r.0 ≡ s.0) × (r.1 ≡ w)

module _ (config : Config) (turn : Turn) (w v : World) (same : w.db_answers ≡ v.db_answers) where
  route_request-Blind :
      (key : Option Text) (r : Route)
      → require_api_key key config.api_key ≡ false
      → Blind w (route_request config turn key r w) (route_request config turn key r v)
  unfolding route_request check_health health_check
  route_request-Blind key root refused = (refl, refl)
  route_request-Blind key health refused = (simp same refl, refl)
  route_request-Blind key other refused = (refl, refl)
  route_request-Blind key (api r) refused = simp refused (refl, refl)

  -- A request whose header `requireApiKey` refuses changes nothing, and its response does not depend
  -- on the log, the cache or the queue, but at most on whether the database answers.
  pub unauthorized_blind :
      (req : Request)
      → require_api_key req.api_key config.api_key ≡ false
      → ((app config turn req w).0 ≡ (app config turn req v).0) × ((app config turn req w).1 ≡ w)
  unfolding app after_cors after_parser
  unauthorized_blind req refused = entered req.is_options
    where
      parsed :
          (e : Option _)
          → Blind w (after_parser config turn e req w) (after_parser config turn e req v)
      parsed (some status) = (refl, refl)
      parsed none = elim (Bool-cases req.limited) [
        | inl many ↦ simp many (refl, refl)
        | inr few ↦ simp few (route_request-Blind req.api_key req.route refused)
      ]

      entered :
          (b : Bool) → Blind w (after_cors config turn b req w) (after_cors config turn b req v)
      entered true = (refl, refl)
      entered false = parsed req.body_error
