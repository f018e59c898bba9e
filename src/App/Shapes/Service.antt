-- ===== src/App/Shapes/Service.antt =====
-- What src/app.js answers to any request, also outside the routes below /api.
use potens_intern_backend_sh.Common.{
  ℕ, ◌≡◌, refl, inl, inr, Bool, true, false, Bool-cases, Option, none, some, Text, codes, text_eq,
}
use potens_intern_backend_sh.Json.{bool, str, obj, end, field}
use potens_intern_backend_sh.Date.{to_iso}
use potens_intern_backend_sh.LogService.{World}
use potens_intern_backend_sh.Auth.{require_api_key}
use potens_intern_backend_sh.Http.{Response, plain_error, global_error_handler, not_found_handler}
use potens_intern_backend_sh.Controllers.{Config, Turn, check_health, health_json, health_check}
use potens_intern_backend_sh.App.{
  Route, ApiRoute, root, health, api, other, Request, unauthorized, landing, route_request,
  after_parser, after_cors, no_content, app,
}
use potens_intern_backend_sh.App.Shapes.{IsRefusal, IsTyped, kind_of}
use potens_intern_backend_sh.App.Shapes.Routes.{log_router-IsTyped}

-- What GET /health answers while the database answers, and while it does not.
abbrev pub IsHealth : Bool → Response → Type 0
IsHealth true r =
    (time : Text) × (r.status ≡ 200)
    × (r.body
        ≡ health_json (record { status = codes "ok"; database = codes "ok"; timestamp = time }))
IsHealth false r =
    (time : Text) × (r.status ≡ 503)
    × (r.body
        ≡ health_json (record {
          status = codes "degraded";
          database = codes "unreachable";
          timestamp = time;
        }))

-- What the service answers on a route: what the route below /api does; 401, 429 and 500 from the
-- middlewares; 404 where there is none; and the pages of GET / and GET /health.
pub data IsAnswer (answers : Bool) : Route → Response → Type 0 where
  routed :
      (route : ApiRoute) (r : Response) → IsTyped (kind_of route) r → IsAnswer answers (api route) r
  locked :
      (route : ApiRoute) (r : Response)
      → r.status ≡ 401
      → r.body
        ≡ obj (
            field
              (codes "success")
              (bool false)
              (field (codes "error") (str (codes "Unauthorized")) end))
      → IsAnswer answers (api route) r
  limited :
      (route : Route) (r : Response) → r.status ≡ 429 → IsRefusal r.body → IsAnswer answers route r
  unread :
      (route : Route) (r : Response) → r.status ≡ 500 → IsRefusal r.body → IsAnswer answers route r
  missed : (r : Response) → r.status ≡ 404 → IsRefusal r.body → IsAnswer answers other r
  page : (r : Response) → r ≡ landing → IsAnswer answers root r
  probe : (r : Response) → IsHealth answers r → IsAnswer answers health r

-- To OPTIONS, 204; to another method, one of the answers above.
abbrev pub IsReply : Bool → Bool → Route → Response → Type 0
IsReply true answers route r = (r ≡ no_content)
IsReply false answers route r = IsAnswer answers route r

health_check-IsHealth : (turn : Turn) (w : World) → IsHealth w.db_answers (health_check turn w)
unfolding health_check check_health text_eq
health_check-IsHealth turn w = elim (Bool-cases w.db_answers) [
  | inl answers ↦ simp answers (to_iso turn.now, refl, refl)
  | inr silent ↦ simp silent (to_iso turn.now, refl, refl)
]

module _ (config : Config) (turn : Turn) (w : World) where
  api-IsAnswer :
      (key : Option Text) (r : ApiRoute)
      → IsAnswer w.db_answers (api r) (route_request config turn key (api r) w).0
  unfolding route_request unauthorized
  api-IsAnswer key r = elim (Bool-cases (require_api_key key config.api_key)) [
    | inl passed ↦ simp passed (routed r _ (log_router-IsTyped config turn r w))
    | inr refused ↦ simp refused (locked r _ refl refl)
  ]

  route_request-IsAnswer :
      (key : Option Text) (route : Route)
      → IsAnswer w.db_answers route (route_request config turn key route w).0
  unfolding route_request not_found_handler plain_error
  route_request-IsAnswer key root = page _ refl
  route_request-IsAnswer key health = probe _ (health_check-IsHealth turn w)
  route_request-IsAnswer key other =
      missed _ refl (record { message = codes "Not Found"; rest = end; shape = refl })
  route_request-IsAnswer key (api r) = api-IsAnswer key r

  after_parser-IsAnswer :
      (o : Option ℕ) (req : Request)
      → IsAnswer w.db_answers req.route (after_parser config turn o req w).0
  unfolding after_parser global_error_handler plain_error
  after_parser-IsAnswer (some status) req =
      unread req.route _ refl
        (record { message = codes "Internal Server Error"; rest = end; shape = refl })
  after_parser-IsAnswer none req = elim (Bool-cases req.limited) [
    | inl many ↦ simp many (
        limited req.route _ refl
          (record { message = codes "Too Many Requests"; rest = end; shape = refl }))
    | inr few ↦ simp few (route_request-IsAnswer req.api_key req.route)
  ]

  after_cors-IsReply :
      (b : Bool) (req : Request)
      → IsReply b w.db_answers req.route (after_cors config turn b req w).0
  unfolding after_cors
  after_cors-IsReply true req = refl
  after_cors-IsReply false req = after_parser-IsAnswer req.body_error req

-- Every response of the service to OPTIONS is the 204 of cors, and to another method one of these.
-- Below /api: 201 with an ApiResponse to POST /api/log, 200 with a PaginatedResponse to GET /api/logs,
-- 200 with an ApiResponse to the other three routes, 422 with an ErrorResponse to GET /api/export, 400,
-- 404, 422 or 500 with a body that starts with its error, or 401 with
-- `{ success: false, error: 'Unauthorized' }`. To GET /: the landing page. To GET /health: 200 exactly
-- if the database answers and 503 otherwise. To any other route: 404 with its error. To any: 429 or
-- 500 with its error.
pub app-IsReply :
    (config : Config) (turn : Turn) (req : Request) (w : World)
    → IsReply req.is_options w.db_answers req.route (app config turn req w).0
unfolding app
app-IsReply config turn req w = after_cors-IsReply config turn w req.is_options req
