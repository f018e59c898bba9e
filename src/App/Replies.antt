-- ===== src/App/Replies.antt =====
-- What GET /api/log/:id of src/app.js answers, said of the table alone.
use potens_intern_backend_sh.Common.{
  ℕ, ◌≡◌, refl, ap, ◌⊎◌, inl, inr, true, false, Option, none, some, List, Text, codes,
}
use potens_intern_backend_sh.Errors.{Thrown, Result, ok, err, database}
use potens_intern_backend_sh.Database.{Row, to_entry}
use potens_intern_backend_sh.Repository.{find_by_id}
use potens_intern_backend_sh.LogService.{World, Found, status_of, get_log_by_id}
use potens_intern_backend_sh.LogService.Coherence.{IsCoherent}
use potens_intern_backend_sh.LogService.Answers.{Answer, get_log_by_id-Answer}
use potens_intern_backend_sh.Auth.{require_api_key}
use potens_intern_backend_sh.Copies.{json_entry, entry_json-json_entry}
use potens_intern_backend_sh.Http.{
  Response, success, plain_error, global_error_handler, async_handler,
}
use potens_intern_backend_sh.Controllers.{
  Config, Turn, answer, found_json, is_empty, trim, find_log, get_log,
}
use potens_intern_backend_sh.App.{
  Request, ApiRoute, get_log_id, api, log_router, route_request, after_parser, after_cors, app,
}

-- A request that comes through the middlewares to a route below /api.
pub record IsAdmitted (config : Config) (req : Request) (r : ApiRoute) : Type 0 where
  pub passed : req.is_options ≡ false
  pub parsed : req.body_error ≡ none
  pub within_limit : req.limited ≡ false
  pub key : require_api_key req.api_key config.api_key ≡ true
  pub routed : req.route ≡ api r

pub app_of_IsAdmitted :
    (config : Config) (turn : Turn) (req : Request) (r : ApiRoute) (w : World)
    → IsAdmitted config req r
    → app config turn req w ≡ log_router config turn r w
unfolding app after_cors after_parser route_request
app_of_IsAdmitted config turn req r w admitted =
    simp (admitted.passed, admitted.parsed, admitted.within_limit, admitted.routed, admitted.key)
      refl

-- The answer that the table determines.
abbrev pub reply_of : (List ℕ → Text) → Option Row → Response
reply_of sha256 none = plain_error 404 (codes "Log entry not found")
reply_of sha256 (some row) = success (
    found_json
      (record { entry = to_entry row; verification_status = status_of sha256 (to_entry row) }))

err_injective : {e f : Thrown} → Path (Result Found) (err e) (err f) → e ≡ f
err_injective same = cc

ok_injective : {a b : Found} → ok a ≡ ok b → a ≡ b
ok_injective same = cc

module _ (sha256 : List ℕ → Text) (ttl : ℕ) (id : Text) (w : World) where
  -- The answer of the table, or that of a database that does not answer.
  abbrev pub Reply : Response → Type 0
  Reply r =
      ((w.db_answers ≡ false) × (r ≡ global_error_handler database))
      ⊎ (r ≡ reply_of sha256 (find_by_id id w.db))

  found_json_of_Answer :
      (row : Row) (f : Found)
      → f.verification_status ≡ status_of sha256 (to_entry row)
      → (f.entry ≡ to_entry row) ⊎ (f.entry ≡ json_entry (to_entry row))
      → success (found_json f) ≡ reply_of sha256 (some row)
  unfolding found_json
  found_json_of_Answer row f status (inl same) = simp (status, same) refl
  found_json_of_Answer row f status (inr copy) =
      simp (status, copy, entry_json-json_entry (to_entry row)) refl

  pub Reply-of_Answer :
      (r : Result Found × World)
      → Answer sha256 ttl id w r.0
      → Reply (async_handler (answer (λ f. success (found_json f)) r.0, r.1)).0
  unfolding async_handler answer
  Reply-of_Answer (ok f, v) (inl (silent, thrown)) = cc
  Reply-of_Answer (err e, v) (inl (silent, thrown)) =
      inl (silent, ap global_error_handler (err_injective thrown))
  Reply-of_Answer (ok f, v) (inr (inl (missing, thrown))) = cc
  Reply-of_Answer (err e, v) (inr (inl (missing, thrown))) =
      inr (simp (missing, err_injective thrown) (unfold global_error_handler in refl))
  Reply-of_Answer (err e, v) (inr (inr (row, f, stored, returned, status, shown))) = cc
  Reply-of_Answer (ok f', v) (inr (inr (row, f, stored, returned, status, shown))) =
      inr (rw (stored, ok_injective returned) (found_json_of_Answer row f status shown))

-- With a cache that agrees with the table, the response to GET /api/log/:id is determined by the
-- table alone, whether the cache has the entry or not: the row of the trimmed id with its status, or
-- 404. Only a database that does not answer makes it 500.
pub get_log-Reply :
    (config : Config) (turn : Turn) (req : Request) (id : Text) (w : World)
    → IsAdmitted config req (get_log_id id)
    → is_empty (trim id) ≡ false
    → IsCoherent w
    → Reply config.sha256 config.cache_ttl_seconds (trim id) w (app config turn req w).0
unfolding log_router get_log find_log
get_log-Reply config turn req id w admitted named coherent =
    rw (app_of_IsAdmitted config turn req (get_log_id id) w admitted) (
      simp named (
        Reply-of_Answer config.sha256 config.cache_ttl_seconds (trim id) w
          (get_log_by_id config.sha256 config.cache_ttl_seconds (trim id) w)
          (get_log_by_id-Answer config.sha256 config.cache_ttl_seconds (trim id) w coherent)))
