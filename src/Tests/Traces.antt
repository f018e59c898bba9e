-- ===== src/Tests/Traces.antt =====
-- The theorems on sequences of requests to src/app.js, and on the shapes of its responses.
use mathlib.Core.List.{Pairwise, Pairwise-cons, mem-cons, not-mem-nil}
use mathlib.Core.Logic.Or
use native.Mathlib.Bridge.{le_prop}
use potens_intern_backend_sh.Database.{Row}
use potens_intern_backend_sh.Json.{stringify}
use potens_intern_backend_sh.Repository.{count, find_all_ordered}
use potens_intern_backend_sh.Pagination.{total_pages}
use potens_intern_backend_sh.Pagination.Pages.{HasDistinctTimes}
use potens_intern_backend_sh.App.Audit.{bare, read_export}
use potens_intern_backend_sh.App.Paging.{asked, read_pages, pages_are_export}
use potens_intern_backend_sh.Common.{
  ℕ, some, arith, ◌≡◌, refl, ap, true, false, none, List, [], ◌∷◌, codes,
}
use potens_intern_backend_sh.LogService.{World}
use potens_intern_backend_sh.Http.{Response}
use potens_intern_backend_sh.Controllers.{Turn}
use potens_intern_backend_sh.App.{Request, get_logs_page, get_export, get_log_id, post_log, app}
use potens_intern_backend_sh.App.Reference.{replay}
use potens_intern_backend_sh.App.Traces.{Trace, done, serve, drift, Trace-replay}
use potens_intern_backend_sh.App.Shapes.Service.{IsReply, app-IsReply}
use potens_intern_backend_sh.Samples.{plain_pg, plain_pg-IsSorting, one_db, two_db}
use potens_intern_backend_sh.Tests.Site.{
  admitted, config, turn, world_of, coherent, request, pay_json,
}

abbrev post : Request
post = request (codes "secret") (post_log pay_json)

abbrev get : Request
get = request (codes "secret") (get_log_id (codes "b2"))

-- An entry is created, Redis fails and forgets, and the entry is read.
abbrev created : World
created = (app config turn post (world_of one_db)).1

abbrev without_redis : World
without_redis = record created {
  redis = record created.redis { up = false; answers = λ key. none };
  queue = record created.queue { accepts = false; jobs = [] };
}

abbrev calls : List (Turn × Request)
calls = (turn, post) ∷ (turn, get) ∷ []

abbrev responses : List Response
responses = (app config turn post (world_of one_db)).0 ∷ (app config turn get without_redis).0 ∷ []

abbrev last : World
last = (app config turn get without_redis).1

two_requests : Trace config (world_of one_db) calls responses last
two_requests = serve turn post (world_of one_db) (
    drift false false (λ key. none) [] created (λ key v held. absurd (cc))
      (serve turn get without_redis (done last)))

Trace-replay_example : (responses, last.db) ≡ replay config calls one_db
Trace-replay_example = Trace-replay config refl (coherent one_db) two_requests

app-IsReply_example : IsReply false true post.route (app config turn post (world_of one_db)).0
app-IsReply_example = app-IsReply config turn post (world_of one_db)

abbrev page_request : ℕ → Request
page_request page = request (codes "secret") (get_logs_page (asked page 1))

two_pages : total_pages (count (world_of two_db).db) 1 ≡ some 2
unfolding total_pages count
two_pages = refl

two_times : HasDistinctTimes plain_pg (world_of two_db).db
unfolding find_all_ordered
two_times = Pairwise-cons.1 (
  (λ a m.
      Or.elim le_prop (mem-cons.0 m)
        (λ e. let time = ap (λ (r : Row). r.created_at) e in omega (arith, time))
        (λ later. absurd (not-mem-nil later))),
  Pairwise-cons.1 ((λ a m. absurd (not-mem-nil m)), Pairwise.nil),
)

pages_are_export_example :
    read_pages config turn page_request (world_of two_db) 2
    ≡ read_export (
        stringify
          (app config turn (request (codes "secret") (get_export bare)) (world_of two_db)).0.body)
pages_are_export_example =
    pages_are_export config turn (world_of two_db) page_request
      (request (codes "secret") (get_export bare)) 1 2 plain_pg-IsSorting two_times refl
      (omega arith) (omega arith) (omega arith) (λ page. admitted (get_logs_page (asked page 1)))
      (admitted (get_export bare)) two_pages
