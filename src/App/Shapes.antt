-- ===== src/App/Shapes.antt =====
-- The statuses and the bodies that src/app.js answers with, against the shapes of src/types/index.js.
pub mod Routes
pub mod Service
use mathlib.Core.Path.{subst}
use potens_intern_backend_sh.Common.{
  ℕ, suc, zero, ◌≤◌, ◌≡◌, refl, sym, ap, ◌⊎◌, inl, inr, Bool, true, false, Option, none, some, List,
  Text, codes, Bool-cases, Option-cases, arith, if◌then◌else◌,
}
use potens_intern_backend_sh.Json.{Json, str, arr, obj, Items, Fields, end, field}
use potens_intern_backend_sh.Hash.{LogEntry}
use potens_intern_backend_sh.Errors.{
  Result, ok, err, Thrown, app_error, reading_undefined, database, body_parser, new_app_error,
}
use potens_intern_backend_sh.Database.{Row, Db}
use potens_intern_backend_sh.Repository.Throws.{
  ThrowsInternal, create_with_transaction-ThrowsInternal,
}
use potens_intern_backend_sh.LogService.{
  World, Body, Found, Page, after_commit, create_log_entry, load_entry, after_cache, get_log_by_id,
  get_all_log_entries, export_logs, export_as_json,
}
use potens_intern_backend_sh.LogService.Creation.{to_dto}
use potens_intern_backend_sh.Pagination.{
  PageQuery, parse_pagination, PaginationMeta, build_pagination_meta, total_pages,
}
use potens_intern_backend_sh.Pagination.Bounds.{parse_pagination_bounds}
use potens_intern_backend_sh.Repository.{Filters, create_with_transaction}
use potens_intern_backend_sh.Validation.{
  FilterQuery, Issue, details, validation_error, create_log_schema, export_filter_schema,
}
use potens_intern_backend_sh.Copies.{entry_json}
use potens_intern_backend_sh.Http.{
  Response, success, created, error, paginated, plain_error, not_found_handler,
  global_error_handler, async_handler, optional, number,
}
use potens_intern_backend_sh.Types.{
  array_of, IsApiResponse, IsErrorResponse, IsPaginationMeta, IsPaginatedResponse,
}
use potens_intern_backend_sh.Controllers.{
  Config, Turn, answer, create_log, find_log, get_log, get_logs, verify_log, export_found,
  export_logs_reply, meta_json, total_pages_json, is_empty, trim, found_json,
}
use potens_intern_backend_sh.App.{
  ApiRoute, post_log, get_log_id, get_logs_page, get_verify, get_export, unmatched, post_log_body,
  log_router,
}

-- A body that starts with its error, as those of the error handlers do.
pub record IsRefusal (j : Json) : Type 0 where
  pub message : Text
  pub rest : Fields
  pub shape : j ≡ obj (field (codes "error") (str message) rest)

-- What a route below /api does for a client.
pub data Kind : Type 0 where
  posting fetching listing exporting missing : Kind

abbrev pub kind_of : ApiRoute → Kind
kind_of (post_log json) = posting
kind_of (get_log_id id) = fetching
kind_of (get_logs_page query) = listing
kind_of get_verify = fetching
kind_of (get_export query) = exporting
kind_of unmatched = missing

-- The documented answer: 201 with an ApiResponse to a post; 200 with a PaginatedResponse to a list;
-- 200 with an ApiResponse to any other read; and 422 with an ErrorResponse to an export that cannot
-- be read.
abbrev pub IsDone : Kind → Response → Type 0
IsDone posting r = (r.status ≡ 201) × IsApiResponse r.body
IsDone fetching r = (r.status ≡ 200) × IsApiResponse r.body
IsDone listing r = (r.status ≡ 200) × IsPaginatedResponse r.body
IsDone exporting r =
    ((r.status ≡ 200) × IsApiResponse r.body) ⊎ ((r.status ≡ 422) × IsErrorResponse r.body)
IsDone missing r = ⊥

-- The documented answer; or 400, 404, 422 or 500 with an error of another shape.
pub data IsTyped (k : Kind) : Response → Type 0 where
  done : (r : Response) → IsDone k r → IsTyped k r
  refused :
      (r : Response)
      → (r.status ≡ 400) ⊎ (r.status ≡ 404) ⊎ (r.status ≡ 422) ⊎ (r.status ≡ 500)
      → IsRefusal r.body
      → IsTyped k r

success-IsApiResponse : (j : Json) → ((success j).status ≡ 200) × IsApiResponse (success j).body
unfolding success optional
success-IsApiResponse j =
    (refl, record { message = codes "Success"; payload = some j; shape = refl })

success-IsTyped : (j : Json) → IsTyped fetching (success j)
success-IsTyped j = done _ (success-IsApiResponse j)

exported-IsTyped : (j : Json) → IsTyped exporting (success j)
exported-IsTyped j = done _ (inl (success-IsApiResponse j))

created-IsTyped : (j : Json) → IsTyped posting (created j)
unfolding created optional
created-IsTyped j = done _ (
  refl,
  record { message = codes "Resource created successfully"; payload = some j; shape = refl },
)

internal-IsTyped :
    {k : Kind} (e : Thrown) → ThrowsInternal {A = Json} (err e) → IsTyped k (global_error_handler e)
unfolding global_error_handler plain_error
internal-IsTyped (app_error e) h = elim h [ ]
internal-IsTyped reading_undefined h =
    refused _ (inr (inr (inr refl)))
      (record { message = codes "Internal Server Error"; rest = end; shape = refl })
internal-IsTyped database h =
    refused _ (inr (inr (inr refl)))
      (record { message = codes "Internal Server Error"; rest = end; shape = refl })
internal-IsTyped (body_parser status) h =
    refused _ (inr (inr (inr refl)))
      (record { message = codes "Internal Server Error"; rest = end; shape = refl })

-- The two AppErrors that the code throws, and the errors of the services.
abbrev not_found_error : Thrown
not_found_error = app_error (new_app_error (codes "Log entry not found") 404 (codes "NOT_FOUND"))

abbrev invalid_id_error : Thrown
invalid_id_error = app_error (new_app_error (codes "Invalid id") 400 (codes "INVALID_ID"))

abbrev IsKnown : Thrown → Type 0
IsKnown e = ThrowsInternal {A = Json} (err e) ⊎ (e ≡ not_found_error) ⊎ (e ≡ invalid_id_error)

abbrev ThrowsKnown : {A : Type 0} → Result A → Type 0
ThrowsKnown (ok a) = Unit
ThrowsKnown (err e) = IsKnown e

missing-IsTyped : {k : Kind} → IsTyped k (global_error_handler not_found_error)
unfolding global_error_handler plain_error
missing-IsTyped =
    refused _ (inr (inl refl))
      (record { message = codes "Log entry not found"; rest = end; shape = refl })

blank-IsTyped : {k : Kind} → IsTyped k (global_error_handler invalid_id_error)
unfolding global_error_handler plain_error
blank-IsTyped =
    refused _ (inl refl) (record { message = codes "Invalid id"; rest = end; shape = refl })

known-IsTyped : {k : Kind} (e : Thrown) → IsKnown e → IsTyped k (global_error_handler e)
known-IsTyped e (inl internal) = internal-IsTyped e internal
known-IsTyped {k} e (inr (inl absent)) =
    subst (λ (x : Thrown). IsTyped k (global_error_handler x)) (sym absent) missing-IsTyped
known-IsTyped {k} e (inr (inr blank)) =
    subst (λ (x : Thrown). IsTyped k (global_error_handler x)) (sym blank) blank-IsTyped

-- A handler whose answer is typed, and which throws known errors only.
handler-IsTyped :
    {k : Kind} {A S : Type 0} (f : A → Response) (r : Result A) (s : S)
    → ((a : A) → IsTyped k (f a))
    → ThrowsKnown r
    → IsTyped k (async_handler (answer f r, s)).0
unfolding async_handler answer
handler-IsTyped f (ok a) s typed known = typed a
handler-IsTyped f (err e) s typed known = known-IsTyped e known

some_total_pages :
    (total page_size : ℕ) → 1 ≤ page_size → (n : ℕ) × (total_pages total page_size ≡ some n)
unfolding total_pages
some_total_pages zero page_size h = (0, refl)
some_total_pages (suc total) zero h = absurd (omega (arith, h))
some_total_pages (suc total) (suc size) h = (_, refl)

meta_json-IsPaginationMeta :
    (page page_size total : ℕ)
    → 1 ≤ page_size
    → IsPaginationMeta (meta_json (build_pagination_meta page page_size total))
unfolding meta_json build_pagination_meta total_pages_json
meta_json-IsPaginationMeta page page_size total h =
    let (n, finite) = some_total_pages total page_size h in
    record { page = page; page_size = page_size; total = total; total_pages = n; shape = rw finite }

paginated-IsTyped :
    (xs : Items) (info : Json) → IsPaginationMeta info → IsTyped listing (paginated (arr xs) info)
unfolding paginated
paginated-IsTyped xs info h =
    done _
      (refl, record { message = codes "Success"; items = xs; info = info; meta = h; shape = refl })

error-IsTyped :
    (xs : Items) → IsTyped exporting (error 422 (codes "Validation Error") (some (arr xs)))
unfolding error array_of
error-IsTyped xs =
    done _
      (inr (refl, record { message = codes "Validation Error"; details = some xs; shape = refl }))

validation_error-IsTyped : (issues : List Issue) → IsTyped posting (validation_error issues)
unfolding validation_error
validation_error-IsTyped issues = refused _ (inr (inr (inl refl))) (record {
  message = codes "Validation Error";
  rest = field (codes "details") (arr (details issues)) end;
  shape = refl;
})

not_found_handler-IsTyped : IsTyped missing not_found_handler
unfolding not_found_handler plain_error
not_found_handler-IsTyped =
    refused _ (inr (inl refl)) (record { message = codes "Not Found"; rest = end; shape = refl })

database-IsTyped : {k : Kind} → IsTyped k (global_error_handler database)
database-IsTyped = internal-IsTyped database tt
