-- ===== src/Validation.antt =====
-- src/validators/log.validator.js and src/middlewares/validate.middleware.js. Which values a schema
-- accepts is documented by zod and modelled here; what it reports of the others, and what it takes
-- for a date and time, are parameters.
pub mod Bounds
use potens_intern_backend_sh.Common.{
  ℕ, ◌&&◌, Option, none, some, List, [], ◌∷◌, Text, codes, text_eq, join, length, leb,
  if◌then◌else◌,
}
use potens_intern_backend_sh.Json.{
  Json, null, str, arr, obj, Items, nil, cons, Fields, end, field, property_of,
}
use potens_intern_backend_sh.Repository.{Filters}
use potens_intern_backend_sh.LogService.{Body}
use potens_intern_backend_sh.Http.{Response}

pub record Issue : Type 0 where
  pub path : List Text
  pub message : Text

-- The query of an export; a parameter that is given twice is an array.
pub record FilterQuery : Type 0 where
  pub actor : Option Json
  pub from_time : Option Json
  pub to_time : Option Json

-- `datetime` is `z.string().datetime()` followed by `new Date`, in milliseconds: the text is refused,
-- or it is accepted and its date is invalid (2024-99-99T99:99:99Z) or a time.
pub record Zod : Type 0 where
  pub body_issues : Json → List Issue
  pub filter_issues : FilterQuery → List Issue
  pub datetime : Text → Option (Option ℕ)

-- `z.string().min(1).max(n)`
unfoldable pub text_within : ℕ → Option Json → Option Text
text_within n (some (str t)) = if leb 1 (length t) && leb (length t) n then some t else none
text_within n _ = none

-- `z.record` leaves a key `__proto__` out.
unfoldable pub without_proto : Fields → Fields
unfolding text_eq
without_proto end = end
without_proto (field k v fs) =
    let rest = without_proto fs in if text_eq k (codes "__proto__") then rest else field k v rest

-- `z.record(z.unknown()).nullable().optional().default(null)`
unfoldable pub record_or_null : Option Json → Option Json
unfolding without_proto
record_or_null none = some null
record_or_null (some null) = some null
record_or_null (some (obj fs)) = some (obj (without_proto fs))
record_or_null (some _) = none

unfoldable pub body_of : Option Text → Option Text → Option Json → Option Body
body_of (some actor) (some action) (some payload) =
    some (record { actor = actor; action = action; payload = some payload })
body_of _ _ _ = none

unfoldable pub create_log_schema : Json → Option Body
unfolding property_of text_within record_or_null body_of
create_log_schema (obj fs) =
    body_of (text_within 100 (property_of (codes "actor") fs))
      (text_within 500 (property_of (codes "action") fs))
      (record_or_null (property_of (codes "payload") fs))
create_log_schema _ = none

-- `z.string().optional()`
unfoldable pub optional_text : Option Json → Option (Option Text)
optional_text none = some none
optional_text (some (str t)) = some (some t)
optional_text (some _) = none

-- What a parameter that holds a date comes to: no date, an invalid one, or a time.
pub data Moment : Type 0 where
  absent invalid : Moment
  at : ℕ → Moment

unfoldable pub moment_of : Option (Option ℕ) → Option Moment
moment_of none = none
moment_of (some none) = some invalid
moment_of (some (some t)) = some (at t)

-- `z.string().datetime().optional()`, and the `new Date` that `findFiltered` makes of it
unfoldable pub optional_datetime : Zod → Option Json → Option Moment
unfolding moment_of
optional_datetime zod none = some absent
optional_datetime zod (some (str t)) = moment_of (zod.datetime t)
optional_datetime zod (some _) = none

-- `none` where a date is invalid.
unfoldable pub bound_of : Moment → Option (Option ℕ)
bound_of absent = some none
bound_of invalid = none
bound_of (at t) = some (some t)

unfoldable pub dated : Option Text → Option (Option ℕ) → Option (Option ℕ) → Option Filters
dated actor (some from_time) (some to_time) =
    some (record { actor = actor; from_time = from_time; to_time = to_time })
dated actor _ _ = none

unfoldable pub filters_of :
    Option (Option Text) → Option Moment → Option Moment → Option (Option Filters)
unfolding dated bound_of
filters_of (some actor) (some from_time) (some to_time) =
    some (dated actor (bound_of from_time) (bound_of to_time))
filters_of _ _ _ = none

-- `none` if the query is refused, and `some none` if it is accepted but has an invalid date.
unfoldable pub export_filter_schema : Zod → FilterQuery → Option (Option Filters)
unfolding optional_text optional_datetime filters_of
export_filter_schema zod q =
    filters_of (optional_text q.actor) (optional_datetime zod q.from_time)
      (optional_datetime zod q.to_time)

-- `errors.map((e) => ({ field: e.path.join('.'), message: e.message }))`
unfoldable pub details : List Issue → Items
unfolding join
details [] = nil
details (i ∷ issues) =
    cons
      (obj (
        field (codes "field") (str (join (codes ".") i.path))
          (field (codes "message") (str i.message) end)))
      (details issues)

unfoldable pub validation_error : List Issue → Response
unfolding details
validation_error issues = record {
  status = 422;
  body = obj (
      field (codes "error") (str (codes "Validation Error"))
        (field (codes "details") (arr (details issues)) end));
}
