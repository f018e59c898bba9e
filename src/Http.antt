-- ===== src/Http.antt =====
-- What the service answers: src/utils/response.helper.js, src/middlewares/error.middleware.js and
-- src/utils/asyncHandler.js, with the JSON of the values that the controllers send.
pub mod Decimal
use potens_intern_backend_sh.Common.{
  ℕ, ◌-◌, Bool, true, false, Option, none, some, List, [], ◌∷◌, Text, codes, if◌then◌else◌,
}
use potens_intern_backend_sh.Json.{
  Mark, digit, Json, null, bool, num, str, arr, obj, Items, nil, cons, Fields, end, field,
}
use potens_intern_backend_sh.Constants.{HttpStatus, http_status, Message, messages}
use potens_intern_backend_sh.Hash.{LogEntry, ChainResult}
use potens_intern_backend_sh.Copies.{entry_json}
use potens_intern_backend_sh.Errors.{
  Thrown, app_error, reading_undefined, database, body_parser, Result, ok, err,
}
use potens_intern_backend_sh.Http.Decimal.{decimal}

pub record Response : Type 0 where
  pub status : ℕ
  pub body : Json

unfoldable pub digits : Text → List Mark
digits [] = []
digits (c ∷ s) = digit (c - 48) ∷ digits s

unfoldable pub numeral : List Mark → Json
numeral [] = null
numeral (m ∷ ms) = num m ms

unfoldable pub number : ℕ → Json
unfolding digits numeral
number n = numeral (digits (decimal n))

unfoldable pub items : List Json → Items
items [] = nil
items (j ∷ js) = cons j (items js)

-- A property whose value is `undefined` is not written.
unfoldable pub optional : Text → Option Json → Fields → Fields
optional key none fs = fs
optional key (some value) fs = field key value fs

unfoldable pub entry_items : List LogEntry → Items
entry_items [] = nil
entry_items (e ∷ es) = cons (entry_json e) (entry_items es)

unfoldable pub maybe_str : Option Text → Option Json
maybe_str none = none
maybe_str (some t) = some (str t)

unfoldable pub chain_result_json : ChainResult → Json
unfolding number optional maybe_str
chain_result_json r = obj (
    field (codes "success") (bool r.success) (
      field (codes "totalEntries") (number r.total_entries) (
        optional (codes "brokenEntryId") (maybe_str r.broken_entry_id) (
          optional (codes "reason") (maybe_str r.reason) (
            optional (codes "expectedHash") (maybe_str r.expected_hash)
              (optional (codes "actualHash") (maybe_str r.actual_hash) end))))))

unfoldable pub success : Json → Response
success payload = record {
  status = http_status HttpStatus.ok;
  body = obj (
      field (codes "success") (bool true)
        (field (codes "message") (str (messages Message.ok)) (field (codes "data") payload end)));
}

unfoldable pub created : Json → Response
created payload = record {
  status = http_status HttpStatus.created;
  body = obj (
      field (codes "success") (bool true) (
        field (codes "message") (str (messages Message.created))
          (field (codes "data") payload end)));
}

unfoldable pub error : ℕ → Text → Option Json → Response
unfolding optional
error status message details = record {
  status = status;
  body = obj (
      field (codes "success") (bool false)
        (field (codes "message") (str message) (optional (codes "details") details end)));
}

unfoldable pub paginated : Json → Json → Response
paginated payload info = record {
  status = http_status HttpStatus.ok;
  body = obj (
      field (codes "success") (bool true) (
        field (codes "message") (str (messages Message.ok))
          (field (codes "data") payload (field (codes "meta") info end))));
}

unfoldable pub send_success : ℕ → Json → Response
send_success status payload = record {
  status = status;
  body = obj (field (codes "data") payload end);
}

unfoldable pub send_error : ℕ → Text → Option Json → Response
unfolding optional
send_error status message details = record {
  status = status;
  body = obj (field (codes "error") (str message) (optional (codes "details") details end));
}

-- `res.status(s).json({ error: message })`
unfoldable pub plain_error : ℕ → Text → Response
plain_error status message = record {
  status = status;
  body = obj (field (codes "error") (str message) end);
}

unfoldable pub not_found_handler : Response
unfolding plain_error
not_found_handler = plain_error 404 (codes "Not Found")

-- Only an operational AppError chooses its status and its message.
unfoldable pub global_error_handler : Thrown → Response
unfolding plain_error
global_error_handler (app_error e) =
    if e.is_operational
    then plain_error e.status_code e.message
    else plain_error 500 (codes "Internal Server Error")
global_error_handler reading_undefined = plain_error 500 (codes "Internal Server Error")
global_error_handler database = plain_error 500 (codes "Internal Server Error")
global_error_handler (body_parser status) = plain_error 500 (codes "Internal Server Error")

-- `asyncHandler`: what a handler throws goes to `next`, and so to the global error handler.
unfoldable pub async_handler {ℓ} : {S : Type ℓ} → Result Response × S → Response × S
async_handler (ok response, s) = (response, s)
async_handler (err e, s) = (global_error_handler e, s)
