-- ===== src/Types.antt =====
-- The shapes of responses that src/types/index.js documents, as predicates on their bodies.
use potens_intern_backend_sh.Common.{ℕ, ◌≡◌, true, false, Option, none, some, Text, codes}
use potens_intern_backend_sh.Json.{Json, bool, str, arr, obj, Items, end, field}
use potens_intern_backend_sh.Http.{number, optional}

unfoldable pub array_of : Option Items → Option Json
array_of none = none
array_of (some xs) = some (arr xs)

-- `data` is optional.
pub record IsApiResponse (j : Json) : Type 0 where
  pub message : Text
  pub payload : Option Json
  pub shape :
      j
      ≡ obj (
          field
            (codes "success")
            (bool true)
            (field (codes "message") (str message) (optional (codes "data") payload end)))

pub record IsErrorResponse (j : Json) : Type 0 where
  pub message : Text
  pub details : Option Items
  pub shape :
      j
      ≡ obj (
          field (codes "success") (bool false) (
            field
              (codes "message")
              (str message)
              (optional (codes "details") (array_of details) end)))

pub record IsPaginationMeta (j : Json) : Type 0 where
  pub page : ℕ
  pub page_size : ℕ
  pub total : ℕ
  pub total_pages : ℕ
  pub shape :
      j
      ≡ obj (
          field (codes "page") (number page) (
            field (codes "pageSize") (number page_size) (
              field
                (codes "total")
                (number total)
                (field (codes "totalPages") (number total_pages) end))))

pub record IsPaginatedResponse (j : Json) : Type 0 where
  pub message : Text
  pub items : Items
  pub info : Json
  pub meta : IsPaginationMeta info
  pub shape :
      j
      ≡ obj (
          field (codes "success") (bool true) (
            field
              (codes "message")
              (str message)
              (field (codes "data") (arr items) (field (codes "meta") info end))))
