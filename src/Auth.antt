-- ===== src/Auth.antt =====
-- src/middlewares/auth.middleware.js. Its console.log calls are left out.
pub mod Keys
use potens_intern_backend_sh.Common.{
  ℕ, zero, suc, Bool, true, false, not, ◌||◌, Option, none, some, List, [], ◌∷◌, Text, text_eq,
  length, replicate, max, if◌then◌else◌,
}
use potens_intern_backend_sh.Utf8.{utf8}

-- `source.copy(target)`: as many bytes as fit.
unfoldable pub copy : List ℕ → List ℕ → List ℕ
copy [] target = target
copy (b ∷ source) [] = []
copy (b ∷ source) (t ∷ target) = b ∷ copy source target

-- The two buffers have the same length, so `crypto.timingSafeEqual` compares their bytes. `length`
-- counts UTF-16 code units, and the buffers hold UTF-8 bytes.
unfoldable pub timing_safe_equal : Text → Text → Bool
unfolding copy
timing_safe_equal provided expected =
    let len = max (max (length provided) (length expected)) 1 in
    text_eq (copy (utf8 provided) (replicate len 0)) (copy (utf8 expected) (replicate len 0))

-- `!provided`: undefined or the empty text.
unfoldable pub is_falsy : Option Text → Bool
is_falsy none = true
is_falsy (some []) = true
is_falsy (some (c ∷ s)) = false

-- `true` for `next()`, `false` for the response 401. The header is `none` if it is not sent.
unfoldable pub require_api_key : Option Text → Text → Bool
require_api_key none api_key = false
require_api_key (some provided) api_key =
    if is_falsy (some provided) || not (timing_safe_equal provided api_key) then false else true
