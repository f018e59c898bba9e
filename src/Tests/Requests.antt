-- ===== src/Tests/Requests.antt =====
-- The theorems on src/middlewares/auth.middleware.js and src/utils/pagination.js at concrete inputs.
use potens_intern_backend_sh.Common.{◌≡◌, ◌↔◌, refl, some, [], ◌∷◌, codes, true, arith, ap, length}
use potens_intern_backend_sh.Utf8.{utf8}
use potens_intern_backend_sh.Auth.{require_api_key}
use potens_intern_backend_sh.Auth.Keys.{require_api_key_iff, same_front_passes}
use potens_intern_backend_sh.Pagination.{parse_pagination}
use potens_intern_backend_sh.Pagination.Bounds.{parse_pagination_of_digits}

require_api_key_iff_example :
    (require_api_key (some (codes "seCret")) (codes "secret") ≡ true)
    ↔ (codes "seCret" ≡ codes "secret")
require_api_key_iff_example =
    require_api_key_iff (codes "seCret") (codes "secret") (λ e. omega (arith, ap length e))
      (ground arith, ground arith) (ground arith, ground arith)

-- The key "éa" takes three bytes: "éb" has the first two of them.
same_front_passes_example : require_api_key (some (0xe9 ∷ 0x62 ∷ [])) (0xe9 ∷ 0x61 ∷ []) ≡ true
unfolding utf8
same_front_passes_example =
    same_front_passes (0xe9 ∷ 0x62 ∷ []) (0xe9 ∷ 0x61 ∷ []) (λ e. omega (arith, ap length e)) refl
      refl

parse_pagination_of_digits_example :
    (let params =
        parse_pagination (record { page = some (codes "12"); page_size = some (codes "500") }) in
      (params.page ≡ 12) × (params.page_size ≡ 100))
parse_pagination_of_digits_example =
    parse_pagination_of_digits 49 53 (codes "2") (codes "00") (ground arith) (ground arith)
      (omega arith) (omega arith)
