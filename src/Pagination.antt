-- ===== src/Pagination.antt =====
-- src/utils/pagination.js. The numbers are doubles that are whole; texts of 2 ^ 1024 and more, which
-- `parseInt` takes for Infinity, are left out.
pub mod Bounds
pub mod Pages
use potens_intern_backend_sh.Common.{
  ℕ, zero, suc, ◌+◌, ◌-◌, ◌*◌, ◌/◌, ◌%◌, Bool, true, false, ◌&&◌, ◌||◌, Option, none, some, List,
  [], ◌∷◌, Text, codes, ltb, leb, ◌==◌, min, max, or_else, if◌then◌else◌,
}

abbrev pub default_page : ℕ
default_page = 1

abbrev pub default_page_size : ℕ
default_page_size = 20

abbrev pub max_page_size : ℕ
max_page_size = 100

-- The results of `parseInt`: `minus n` is -n, also at 0.
pub data Parsed : Type 0 where
  nan : Parsed
  plus minus : ℕ → Parsed

unfoldable pub is_space : ℕ → Bool
is_space c =
    (leb 9 c && leb c 13)
    || c == 32
    || c == 0xa0
    || c == 0x1680
    || (leb 0x2000 c && leb c 0x200a)
    || c == 0x2028
    || c == 0x2029
    || c == 0x202f
    || c == 0x205f
    || c == 0x3000
    || c == 0xfeff

abbrev pub is_digit : ℕ → Bool
is_digit c = leb 48 c && leb c 57

-- The digits from here on, after the number that stands before them.
unfoldable pub digits : ℕ → Text → ℕ
digits n [] = n
digits n (c ∷ s) = let more = digits (n * 10 + (c - 48)) s in if is_digit c then more else n

-- The distance of the doubles around a number: 1 up to 2 ^ 53, and then ever twice as much. The first
-- argument is fuel; 971 doublings reach 2 ^ 1024.
unfoldable pub step_of : ℕ → ℕ → ℕ → ℕ
step_of zero step n = step
step_of (suc fuel) step n = elim (ltb (n / step) 9007199254740992) [
  | true ↦ step
  | false ↦ step_of fuel (step * 2) n
]

-- The nearest multiple of a step, and the even one of two.
unfoldable pub nearest : ℕ → ℕ → ℕ
nearest n step =
    let below = n / step in
    let rest = n % step in
    if ltb step (rest * 2) || (rest * 2 == step && below % 2 == 1)
    then (below + 1) * step
    else below * step

-- The nearest double.
unfoldable pub rounded : ℕ → ℕ
unfolding step_of nearest
rounded n = nearest n (step_of 971 1 n)

unfoldable pub unsigned : (ℕ → Parsed) → Text → Parsed
unsigned sign [] = nan
unsigned sign (c ∷ s) = if is_digit c then sign (rounded (digits 0 (c ∷ s))) else nan

unfoldable pub signed : Text → Parsed
unfolding unsigned
signed [] = nan
signed (c ∷ s) =
    if c == 45 then unsigned minus s else if c == 43 then unsigned plus s else unsigned plus (c ∷ s)

-- `parseInt(text, 10)`
unfoldable pub parse_int : Text → Parsed
unfolding is_space signed
parse_int [] = nan
parse_int (c ∷ s) = let rest = parse_int s in if is_space c then rest else signed (c ∷ s)

-- `value || fallback`: NaN and the zeros are falsy.
unfoldable pub or_default : Parsed → ℕ → Parsed
or_default nan fallback = plus fallback
or_default (plus zero) fallback = plus fallback
or_default (plus (suc n)) fallback = plus (suc n)
or_default (minus zero) fallback = plus fallback
or_default (minus (suc n)) fallback = minus (suc n)

-- `Math.max(floor, value)` at a floor that is no less than 0.
unfoldable pub at_least : ℕ → Parsed → ℕ
at_least floor nan = floor
at_least floor (plus n) = max floor n
at_least floor (minus n) = floor

pub record PageQuery : Type 0 where
  pub page : Option Text
  pub page_size : Option Text

pub record PageParams : Type 0 where
  pub page : ℕ
  pub page_size : ℕ

-- `String(undefined)` is "undefined".
unfoldable pub parse_pagination : PageQuery → PageParams
unfolding or_default at_least
parse_pagination query = record {
  page =
      at_least default_page
        (or_default (parse_int (or_else query.page (codes "undefined"))) default_page);
  page_size = min max_page_size (
      at_least 1
        (or_default (parse_int (or_else query.page_size (codes "undefined"))) default_page_size));
}

pub record PaginationMeta : Type 0 where
  pub page : ℕ
  pub page_size : ℕ
  pub total : ℕ
  pub total_pages : Option ℕ

-- `Math.ceil(total / pageSize) || 0`; `none` is Infinity.
unfoldable pub total_pages : ℕ → ℕ → Option ℕ
total_pages zero page_size = some 0
total_pages (suc total) zero = none
total_pages (suc total) (suc size) = some ((suc total + size) / suc size)

unfoldable pub build_pagination_meta : ℕ → ℕ → ℕ → PaginationMeta
unfolding total_pages
build_pagination_meta page page_size total = record {
  page = page;
  page_size = page_size;
  total = total;
  total_pages = total_pages total page_size;
}
