-- ===== src/Pagination/Bounds.antt =====
-- The page and the page size that a query can ask for (`parsePagination` of src/utils/pagination.js).
use native.Mathlib.Nat.{div-one}
use potens_intern_backend_sh.Common.{
  ℕ, zero, suc, ◌+◌, ◌*◌, ◌-◌, ◌≤◌, ◌<◌, ◌≡◌, refl, ◌∙◌, ap, ltb, leb, ◌/◌, ◌%◌, Bool, true, some,
  [], ◌∷◌, Text, codes, arith, min, ◌==◌, false, if◌then◌else◌,
}
use potens_intern_backend_sh.Pagination.{
  nan, plus, minus, is_space, digits, step_of, nearest, rounded, unsigned, signed, parse_int,
  or_default, at_least, PageQuery, parse_pagination, max_page_size,
}

-- Whatever the query, the page is at least 1 and the page size lies between 1 and 100.
pub parse_pagination_bounds :
    (q : PageQuery)
    → (1 ≤ (parse_pagination q).page)
      × (1 ≤ (parse_pagination q).page_size)
      × ((parse_pagination q).page_size ≤ max_page_size)
unfolding parse_pagination
parse_pagination_bounds q = ground arith

parse_tests :
    (parse_int (codes "  42abc") ≡ plus 42)
    × (parse_int (codes "-7") ≡ minus 7)
    × (parse_int (codes "undefined") ≡ nan)
    × (parse_int (codes "+ 1") ≡ nan)
    × (parse_int (codes "9007199254740993") ≡ plus 9007199254740992)
    × (parse_int (codes "9007199254740995") ≡ plus 9007199254740996)
unfolding parse_int digits rounded nearest step_of
parse_tests = (refl, refl, refl, refl, refl, refl)

step_of_small :
    (fuel step n : ℕ) → ltb (n / step) 9007199254740992 ≡ true → step_of (suc fuel) step n ≡ step
unfolding step_of
step_of_small fuel step n small =
    ap (λ (b : Bool). elim b [ true ↦ step | false ↦ step_of fuel (step * 2) n ]) small

nearest-one : (n : ℕ) → nearest n 1 ≡ n
unfolding nearest
nearest-one n =
    let whole : n / 1 ≡ n = div-one n in
    let none_left : n % 1 ≡ 0 = omega arith in rw (none_left, whole) (omega arith)

rounded_exact : (n : ℕ) → n < 9007199254740992 → rounded n ≡ n
unfolding rounded
rounded_exact n h =
    let whole : n / 1 ≡ n = div-one n in
    let small : ltb (n / 1) 9007199254740992 ≡ true = ground (arith, whole) in
    ap (nearest n) (step_of_small 970 1 n small) ∙ nearest-one n

-- A text of digits, as a number.
abbrev pub AllDigits : Text → Type 0
AllDigits [] = Unit
AllDigits (c ∷ s) = (48 ≤ c) × (c ≤ 57) × AllDigits s

abbrev pub value_from : ℕ → Text → ℕ
value_from n [] = n
value_from n (c ∷ s) = value_from (n * 10 + (c - 48)) s

digits-eq-value_from : (n : ℕ) (s : Text) → AllDigits s → digits n s ≡ value_from n s
unfolding digits
digits-eq-value_from n [] h = refl
digits-eq-value_from n (c ∷ s) h = ground (arith, digits-eq-value_from (n * 10 + (c - 48)) s h.2)

not-is_space : (c : ℕ) → 48 ≤ c → c ≤ 57 → is_space c ≡ false
unfolding is_space
not-is_space c lo hi = ground arith

unsigned_of_digits :
    (c : ℕ) (s : Text) (n : ℕ)
    → 48 ≤ c
    → c ≤ 57
    → rounded (digits 0 (c ∷ s)) ≡ n
    → unsigned plus (c ∷ s) ≡ plus n
unfolding unsigned
unsigned_of_digits c s n lo hi read =
    let low : leb 48 c ≡ true = ground arith in
    let high : leb c 57 ≡ true = ground arith in simp (low, high) (ap plus read)

parse_int-unsigned :
    (c : ℕ) (s : Text) → AllDigits (c ∷ s) → parse_int (c ∷ s) ≡ unsigned plus (c ∷ s)
unfolding parse_int signed
parse_int-unsigned c s h =
    let plain : is_space c ≡ false = not-is_space c h.0 h.1 in
    let not_minus : (c == 45) ≡ false = ground (arith, h.0) in
    let not_plus : (c == 43) ≡ false = ground (arith, h.0) in simp (plain, not_minus, not_plus) refl

parse_int_of_digits :
    (c : ℕ) (s : Text)
    → AllDigits (c ∷ s)
    → value_from 0 (c ∷ s) < 9007199254740992
    → parse_int (c ∷ s) ≡ plus (value_from 0 (c ∷ s))
unfolding parse_int
parse_int_of_digits c s h exact =
    parse_int-unsigned c s h
    ∙ unsigned_of_digits c s _ h.0 h.1
        (ap rounded (digits-eq-value_from 0 (c ∷ s) h) ∙ rounded_exact _ exact)

page_of : (v : ℕ) → at_least 1 (or_default (plus v) 1) ≡ (if v == 0 then 1 else v)
unfolding at_least or_default
page_of zero = refl
page_of (suc v) = ground arith

size_of :
    (v : ℕ) → min 100 (at_least 1 (or_default (plus v) 20)) ≡ (if v == 0 then 20 else min 100 v)
unfolding at_least or_default
size_of zero = refl
size_of (suc v) = ground arith

-- A page and a page size below 2 ^ 53 that are written in digits are taken as they are, but for 0, which
-- stands for the default, and for sizes above 100, which become 100.
pub parse_pagination_of_digits :
    (c d : ℕ) (s t : Text)
    → AllDigits (c ∷ s)
    → AllDigits (d ∷ t)
    → value_from 0 (c ∷ s) < 9007199254740992
    → value_from 0 (d ∷ t) < 9007199254740992
    → (let params = parse_pagination (record { page = some (c ∷ s); page_size = some (d ∷ t) }) in
        let page = value_from 0 (c ∷ s) in
        let size = value_from 0 (d ∷ t) in
        (params.page ≡ (if page == 0 then 1 else page))
        × (params.page_size ≡ (if size == 0 then 20 else min 100 size)))
unfolding parse_pagination
parse_pagination_of_digits c d s t hc hd exact_page exact_size =
    rw (parse_int_of_digits c s hc exact_page, parse_int_of_digits d t hd exact_size)
      (page_of _, size_of _)
