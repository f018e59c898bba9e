-- ===== src/Json.antt =====
-- JSON values as JavaScript holds them, and `JSON.stringify` as src/services/hash.service.js calls
-- it. A number stands for itself by the characters of the text that `Number.prototype.toString` gives
-- it; an object is the list of its own properties in their order.
pub mod Parse
pub mod Strings
pub mod Numbers
pub mod Layout
pub mod Steps
pub mod RoundTrip
pub mod WellFormed
use potens_intern_backend_sh.Common.{
  ℕ, ◌+◌, ◌/◌, ◌%◌, Bool, true, false, ◌&&◌, List, [], ◌∷◌, ◌++◌, map, Text, codes, join, text_eq,
  Option, none, some, ltb, leb, ◌==◌, if◌then◌else◌,
}

-- The characters of a number.
pub data Mark : Type 0 where
  d0 : Mark
  d1 : Mark
  d2 : Mark
  d3 : Mark
  d4 : Mark
  d5 : Mark
  d6 : Mark
  d7 : Mark
  d8 : Mark
  d9 : Mark
  minus : Mark
  plus : Mark
  point : Mark
  exponent : Mark

unfoldable pub mark_code : Mark → ℕ
mark_code d0 = 48
mark_code d1 = 49
mark_code d2 = 50
mark_code d3 = 51
mark_code d4 = 52
mark_code d5 = 53
mark_code d6 = 54
mark_code d7 = 55
mark_code d8 = 56
mark_code d9 = 57
mark_code minus = 45
mark_code plus = 43
mark_code point = 46
mark_code exponent = 101

unfoldable pub digit : ℕ → Mark
digit n =
    if n == 0
    then d0
    else if n == 1
    then d1
    else if n == 2
    then d2
    else if n == 3
    then d3
    else if n == 4
    then d4
    else if n == 5
    then d5
    else if n == 6
    then d6
    else if n == 7
    then d7
    else if n == 8
    then d8
    else d9

mutual
  pub data Json : Type 0 where
    null : Json
    bool : Bool → Json
    num : Mark → List Mark → Json
    str : Text → Json
    arr : Items → Json
    obj : Fields → Json

  pub data Items : Type 0 where
    nil : Items
    cons : Json → Items → Items

  pub data Fields : Type 0 where
    end : Fields
    field : Text → Json → Fields → Fields

-- A lower-case hexadecimal digit.
unfoldable pub hex_digit : ℕ → ℕ
hex_digit n = if ltb n 10 then 48 + n else 87 + n

unicode_escape : ℕ → Text
unfolding hex_digit
unicode_escape c =
    codes "\\u"
    ++ hex_digit (c / 4096)
      ∷ hex_digit (c / 256 % 16)
      ∷ hex_digit (c / 16 % 16)
      ∷ hex_digit (c % 16)
      ∷ []

-- The first and the second half of a surrogate pair.
abbrev pub is_high : ℕ → Bool
is_high c = leb 0xd800 c && ltb c 0xdc00

abbrev pub is_low : ℕ → Bool
is_low c = leb 0xdc00 c && ltb c 0xe000

-- The escape of one code unit that is no part of a surrogate pair.
escape_unit : ℕ → Text
unfolding unicode_escape
escape_unit c =
    if c == 34
    then codes "\\\""
    else if c == 92
    then codes "\\\\"
    else if c == 8
    then codes "\\b"
    else if c == 9
    then codes "\\t"
    else if c == 10
    then codes "\\n"
    else if c == 12
    then codes "\\f"
    else if c == 13
    then codes "\\r"
    else if ltb c 32
    then unicode_escape c
    else if leb 0xd800 c && ltb c 0xe000
    then unicode_escape c
    else c ∷ []

-- A surrogate pair is kept; a half alone is escaped.
pub escape : Text → Text
unfolding escape_unit
escape [] = []
escape (c ∷ []) = escape_unit c
escape (c ∷ d ∷ rest) =
    let pair = c ∷ d ∷ escape rest in
    let single = escape_unit c ++ escape (d ∷ rest) in
    if is_high c && is_low d then pair else single

unfoldable pub quote : Text → Text
unfolding escape
quote t = codes "\"" ++ (escape t ++ codes "\"")

unfoldable mutual
  unfolding quote join mark_code

  pub stringify : Json → Text
  stringify null = codes "null"
  stringify (bool true) = codes "true"
  stringify (bool false) = codes "false"
  stringify (num m ms) = mark_code m ∷ map mark_code ms
  stringify (str t) = quote t
  stringify (arr xs) = codes "[" ++ (join (codes ",") (item_texts xs) ++ codes "]")
  stringify (obj fs) = codes "{" ++ (join (codes ",") (field_texts fs) ++ codes "}")

  pub item_texts : Items → List Text
  item_texts nil = []
  item_texts (cons x xs) = stringify x ∷ item_texts xs

  pub field_texts : Fields → List Text
  field_texts end = []
  field_texts (field k v fs) = (quote k ++ (codes ":" ++ stringify v)) ∷ field_texts fs

-- `value.key`; the keys of an object are distinct.
unfoldable pub property_of : Text → Fields → Option Json
property_of key end = none
property_of key (field k v fs) =
    let rest = property_of key fs in if text_eq k key then some v else rest
