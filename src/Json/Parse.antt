-- ===== src/Json/Parse.antt =====
-- `JSON.parse`, which src/services/redis.service.js calls on the texts that `JSON.stringify` has
-- written: no space between the tokens, numbers as `Number.prototype.toString` writes them, and no key
-- twice in an object. Another text need not be read here as JavaScript reads it.
use potens_intern_backend_sh.Common.{
  ℕ, zero, suc, ◌+◌, ◌-◌, ◌*◌, Bool, true, false, ◌&&◌, Option, none, some, List, [], ◌∷◌, Text,
  ◌>>=◌, length, ltb, leb, ◌==◌, if◌then◌else◌,
}
use potens_intern_backend_sh.Json.{
  Mark, minus, plus, point, exponent, digit, Json, null, bool, num, str, arr, obj, Items, nil, cons,
  Fields, end, field,
}

-- What is read, and the text behind it.
abbrev pub Reader : Type 0 → Type 0
Reader A = Text → Option (A × Text)

-- Inside a string: between characters, behind a backslash, with so many digits of `\u` to come behind
-- those read, and where no string can end.
pub data Mode : Type 0 where
  plain : Mode
  slash : Mode
  hex : ℕ → ℕ → Mode
  bad : Mode

unfoldable pub hex_value : ℕ → Option ℕ
hex_value c =
    if leb 48 c && ltb c 58
    then some (c - 48)
    else if leb 97 c && ltb c 103
    then some (c - 87)
    else if leb 65 c && ltb c 71
    then some (c - 55)
    else none

unfoldable pub after_digit : ℕ → ℕ → Option ℕ → Mode
after_digit left sum none = bad
after_digit zero sum (some v) = plain
after_digit (suc left) sum (some v) = hex left (sum * 16 + v)

-- The unit that a backslash and this character stand for.
unfoldable pub escaped : ℕ → Option ℕ
escaped c =
    if c == 34
    then some 34
    else if c == 92
    then some 92
    else if c == 47
    then some 47
    else if c == 98
    then some 8
    else if c == 116
    then some 9
    else if c == 110
    then some 10
    else if c == 102
    then some 12
    else if c == 114
    then some 13
    else none

unfoldable pub after_slash : Bool → Option ℕ → Mode
after_slash true o = hex 3 0
after_slash false none = bad
after_slash false (some u) = plain

unfoldable pub next_mode : Mode → ℕ → Mode
unfolding hex_value after_digit escaped after_slash
next_mode plain c = if c == 92 then slash else if ltb c 32 then bad else plain
next_mode slash c = after_slash (c == 117) (escaped c)
next_mode (hex left sum) c = after_digit left sum (hex_value c)
next_mode bad c = bad

-- The unit that the character completes.
unfoldable pub last_digit : ℕ → ℕ → Option ℕ → Option ℕ
last_digit left sum none = none
last_digit zero sum (some v) = some (sum * 16 + v)
last_digit (suc left) sum (some v) = none

unfoldable pub completed : Mode → ℕ → Option ℕ
unfolding hex_value escaped last_digit
completed plain c = if c == 92 then none else if ltb c 32 then none else some c
completed slash c = escaped c
completed (hex left sum) c = last_digit left sum (hex_value c)
completed bad c = none

unfoldable pub is_end : Mode → ℕ → Bool
is_end plain c = c == 34
is_end slash c = false
is_end (hex left sum) c = false
is_end bad c = false

unfoldable pub push : Option ℕ → Option (Text × Text) → Option (Text × Text)
push u none = none
push none (some p) = some p
push (some u) (some (t, rest)) = some (u ∷ t, rest)

-- The rest of a string, and the text behind its closing quote.
unfoldable pub read_string : Mode → Reader Text
unfolding next_mode completed is_end push
read_string m [] = none
read_string m (c ∷ s) =
    let rest = read_string (next_mode m c) s in
    if is_end m c then some ([], s) else push (completed m c) rest

unfoldable pub mark_of : ℕ → Option Mark
unfolding digit
mark_of c =
    if leb 48 c && ltb c 58
    then some (digit (c - 48))
    else if c == 45
    then some minus
    else if c == 43
    then some plus
    else if c == 46
    then some point
    else if c == 101
    then some exponent
    else none

unfoldable pub push_mark : Option Mark → Text → List Mark × Text → List Mark × Text
push_mark none s r = ([], s)
push_mark (some m) s (ms, rest) = (m ∷ ms, rest)

-- The marks in front of a text.
unfoldable pub read_marks : Text → List Mark × Text
unfolding mark_of push_mark
read_marks [] = ([], [])
read_marks (c ∷ s) = push_mark (mark_of c) (c ∷ s) (read_marks s)

unfoldable pub number_of : List Mark × Text → Option (Json × Text)
number_of ([], rest) = none
number_of (m ∷ ms, rest) = some (num m ms, rest)

-- A word that must come, and then the value.
unfoldable pub read_word : Text → Json → Reader Json
read_word [] j s = some (j, s)
read_word (w ∷ ws) j [] = none
read_word (w ∷ ws) j (c ∷ s) = let rest = read_word ws j s in if w == c then rest else none

-- One character that must come.
unfoldable pub expect : ℕ → Text → Option Text
expect c [] = none
expect c (d ∷ s) = if c == d then some s else none

unfoldable pub starts : ℕ → Text → Bool
starts c [] = false
starts c (d ∷ s) = c == d

unfoldable pub of_string : Option (Text × Text) → Option (Json × Text)
of_string none = none
of_string (some (t, rest)) = some (str t, rest)

unfoldable mutual
  unfolding read_string read_marks number_of read_word ◌>>=◌ expect starts of_string

  pub read_value : ℕ → Reader Json
  read_value zero s = none
  read_value (suc fuel) [] = none
  read_value (suc fuel) (c ∷ s) =
      let items = read_items fuel s in
      let fields = read_fields fuel s in
      if c == 34
      then of_string (read_string plain s)
      else if c == 91
      then (items >>= λ (xs, rest). some (arr xs, rest))
      else if c == 123
      then (fields >>= λ (fs, rest). some (obj fs, rest))
      else if c == 110
      then read_word (117 ∷ 108 ∷ 108 ∷ []) null s
      else if c == 116
      then read_word (114 ∷ 117 ∷ 101 ∷ []) (bool true) s
      else if c == 102
      then read_word (97 ∷ 108 ∷ 115 ∷ 101 ∷ []) (bool false) s
      else number_of (read_marks (c ∷ s))

  -- The items of an array, behind its bracket.
  pub read_items : ℕ → Reader Items
  read_items zero s = none
  read_items (suc fuel) s =
      let some_items = read_more_items fuel s in
      if starts 93 s then (expect 93 s >>= λ rest. some (nil, rest)) else some_items

  pub read_more_items : ℕ → Reader Items
  read_more_items zero s = none
  read_more_items (suc fuel) s = read_value fuel s >>= λ (x, rest).
      let more = (expect 44 rest >>= λ after. read_more_items fuel after) in
      if starts 93 rest
      then (expect 93 rest >>= λ after. some (cons x nil, after))
      else (more >>= λ (xs, after). some (cons x xs, after))

  pub read_fields : ℕ → Reader Fields
  read_fields zero s = none
  read_fields (suc fuel) s =
      let some_fields = read_more_fields fuel s in
      if starts 125 s then (expect 125 s >>= λ rest. some (end, rest)) else some_fields

  pub read_more_fields : ℕ → Reader Fields
  read_more_fields zero s = none
  read_more_fields (suc fuel) s = expect 34 s >>= λ quoted.
      read_string plain quoted >>= λ (k, named). expect 58 named >>= λ value.
      read_value fuel value >>= λ (v, rest).
      let more = (expect 44 rest >>= λ after. read_more_fields fuel after) in
      if starts 125 rest
      then (expect 125 rest >>= λ after. some (field k v end, after))
      else (more >>= λ (fs, after). some (field k v fs, after))

-- A value and nothing behind it.
unfoldable pub whole : Option (Json × Text) → Option Json
whole none = none
whole (some (j, [])) = some j
whole (some (j, c ∷ s)) = none

-- `JSON.parse`; `none` is a SyntaxError. The fuel is two for each character, and two more.
unfoldable pub json_parse : Text → Option Json
unfolding read_value whole
json_parse t = whole (read_value (suc (suc (length t * 2))) t)
