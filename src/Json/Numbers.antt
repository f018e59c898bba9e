-- ===== src/Json/Numbers.antt =====
-- Reading the numbers of JSON back, and how the text of a value starts (`JSON.parse` and
-- `JSON.stringify`).
use potens_intern_backend_sh.Common.{
  ℕ, suc, ◌≡◌, refl, true, false, none, some, List, [], ◌∷◌, ◌++◌, map, Text, arith,
}
use potens_intern_backend_sh.Json.{
  Mark, d0, d1, d2, d3, d4, d5, d6, d7, d8, d9, minus, plus, point, exponent, mark_code, Json, null,
  bool, num, str, arr, obj, quote, stringify,
}
use potens_intern_backend_sh.Json.Parse.{
  mark_of, push_mark, read_marks, number_of, starts, read_value,
}

-- Behind a number no further mark stands.
abbrev pub Ends : Text → Type 0
Ends [] = Unit
Ends (c ∷ s) = mark_of c ≡ none

mark_of-mark_code : (m : Mark) → mark_of (mark_code m) ≡ some m
unfolding mark_of mark_code
mark_of-mark_code d0 = refl
mark_of-mark_code d1 = refl
mark_of-mark_code d2 = refl
mark_of-mark_code d3 = refl
mark_of-mark_code d4 = refl
mark_of-mark_code d5 = refl
mark_of-mark_code d6 = refl
mark_of-mark_code d7 = refl
mark_of-mark_code d8 = refl
mark_of-mark_code d9 = refl
mark_of-mark_code minus = refl
mark_of-mark_code plus = refl
mark_of-mark_code point = refl
mark_of-mark_code exponent = refl

read_marks_of_Ends : (s : Text) → Ends s → read_marks s ≡ ([], s)
unfolding read_marks push_mark
read_marks_of_Ends [] h = refl
read_marks_of_Ends (c ∷ s) h = rw h

pub read_marks-map :
    (ms : List Mark) (rest : Text) → Ends rest → read_marks (map mark_code ms ++ rest) ≡ (ms, rest)
unfolding read_marks push_mark
read_marks-map [] rest h = read_marks_of_Ends rest h
read_marks-map (m ∷ ms) rest h = rw (mark_of-mark_code m, read_marks-map ms rest h)

-- No value starts with a bracket that closes.
starts-mark_code :
    (c : ℕ) (m : Mark) (s : Text) → mark_of c ≡ none → starts c (mark_code m ∷ s) ≡ false
unfolding starts
starts-mark_code c m s h = ground (arith, mark_of-mark_code m, h)

pub starts-stringify : (j : Json) (s : Text) → starts 93 (stringify j ++ s) ≡ false
unfolding starts stringify quote mark_of
starts-stringify null s = refl
starts-stringify (bool true) s = refl
starts-stringify (bool false) s = refl
starts-stringify (num m ms) s = starts-mark_code 93 m (map mark_code ms ++ s) refl
starts-stringify (str t) s = refl
starts-stringify (arr xs) s = refl
starts-stringify (obj fs) s = refl

pub read_num :
    (fuel : ℕ) (m : Mark) (s : Text)
    → read_value (suc fuel) (mark_code m ∷ s) ≡ number_of (read_marks (mark_code m ∷ s))
unfolding read_value mark_code
read_num fuel d0 s = refl
read_num fuel d1 s = refl
read_num fuel d2 s = refl
read_num fuel d3 s = refl
read_num fuel d4 s = refl
read_num fuel d5 s = refl
read_num fuel d6 s = refl
read_num fuel d7 s = refl
read_num fuel d8 s = refl
read_num fuel d9 s = refl
read_num fuel minus s = refl
read_num fuel plus s = refl
read_num fuel point s = refl
read_num fuel exponent s = refl
