-- ===== src/Json/Steps.antt =====
-- One step of each reader of `JSON.parse` on a text that `JSON.stringify` has written.
use potens_intern_backend_sh.Common.{
  ℕ, suc, ◌≤◌, ◌≡◌, refl, ap, ◌∙◌, Bool, true, false, some, List, ◌∷◌, ◌++◌, Text, arith,
}
use potens_intern_backend_sh.Json.{
  Mark, Json, null, bool, num, str, arr, obj, Items, nil, cons, Fields, end, field, quote,
  stringify,
}
use potens_intern_backend_sh.Json.Parse.{
  plain, read_string, number_of, starts, of_string, read_value, read_items, read_more_items,
  read_fields, read_more_fields,
}
use potens_intern_backend_sh.Json.Strings.{read-escape}
use potens_intern_backend_sh.Json.Numbers.{Ends, read_marks-map, starts-stringify, read_num}
use potens_intern_backend_sh.Json.Layout.{
  cost, cost_items, cost_fields, items_text, fields_text, quote_text,
}

-- One step of each reader, from what the readers that it calls give.
module _ (fuel : ℕ) (s rest : Text) where
  pub value_str :
      (t : Text)
      → read_string plain s ≡ some (t, rest)
      → read_value (suc fuel) (34 ∷ s) ≡ some (str t, rest)
  unfolding read_value of_string
  value_str t h = rw h

  pub value_arr :
      (xs : Items)
      → read_items fuel s ≡ some (xs, rest)
      → read_value (suc fuel) (91 ∷ s) ≡ some (arr xs, rest)
  unfolding read_value
  value_arr xs h = rw h

  pub value_obj :
      (fs : Fields)
      → read_fields fuel s ≡ some (fs, rest)
      → read_value (suc fuel) (123 ∷ s) ≡ some (obj fs, rest)
  unfolding read_value
  value_obj fs h = rw h

  pub some_items :
      (xs : Items)
      → starts 93 s ≡ false
      → read_more_items fuel s ≡ some (xs, rest)
      → read_items (suc fuel) s ≡ some (xs, rest)
  unfolding read_items
  some_items xs first h = rw (first, h)

  pub last_item :
      (x : Json)
      → read_value fuel s ≡ some (x, 93 ∷ rest)
      → read_more_items (suc fuel) s ≡ some (cons x nil, rest)
  unfolding read_more_items
  last_item x h = rw h

  pub next_item :
      (x : Json) (xs : Items) (t : Text)
      → read_value fuel s ≡ some (x, 44 ∷ t)
      → read_more_items fuel t ≡ some (xs, rest)
      → read_more_items (suc fuel) s ≡ some (cons x xs, rest)
  unfolding read_more_items
  next_item x xs t h k = rw (h, k)

  pub some_fields :
      (fs : Fields)
      → starts 125 s ≡ false
      → read_more_fields fuel s ≡ some (fs, rest)
      → read_fields (suc fuel) s ≡ some (fs, rest)
  unfolding read_fields
  some_fields fs first h = rw (first, h)

  pub last_field :
      (k : Text) (v : Json) (t : Text)
      → read_string plain s ≡ some (k, 58 ∷ t)
      → read_value fuel t ≡ some (v, 125 ∷ rest)
      → read_more_fields (suc fuel) (34 ∷ s) ≡ some (field k v end, rest)
  unfolding read_more_fields
  last_field k v t h e = rw (h, e)

  pub next_field :
      (k : Text) (v : Json) (fs : Fields) (t u : Text)
      → read_string plain s ≡ some (k, 58 ∷ t)
      → read_value fuel t ≡ some (v, 44 ∷ u)
      → read_more_fields fuel u ≡ some (fs, rest)
      → read_more_fields (suc fuel) (34 ∷ s) ≡ some (field k v fs, rest)
  unfolding read_more_fields
  next_field k v fs t u h e r = rw (h, e, r)

pub cost_pos : (j : Json) → 1 ≤ cost j
unfolding cost
cost_pos null = omega arith
cost_pos (bool b) = omega arith
cost_pos (num m ms) = omega arith
cost_pos (str t) = omega arith
cost_pos (arr xs) = omega arith
cost_pos (obj fs) = omega arith

pub value_num :
    (fuel : ℕ) (m : Mark) (ms : List Mark) (rest : Text)
    → Ends rest
    → read_value (suc fuel) (stringify (num m ms) ++ rest) ≡ some (num m ms, rest)
unfolding stringify
value_num fuel m ms rest h =
    read_num fuel m _ ∙ ap number_of (read_marks-map (m ∷ ms) rest h) ∙ (unfold number_of in refl)

unfoldable pub has_item : Items → Bool
has_item nil = false
has_item (cons x xs) = true

unfoldable pub has_field : Fields → Bool
has_field end = false
has_field (field k v fs) = true

pub cost_items_pos : (xs : Items) → 1 ≤ cost_items xs
unfolding cost_items
cost_items_pos nil = omega arith
cost_items_pos (cons x xs) = omega arith

pub cost_fields_pos : (fs : Fields) → 1 ≤ cost_fields fs
unfolding cost_fields
cost_fields_pos end = omega arith
cost_fields_pos (field k v fs) = omega arith

pub starts-items_text :
    (x : Json) (xs : Items) (rest : Text) → starts 93 (items_text (cons x xs) rest) ≡ false
unfolding items_text
starts-items_text x nil rest = starts-stringify x _
starts-items_text x (cons y ys) rest = starts-stringify x _

pub starts-fields_text :
    (k : Text) (v : Json) (fs : Fields) (rest : Text)
    → starts 125 (fields_text (field k v fs) rest) ≡ false
unfolding fields_text quote starts
starts-fields_text k v end rest = refl
starts-fields_text k v (field l u fs) rest = refl

pub value_null :
    (fuel : ℕ) (rest : Text) → read_value (suc fuel) (stringify null ++ rest) ≡ some (null, rest)
unfolding read_value stringify
value_null fuel rest = refl

pub value_bool :
    (fuel : ℕ) (b : Bool) (rest : Text)
    → read_value (suc fuel) (stringify (bool b) ++ rest) ≡ some (bool b, rest)
unfolding read_value stringify
value_bool fuel true rest = refl
value_bool fuel false rest = refl

pub value_empty_arr :
    (fuel : ℕ) (rest : Text)
    → read_value (suc (suc fuel)) (stringify (arr nil) ++ rest) ≡ some (arr nil, rest)
unfolding read_value stringify
value_empty_arr fuel rest = refl

pub value_empty_obj :
    (fuel : ℕ) (rest : Text)
    → read_value (suc (suc fuel)) (stringify (obj end) ++ rest) ≡ some (obj end, rest)
unfolding read_value stringify
value_empty_obj fuel rest = refl

pub value_quote :
    (fuel : ℕ) (t rest : Text)
    → read_value (suc fuel) (stringify (str t) ++ rest) ≡ some (str t, rest)
unfolding stringify
value_quote fuel t rest =
    ap (read_value (suc fuel)) (quote_text t rest) ∙ value_str fuel _ rest t (read-escape t rest)
