-- ===== src/Json/RoundTrip.antt =====
-- `JSON.parse` reads back whatever `JSON.stringify` has written.
use potens_intern_backend_sh.Common.{
  ℕ, zero, suc, ◌+◌, ◌*◌, ◌≤◌, ◌≡◌, refl, sym, ap, ◌∙◌, true, false, some, [], ◌∷◌, ◌++◌,
  append-nil, Text, length, length-append, arith,
}
use potens_intern_backend_sh.Json.{
  Json, null, bool, num, str, arr, obj, Items, nil, cons, Fields, end, field, quote, stringify,
}
use potens_intern_backend_sh.Json.Parse.{
  read_value, read_more_items, read_more_fields, whole, json_parse, mark_of,
}
use potens_intern_backend_sh.Json.Strings.{read-escape}
use potens_intern_backend_sh.Json.Numbers.{Ends}
use potens_intern_backend_sh.Json.Layout.{
  cost, cost_items, cost_fields, items_text, fields_text, arr_text, obj_text, quote_text,
}
use potens_intern_backend_sh.Json.Steps.{
  value_arr, value_obj, some_items, last_item, next_item, some_fields, last_field, next_field,
  cost_pos, value_num, has_item, has_field, cost_items_pos, cost_fields_pos, starts-items_text,
  starts-fields_text, value_null, value_bool, value_empty_arr, value_empty_obj, value_quote,
}

-- Any value is read back from its text, whatever stands behind it that no number could go on with; so
-- are the items and the fields behind their bracket.
mutual
  unfolding cost cost_items cost_fields items_text fields_text mark_of has_item has_field

  read-value :
      (j : Json) (fuel : ℕ) (rest : Text)
      → cost j ≤ fuel
      → Ends rest
      → read_value fuel (stringify j ++ rest) ≡ some (j, rest)
  read-value j zero rest h e = absurd (omega (arith, cost_pos j, h))
  read-value null (suc fuel) rest h e = value_null fuel rest
  read-value (bool b) (suc fuel) rest h e = value_bool fuel b rest
  read-value (num m ms) (suc fuel) rest h e = value_num fuel m ms rest e
  read-value (str t) (suc fuel) rest h e = value_quote fuel t rest
  read-value (arr nil) (suc (suc fuel)) rest h e = value_empty_arr fuel rest
  read-value (obj end) (suc (suc fuel)) rest h e = value_empty_obj fuel rest
  read-value (arr xs) (suc zero) rest h e = absurd (omega (arith, cost_items_pos xs, h))
  read-value (obj fs) (suc zero) rest h e = absurd (omega (arith, cost_fields_pos fs, h))
  read-value (arr (cons x xs)) (suc (suc fuel)) rest h e =
      ap (read_value (suc (suc fuel))) (arr_text (cons x xs) rest)
      ∙ value_arr (suc fuel) _ rest (cons x xs) (
          some_items fuel _ rest (cons x xs) (starts-items_text x xs rest)
            (read-items (cons x xs) fuel rest refl (omega (arith, h))))
  read-value (obj (field k v fs)) (suc (suc fuel)) rest h e =
      ap (read_value (suc (suc fuel))) (obj_text (field k v fs) rest)
      ∙ value_obj (suc fuel) _ rest (field k v fs) (
          some_fields fuel _ rest (field k v fs) (starts-fields_text k v fs rest)
            (read-fields (field k v fs) fuel rest refl (omega (arith, h))))

  read-items :
      (xs : Items) (fuel : ℕ) (rest : Text)
      → has_item xs ≡ true
      → cost_items xs ≤ suc fuel
      → read_more_items fuel (items_text xs rest) ≡ some (xs, rest)
  read-items nil fuel rest full h = cc
  read-items (cons x xs) zero rest full h = absurd (omega (arith, h))
  read-items (cons x nil) (suc fuel) rest full h =
      last_item fuel _ rest x (read-value x fuel (93 ∷ rest) (omega (arith, h)) refl)
  read-items (cons x (cons y ys)) (suc fuel) rest full h =
      next_item fuel _ rest x (cons y ys) _ (read-value x fuel _ (omega (arith, h)) refl)
        (read-items (cons y ys) fuel rest refl (omega (arith, h)))

  read-fields :
      (fs : Fields) (fuel : ℕ) (rest : Text)
      → has_field fs ≡ true
      → cost_fields fs ≤ suc fuel
      → read_more_fields fuel (fields_text fs rest) ≡ some (fs, rest)
  read-fields end fuel rest full h = cc
  read-fields (field k v fs) zero rest full h = absurd (omega (arith, h))
  read-fields (field k v end) (suc fuel) rest full h =
      ap (read_more_fields (suc fuel)) (quote_text k _)
      ∙ last_field fuel _ rest k v _ (read-escape k _)
          (read-value v fuel (125 ∷ rest) (omega (arith, h)) refl)
  read-fields (field k v (field l u fs)) (suc fuel) rest full h =
      ap (read_more_fields (suc fuel)) (quote_text k _)
      ∙ next_field fuel _ rest k v (field l u fs) _ _ (read-escape k _)
          (read-value v fuel _ (omega (arith, h)) refl)
          (read-fields (field l u fs) fuel rest refl (omega (arith, h)))

length-arr : (xs : Items) → length (stringify (arr xs)) ≡ length (91 ∷ items_text xs [])
length-arr xs = ap length (sym (append-nil _) ∙ arr_text xs [])

length-obj : (fs : Fields) → length (stringify (obj fs)) ≡ length (123 ∷ fields_text fs [])
length-obj fs = ap length (sym (append-nil _) ∙ obj_text fs [])

leaf-le : (j : Json) → 1 ≤ length (stringify j)
unfolding stringify quote
leaf-le null = omega arith
leaf-le (bool true) = omega arith
leaf-le (bool false) = omega arith
leaf-le (num m ms) = omega arith
leaf-le (str t) = omega arith
leaf-le (arr xs) = omega arith
leaf-le (obj fs) = omega arith

-- Two for each character are enough fuel.
mutual
  unfolding cost cost_items cost_fields items_text fields_text

  cost-le : (j : Json) → cost j ≤ 2 * length (stringify j)
  cost-le null = omega (arith, leaf-le null)
  cost-le (bool b) = omega (arith, leaf-le (bool b))
  cost-le (num m ms) = omega (arith, leaf-le (num m ms))
  cost-le (str t) = omega (arith, leaf-le (str t))
  cost-le (arr xs) = omega (arith, length-arr xs, cost_items-le xs [])
  cost-le (obj fs) = omega (arith, length-obj fs, cost_fields-le fs [])

  cost_items-le : (xs : Items) (rest : Text) → cost_items xs ≤ 1 + 2 * length (items_text xs rest)
  cost_items-le nil rest = omega arith
  cost_items-le (cons x nil) rest =
      omega (arith, cost-le x, length-append (stringify x) (93 ∷ rest))
  cost_items-le (cons x (cons y ys)) rest = omega (
    arith,
    cost-le x,
    cost_items-le (cons y ys) rest,
    length-append (stringify x) (44 ∷ items_text (cons y ys) rest),
  )

  cost_fields-le :
      (fs : Fields) (rest : Text) → cost_fields fs ≤ 1 + 2 * length (fields_text fs rest)
  cost_fields-le end rest = omega arith
  cost_fields-le (field k v end) rest = omega (
    arith,
    cost-le v,
    length-append (quote k) (58 ∷ (stringify v ++ (125 ∷ rest))),
    length-append (stringify v) (125 ∷ rest),
  )
  cost_fields-le (field k v (field l u fs)) rest = omega (
    arith,
    cost-le v,
    cost_fields-le (field l u fs) rest,
    length-append (quote k) (58 ∷ (stringify v ++ (44 ∷ fields_text (field l u fs) rest))),
    length-append (stringify v) (44 ∷ fields_text (field l u fs) rest),
  )

-- `JSON.parse(JSON.stringify(value))` is the value, for every JSON value.
pub json_parse-stringify : (j : Json) → json_parse (stringify j) ≡ some j
unfolding json_parse whole
json_parse-stringify j = ap whole (
    ap (read_value (suc (suc (length (stringify j) * 2)))) (sym (append-nil (stringify j)))
    ∙ read-value j (suc (suc (length (stringify j) * 2))) [] (omega (arith, cost-le j)) tt)

-- Two values with one text are the same value.
pub stringify_injective : (i j : Json) → stringify i ≡ stringify j → i ≡ j
stringify_injective i j same =
    some_injective (sym (json_parse-stringify i) ∙ ap json_parse same ∙ json_parse-stringify j)
  where
    some_injective : {a b : Json} → some a ≡ some b → a ≡ b
    some_injective e = cc
