-- ===== src/Json/Layout.antt =====
-- The texts of arrays and objects (`JSON.stringify`) cut where `JSON.parse` reads them, and the fuel
-- that reading them takes.
use potens_intern_backend_sh.Common.{
  ℕ, suc, ◌+◌, ◌≡◌, refl, ap, ◌∙◌, [], ◌∷◌, ◌++◌, append_assoc, Text, codes, join,
}
use potens_intern_backend_sh.Json.{
  Json, null, bool, num, str, arr, obj, Items, nil, cons, Fields, end, field, quote, escape,
  stringify, item_texts, field_texts,
}

-- The fuel that is enough to read a value.
unfoldable mutual
  pub cost : Json → ℕ
  cost null = 1
  cost (bool b) = 1
  cost (num m ms) = 1
  cost (str t) = 1
  cost (arr xs) = suc (cost_items xs)
  cost (obj fs) = suc (cost_fields fs)

  pub cost_items : Items → ℕ
  cost_items nil = 1
  cost_items (cons x xs) = suc (suc (cost x + cost_items xs))

  pub cost_fields : Fields → ℕ
  cost_fields end = 1
  cost_fields (field k v fs) = suc (suc (cost v + cost_fields fs))

-- The items of an array and the fields of an object, with the bracket that closes, and what stands
-- behind.
unfoldable pub items_text : Items → Text → Text
items_text nil rest = 93 ∷ rest
items_text (cons x nil) rest = stringify x ++ (93 ∷ rest)
items_text (cons x (cons y ys)) rest = stringify x ++ (44 ∷ items_text (cons y ys) rest)

unfoldable pub fields_text : Fields → Text → Text
fields_text end rest = 125 ∷ rest
fields_text (field k v end) rest = quote k ++ (58 ∷ (stringify v ++ (125 ∷ rest)))
fields_text (field k v (field l u fs)) rest =
    quote k ++ (58 ∷ (stringify v ++ (44 ∷ fields_text (field l u fs) rest)))

join-items :
    (xs : Items) (rest : Text)
    → join (codes ",") (item_texts xs) ++ (93 ∷ rest) ≡ items_text xs rest
unfolding join items_text stringify
join-items nil rest = refl
join-items (cons x nil) rest = refl
join-items (cons x (cons y ys)) rest =
    append_assoc (stringify x) (44 ∷ join (codes ",") (item_texts (cons y ys))) (93 ∷ rest)
    ∙ ap (λ (t : Text). stringify x ++ (44 ∷ t)) (join-items (cons y ys) rest)

join-fields :
    (fs : Fields) (rest : Text)
    → join (codes ",") (field_texts fs) ++ (125 ∷ rest) ≡ fields_text fs rest
unfolding join fields_text stringify
join-fields end rest = refl
join-fields (field k v end) rest = append_assoc (quote k) (58 ∷ stringify v) (125 ∷ rest)
join-fields (field k v (field l u fs)) rest =
    append_assoc (quote k ++ (58 ∷ stringify v))
      (44 ∷ join (codes ",") (field_texts (field l u fs))) (125 ∷ rest)
    ∙ append_assoc (quote k) (58 ∷ stringify v) _
    ∙ ap (λ (t : Text). quote k ++ (58 ∷ (stringify v ++ (44 ∷ t))))
        (join-fields (field l u fs) rest)

pub arr_text : (xs : Items) (rest : Text) → stringify (arr xs) ++ rest ≡ 91 ∷ items_text xs rest
unfolding stringify
arr_text xs rest =
    ap (λ (t : Text). 91 ∷ t)
      (append_assoc (join (codes ",") (item_texts xs)) (93 ∷ []) rest ∙ join-items xs rest)

pub obj_text : (fs : Fields) (rest : Text) → stringify (obj fs) ++ rest ≡ 123 ∷ fields_text fs rest
unfolding stringify
obj_text fs rest =
    ap (λ (t : Text). 123 ∷ t)
      (append_assoc (join (codes ",") (field_texts fs)) (125 ∷ []) rest ∙ join-fields fs rest)

pub quote_text : (t rest : Text) → quote t ++ rest ≡ 34 ∷ (escape t ++ (34 ∷ rest))
unfolding quote
quote_text t rest = ap (λ (u : Text). 34 ∷ u) (append_assoc (escape t) (34 ∷ []) rest)
