-- ===== src/Redis/Laws.antt =====
-- The cache after a write or a deletion (`get`, `set` and `del` of src/services/redis.service.js).
use potens_intern_backend_sh.Common.{
  ℕ, ◌<◌, ◌≡◌, ◌⊎◌, inl, inr, true, false, ◌&&◌, none, some, Text, Bool-cases, arith, text_eq,
  text_eq_iff, ◌>>=◌, if◌then◌else◌,
}
use potens_intern_backend_sh.Json.{Json, stringify}
use potens_intern_backend_sh.Json.RoundTrip.{json_parse-stringify}
use potens_intern_backend_sh.Redis.{Redis, IsStore, get, set, del}

-- A key that was set is read back.
pub get-set_self :
    (k : Text) (v : Json) (ttl : ℕ) (r : Redis)
    → IsStore r
    → r.up ≡ true
    → 0 < ttl
    → get k (set k v ttl r) ≡ some v
unfolding get set
get-set_self k v ttl r store up live =
    simp (up, store.gives k ttl (stringify v) r.answers live) (json_parse-stringify v)

get-set :
    (k j : Text) (v : Json) (ttl : ℕ) (r : Redis)
    → IsStore r
    → 0 < ttl
    → get j (set k v ttl r) ≡ (if r.up && text_eq k j then some v else get j r)
unfolding get set ◌>>=◌
get-set k j v ttl r store live = elim (Bool-cases (text_eq k j)) [
  | inl same ↦
      let key : k ≡ j = (text_eq_iff k j).0 same in
      rw (← key) (
        ground (
          arith,
          text_eq_iff k k,
          store.gives k ttl (stringify v) r.answers live,
          json_parse-stringify v,
        ))
  | inr other ↦ ground (arith, text_eq_iff k j, store.keeps k ttl (stringify v) r.answers j)
]

get-del :
    (k j : Text) (r : Redis) → IsStore r → get j (del k r) ≡ (if text_eq k j then none else get j r)
unfolding get del
get-del k j r store =
    ground (arith, text_eq_iff k j, store.deletes k r.answers, store.spares k r.answers j)

-- What `get` returns after `set` with a time to live that is not 0, and after `del`: while Redis
-- answers, a key that was set gives its value and a key that was deleted null; any
-- other key gives what it gave. While Redis does not answer, all give null, before and after.
pub reads_after :
    (k j : Text) (v : Json) (ttl : ℕ) (r : Redis)
    → IsStore r
    → 0 < ttl
    → (get j (set k v ttl r) ≡ (if r.up && text_eq k j then some v else get j r))
      × (get j (del k r) ≡ (if text_eq k j then none else get j r))
      × (r.up ≡ false → get j r ≡ none)
unfolding get
reads_after k j v ttl r store live =
    (get-set k j v ttl r store live, get-del k j r store, λ down. rw down)

-- A write makes up no value, and a server stays one.
pub set-only :
    (k : Text) (v : Json) (ttl : ℕ) (r : Redis) (j : Text) (x : Text)
    → IsStore r
    → (set k v ttl r).answers j ≡ some x
    → ((k ≡ j) × (stringify v ≡ x)) ⊎ (r.answers j ≡ some x)
unfolding set
set-only k v ttl r j x store = elim (Bool-cases r.up) [
  | inl up ↦ simp up (store.only k ttl (stringify v) r.answers j x)
  | inr down ↦ simp down (λ e. inr e)
]

pub set-IsStore : (k : Text) (v : Json) (ttl : ℕ) (r : Redis) → IsStore r → IsStore (set k v ttl r)
unfolding set
set-IsStore k v ttl r store = elim (Bool-cases r.up) [
  | inl up ↦ simp up (record {
    gives = store.gives;
    only = store.only;
    keeps = store.keeps;
    deletes = store.deletes;
    spares = store.spares;
  })
  | inr down ↦ simp down store
]
