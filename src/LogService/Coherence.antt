-- ===== src/LogService/Coherence.antt =====
-- The agreement of the cache of src/services/log.service.js with the table.
pub mod Writes
use mathlib.Core.Path.{subst}
use potens_intern_backend_sh.Common.{
  ℕ, ◌+◌, ◌≡◌, refl, sym, ap, ◌∙◌, ◌⊎◌, inl, inr, Bool, Option, none, some, List, [], ◌∷◌, ◌++◌,
  Text, All, All-map, false, codes, text_eq, text_eq_iff, arith, Bool-cases, Option-cases, ◌>>=◌,
}
use potens_intern_backend_sh.Hash.{LogEntry, date}
use potens_intern_backend_sh.Errors.{Result, ok, err, app_error, database, new_app_error}
use potens_intern_backend_sh.Database.{Row, Db, Postgres, Query, to_entry}
use potens_intern_backend_sh.Repository.{first, find_by_id}
use potens_intern_backend_sh.Repository.Lookup.{find_by_id_of_IsCreated}
use potens_intern_backend_sh.Redis
use potens_intern_backend_sh.Redis.{Redis, IsStore}
use potens_intern_backend_sh.Json.{Json, stringify}
use potens_intern_backend_sh.Json.Parse.{json_parse}
use potens_intern_backend_sh.Json.RoundTrip.{json_parse-stringify}
use potens_intern_backend_sh.Copies.{
  Summary, summary_json, entry_json, json_entry, read_entry, read_entry-entry_json,
}
use potens_intern_backend_sh.Redis.Laws.{set-only, set-IsStore}
use potens_intern_backend_sh.LogService.{
  World, Body, Found, found, status_of, log_key, latest_log_key, cached_entry, load_entry,
  after_cache, get_log_by_id, create_log_entry,
}
use potens_intern_backend_sh.LogService.Creation.{Effect, create_log_entry-Effect}
use potens_intern_backend_sh.LogService.Reads.{status_of-json}

-- What `createLogEntry` writes of a row under the key of the latest entry.
abbrev pub summary_of : Row → Summary
summary_of row = record {
  id = row.id;
  current_hash = row.current_hash;
  created_at = date row.created_at;
}

-- A cached text is the summary of a row of the table, not always the last one, under "latest_log", or
-- it is a row under the key of its id.
abbrev pub Backed : Db → Text → Text → Type 0
Backed db key value =
    ((row : Row) × (key ≡ latest_log_key)
      × (find_by_id row.id db ≡ some row)
      × (value ≡ stringify (summary_json (summary_of row))))
    ⊎ ((id : Text) × (row : Row) × (key ≡ log_key id)
        × (find_by_id id db ≡ some row)
        × (value ≡ stringify (entry_json (to_entry row))))

-- The server behaves as documented, and whatever it answers is backed by the table.
pub record IsCoherent (w : World) : Type 0 where
  pub store : IsStore w.redis
  pub backed : (key : Text) (v : Text) → w.redis.answers key ≡ some v → Backed w.db key v

first-append :
    (keep : Row → Bool) (rows more : List Row) (r : Row)
    → first keep rows ≡ some r
    → first keep (rows ++ more) ≡ some r
unfolding first
first-append keep [] more r h = cc
first-append keep (x ∷ rows) more r h = ground (arith, first-append keep rows more r)

pub find_by_id-append :
    (id : Text) (db after : Db) (more : List Row) (r : Row)
    → after.log_entries ≡ db.log_entries ++ more
    → find_by_id id db ≡ some r
    → find_by_id id after ≡ some r
unfolding find_by_id
find_by_id-append id db after more r grown h =
    rw grown (first-append (λ x. text_eq x.id id) db.log_entries more r h)

pub Backed-append :
    (db after : Db) (more : List Row) (key : Text) (v : Text)
    → after.log_entries ≡ db.log_entries ++ more
    → Backed db key v
    → Backed after key v
Backed-append db after more key v grown (inl (row, latest, stored, value)) =
    inl (row, latest, find_by_id-append row.id db after more row grown stored, value)
Backed-append db after more key v grown (inr (id, row, same, stored, value)) =
    inr (id, row, same, find_by_id-append id db after more row grown stored, value)

-- A write of a backed value.
pub IsCoherent-set :
    (w : World) (k : Text) (v : Json) (ttl : ℕ)
    → Backed w.db k (stringify v)
    → IsCoherent w
    → IsCoherent (record w { redis = Redis.set k v ttl w.redis })
IsCoherent-set w k v ttl new h = record {
  store = set-IsStore k v ttl w.redis h.store;
  backed = λ key x held. after key x (set-only k v ttl w.redis key x h.store held);
}
  where
    after :
        (key : Text) (x : Text)
        → ((k ≡ key) × (stringify v ≡ x)) ⊎ (w.redis.answers key ≡ some x)
        → Backed w.db key x
    after key x (inl (same, value)) =
        subst (λ (y : Text). Backed w.db key y) value
          (subst (λ (j : Text). Backed w.db j (stringify v)) same new)
    after key x (inr held) = h.backed key x held

-- More rows.
pub IsCoherent-append :
    (w : World) (db : Db) (more : List Row)
    → db.log_entries ≡ w.db.log_entries ++ more
    → IsCoherent w
    → IsCoherent (record w { db = db })
IsCoherent-append w db more grown h = record {
  store = h.store;
  backed = λ key v held. Backed-append w.db db more key v grown (h.backed key v held);
}

of_Backed :
    (db : Db) (id key : Text) (v : Text)
    → Backed db key v
    → key ≡ log_key id
    → (row : Row) × (find_by_id id db ≡ some row) × (v ≡ stringify (entry_json (to_entry row)))
of_Backed db id key v (inl (s, latest, stored, value)) here =
    let clash : latest_log_key ≡ log_key id = sym latest ∙ here in absurd (ground (arith, clash))
of_Backed db id key v (inr (id', row, key', stored, value)) here =
    let same : id' ≡ id = cc in
    (row, subst (λ (i : Text). find_by_id i db ≡ some row) same stored, value)

-- What is read under the key of an id is nothing, or the copy of the row with that id.
pub cached_of_IsCoherent :
    (w : World) (id : Text)
    → IsCoherent w
    → (cached_entry (Redis.get (log_key id) w.redis) ≡ none)
      ⊎ ((row : Row) × (find_by_id id w.db ≡ some row)
          × (cached_entry (Redis.get (log_key id) w.redis) ≡ some (json_entry (to_entry row))))
unfolding Redis.get cached_entry ◌>>=◌
cached_of_IsCoherent w id h = elim (Bool-cases w.redis.up) [
  | inr down ↦ inl (simp down refl)
  | inl up ↦ elim (Option-cases (w.redis.answers (log_key id))) [
    | inl nothing ↦ inl (simp (up, nothing) refl)
    | inr (raw, held) ↦
        let (row, stored, value) =
          of_Backed w.db id (log_key id) raw (h.backed (log_key id) raw held) refl in
        let e = to_entry row in
        let text = held ∙ ap some value in
        inr (
          row,
          stored,
          simp (up, text, json_parse-stringify (entry_json e), read_entry-entry_json e) refl,
        )
  ]
]

-- A request to create an entry, whatever it meets, keeps the cache in agreement with the table.
pub create_log_entry-IsCoherent :
    (sha256 : List ℕ → Text) (pg : Postgres) (ttl : ℕ) (fails : Query → Bool) (id : Text) (now : ℕ)
    (body : Body) (w : World)
    → IsCoherent w
    → IsCoherent (create_log_entry sha256 pg ttl fails id now body w).1
create_log_entry-IsCoherent sha256 pg ttl fails id now body w h =
    kept _ (create_log_entry-Effect sha256 pg ttl fails id now body w)
  where
    kept : (r : Result LogEntry × World) → Effect sha256 pg ttl id now body w r → IsCoherent r.1
    kept r (inl (e, thrown, same)) = subst IsCoherent (sym same) h
    kept r (inr (row, returned, made, cache, queue)) =
        let grown = IsCoherent-append w r.1.db (row ∷ []) made.appended h in
        let set =
          IsCoherent-set (record w { db = r.1.db }) latest_log_key _ ttl
            (inl (
              row,
              refl,
              subst (λ (i : Text). find_by_id i r.1.db ≡ some row) (sym made.new_id)
                  (find_by_id_of_IsCreated sha256 pg made),
              refl,
            ))
            grown in
        record {
          store = subst IsStore (sym cache) set.store;
          backed =
              subst
                (λ (x : Redis).
                  (key : Text) (v : Text) → x.answers key ≡ some v → Backed r.1.db key v)
                (sym cache) set.backed;
        }

module _ (sha256 : List ℕ → Text) (ttl : ℕ) (id : Text) where
  load_entry-IsCoherent :
      (w : World) (o : Option Row)
      → find_by_id id w.db ≡ o
      → IsCoherent w
      → IsCoherent (load_entry sha256 ttl id o w).1
  unfolding load_entry
  load_entry-IsCoherent w none stored h = h
  load_entry-IsCoherent w (some row) stored h =
      IsCoherent-set w (log_key id) (entry_json (to_entry row)) ttl
        (inr (id, row, refl, stored, refl)) h

  after_cache-IsCoherent :
      (w : World) (o : Option LogEntry)
      → IsCoherent w
      → IsCoherent (after_cache sha256 ttl id o w).1
  unfolding after_cache
  after_cache-IsCoherent w none h = elim (Bool-cases w.db_answers) [
    | inl answers ↦ simp answers (load_entry-IsCoherent w _ refl h)
    | inr silent ↦ simp silent h
  ]
  after_cache-IsCoherent w (some x) h = h

  -- A read keeps the cache in agreement with the table.
  pub get_log_by_id-IsCoherent :
      (w : World) → IsCoherent w → IsCoherent (get_log_by_id sha256 ttl id w).1
  unfolding get_log_by_id
  get_log_by_id-IsCoherent w h = after_cache-IsCoherent w _ h
