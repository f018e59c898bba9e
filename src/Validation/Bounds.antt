-- ===== src/Validation/Bounds.antt =====
-- What src/validators/log.validator.js accepts, against the columns of prisma/schema.prisma.
use mathlib.Core.Path.{subst}
use potens_intern_backend_sh.Common.{
  ℕ, ◌≤◌, ◌≡◌, ◌⊎◌, sym, refl, inl, inr, Bool, ◌||◌, Option, none, some, List, [], ◌∷◌, Text, codes,
  text_eq, length, arith, ltb, Bool-cases,
}
use potens_intern_backend_sh.Json.{property_of, Json, null, bool, num, str, arr, obj, Fields}
use potens_intern_backend_sh.Hash.Digest.{IsDigest}
use potens_intern_backend_sh.Hash.{
  generate_hash, create_genesis_hash, calculate_current_hash, genesis_previous_hash,
}
use potens_intern_backend_sh.Database.{Row, Postgres, characters, is_taken, violates}
use potens_intern_backend_sh.Repository.{CreateDto, new_row, next_hashes}
use potens_intern_backend_sh.LogService.{Body}
use potens_intern_backend_sh.LogService.Creation.{to_dto}
use potens_intern_backend_sh.Validation.{
  text_within, without_proto, record_or_null, body_of, create_log_schema,
}

-- What a validated body holds.
pub record IsValidated (body : Body) : Type 0 where
  pub actor_least : 1 ≤ length body.actor
  pub actor_most : length body.actor ≤ 100
  pub action_least : 1 ≤ length body.action
  pub action_most : length body.action ≤ 500
  pub payload : (body.payload ≡ some null) ⊎ ((fs : Fields) × (body.payload ≡ some (obj fs)))

text_within_bounds :
    (n : ℕ) (o : Option Json) (t : Text)
    → text_within n o ≡ some t
    → (1 ≤ length t) × (length t ≤ n)
unfolding text_within
text_within_bounds n none t h = cc
text_within_bounds n (some null) t h = cc
text_within_bounds n (some (bool b)) t h = cc
text_within_bounds n (some (num s ms)) t h = cc
text_within_bounds n (some (str s)) t h = ground arith
text_within_bounds n (some (arr xs)) t h = cc
text_within_bounds n (some (obj fs)) t h = cc

record_or_null_cases :
    (o : Option Json) (j : Json)
    → record_or_null o ≡ some j
    → (some j ≡ some null) ⊎ ((fs : Fields) × (some j ≡ some (obj fs)))
unfolding record_or_null
record_or_null_cases none j h = inl (sym h)
record_or_null_cases (some null) j h = inl (sym h)
record_or_null_cases (some (bool b)) j h = cc
record_or_null_cases (some (num s ms)) j h = cc
record_or_null_cases (some (str s)) j h = cc
record_or_null_cases (some (arr xs)) j h = cc
record_or_null_cases (some (obj fs)) j h = inr (without_proto fs, sym h)

body_of_inv :
    (a b : Option Text) (p : Option Json) (body : Body)
    → body_of a b p ≡ some body
    → (a ≡ some body.actor)
      × (b ≡ some body.action)
      × ((j : Json) × (p ≡ some j) × (some j ≡ body.payload))
unfolding body_of
body_of_inv none b p body h = cc
body_of_inv (some a) none p body h = cc
body_of_inv (some a) (some b) none body h = cc
body_of_inv (some a) (some b) (some j) body h = (cc, cc, (j, refl, cc))

body_of-IsValidated :
    (a b p : Option Json) (body : Body)
    → body_of (text_within 100 a) (text_within 500 b) (record_or_null p) ≡ some body
    → IsValidated body
body_of-IsValidated a b p body h =
    let (actor, action, (j, payload, same)) = body_of_inv _ _ _ body h in
    let (actor_least, actor_most) = text_within_bounds 100 a body.actor actor in
    let (action_least, action_most) = text_within_bounds 500 b body.action action in
    record {
      actor_least = actor_least;
      actor_most = actor_most;
      action_least = action_least;
      action_most = action_most;
      payload =
          subst (λ (o : Option Json). (o ≡ some null) ⊎ ((fs : Fields) × (o ≡ some (obj fs)))) same
            (record_or_null_cases p j payload);
    }

-- A body that the schema accepts has an actor of 1 to 100 and an action of 1 to 500 UTF-16 units,
-- and a payload that is null or an object.
pub create_log_schema-IsValidated :
    (json : Json) (body : Body) → create_log_schema json ≡ some body → IsValidated body
unfolding create_log_schema
create_log_schema-IsValidated null body h = cc
create_log_schema-IsValidated (bool b) body h = cc
create_log_schema-IsValidated (num t ms) body h = cc
create_log_schema-IsValidated (str t) body h = cc
create_log_schema-IsValidated (arr xs) body h = cc
create_log_schema-IsValidated (obj fs) body h =
    body_of-IsValidated (property_of (codes "actor") fs) (property_of (codes "action") fs)
      (property_of (codes "payload") fs) body h

characters-le-length : (t : Text) → characters t ≤ length t
unfolding characters
characters-le-length [] = omega arith
characters-le-length (c ∷ []) = omega arith
characters-le-length (c ∷ d ∷ rest) =
    ground (arith, characters-le-length rest, characters-le-length (d ∷ rest))

current_hash_long :
    (sha256 : List ℕ → Text) (pg : Postgres) (id latest : Text) (dto : CreateDto)
    → IsDigest sha256
    → length (new_row sha256 pg id latest dto).current_hash ≡ 64
unfolding new_row next_hashes create_genesis_hash calculate_current_hash generate_hash
current_hash_long sha256 pg id latest dto digest =
    elim (Bool-cases (text_eq latest genesis_previous_hash)) [
      | inl genesis ↦ rw genesis (digest.long _)
      | inr later ↦ rw later (digest.long _)
    ]

no_excess :
    (b : Bool) (x y z : ℕ)
    → x ≤ 255
    → y ≤ 500
    → z ≤ 128
    → (b || ltb 255 x || ltb 500 y || ltb 128 z) ≡ b
no_excess b x y z hx hy hz = ground arith

-- A validated request fits the columns: the only constraint that its row can violate is that its id
-- or its hash is taken.
pub validated_fits :
    (sha256 : List ℕ → Text) (pg : Postgres) (rows : List Row) (id latest : Text) (now : ℕ)
    (json : Json) (body : Body)
    → IsDigest sha256
    → create_log_schema json ≡ some body
    → (let row = new_row sha256 pg id latest (to_dto now body) in
        violates rows row ≡ is_taken rows row)
unfolding violates
validated_fits sha256 pg rows id latest now json body digest valid =
    let row = new_row sha256 pg id latest (to_dto now body) in
    let bounds = create_log_schema-IsValidated json body valid in
    let hash = current_hash_long sha256 pg id latest (to_dto now body) digest in
    let same_actor : row.actor ≡ body.actor = unfold new_row in refl in
    let same_action : row.action ≡ body.action = unfold new_row in refl in
    let short_actor = characters-le-length body.actor in
    let short_action = characters-le-length body.action in
    let short_hash = characters-le-length row.current_hash in
    simp (same_actor, same_action)
      (no_excess (is_taken rows row) (characters body.actor) (characters body.action)
        (characters row.current_hash) (omega (arith, bounds.actor_most, short_actor))
        (omega (arith, bounds.action_most, short_action)) (omega (arith, hash, short_hash)))
