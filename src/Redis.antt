-- ===== src/Redis.antt =====
-- src/services/redis.service.js: the cache operations, which never throw, over a server behind ioredis
-- that is known by the answers to its commands.
pub mod Laws
use potens_intern_backend_sh.Common.{
  ℕ, ◌*◌, ◌<◌, ◌≡◌, ◌≢◌, ◌⊎◌, Bool, Option, none, some, Text, min, if◌then◌else◌, ◌>>=◌,
}
use potens_intern_backend_sh.Json.{Json, stringify}
use potens_intern_backend_sh.Json.Parse.{json_parse}

-- What the server answers to GET, by the key.
abbrev pub Answers : Type 0
Answers = Text → Option Text

-- `up` is whether commands are fulfilled or rejected; a command that never settles is not modelled.
-- `answers` is what GET answers now; SETEX and DEL are what these commands make of that.
pub record Redis : Type 0 where
  pub up : Bool
  pub answers : Answers
  pub setex : Text → ℕ → Text → Answers → Answers
  pub delete : Text → Answers → Answers

-- The new answers give no value but the old ones: keys may have been dropped or may have expired.
abbrev pub Within : Answers → Answers → Type 0
Within before after = (key : Text) (v : Text) → after key ≡ some v → before key ≡ some v

-- What Redis documents of its commands. SETEX makes its key answer with the value, and neither command
-- makes up any other value; that they make no other key fail is what `keeps` says.
pub record IsStore (r : Redis) : Type 0 where
  pub gives :
      (key : Text) (ttl : ℕ) (v : Text) (a : Answers) → 0 < ttl → r.setex key ttl v a key ≡ some v
  pub only :
      (key : Text) (ttl : ℕ) (v : Text) (a : Answers) (k : Text) (x : Text)
      → r.setex key ttl v a k ≡ some x
      → ((key ≡ k) × (v ≡ x)) ⊎ (a k ≡ some x)
  pub keeps :
      (key : Text) (ttl : ℕ) (v : Text) (a : Answers) (k : Text)
      → key ≢ k
      → r.setex key ttl v a k ≡ a k
  pub deletes : (key : Text) (a : Answers) → r.delete key a key ≡ none
  pub spares : (key : Text) (a : Answers) (k : Text) → key ≢ k → r.delete key a k ≡ a k

-- `get`: null on a miss, and on any error, that of `JSON.parse` included.
unfoldable pub get : Text → Redis → Option Json
unfolding ◌>>=◌
get key r = if r.up then (r.answers key >>= json_parse) else none

-- `set`: an error is logged, and the write is skipped.
unfoldable pub set : Text → Json → ℕ → Redis → Redis
set key value ttl_seconds r =
    if r.up then record r { answers = r.setex key ttl_seconds (stringify value) r.answers } else r

unfoldable pub del : Text → Redis → Redis
del key r = if r.up then record r { answers = r.delete key r.answers } else r

-- `retryStrategy`: milliseconds before the given attempt.
unfoldable pub retry_delay : ℕ → ℕ
retry_delay times = min (times * 200) 10_000
