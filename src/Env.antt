-- ===== src/Env.antt =====
-- src/config/env.js: the schema of the environment and the configuration that it gives. What
-- `z.coerce.number()` makes of a text, and what zod takes for a URL, are parameters.
pub mod Bounds
use potens_intern_backend_sh.Common.{
  ℕ, zero, suc, Bool, true, false, Option, none, some, List, [], ◌∷◌, Text, codes, ◌>>=◌, text_eq,
  leb, if◌then◌else◌,
}

-- A whole number, or any other result, NaN among them.
pub data Coerced : Type 0 where
  whole : ℕ → Coerced
  not_whole : Coerced

pub record Coercion : Type 0 where
  pub number : Text → Coerced
  pub is_url : Text → Bool

-- The frozen configuration.
pub record Settings : Type 0 where
  pub port : ℕ
  pub node_env : Text
  pub database_url : Text
  pub log_level : Text
  pub rate_limit_max : ℕ
  pub rate_limit_window_ms : ℕ
  pub api_key : Text
  pub cors_origin : Text
  pub redis_url : Text
  pub queue_concurrency : ℕ
  pub cache_ttl_seconds : ℕ

-- `z.string().min(1)`
unfoldable pub required_text : Option Text → Option Text
required_text none = none
required_text (some []) = none
required_text (some (c ∷ s)) = some (c ∷ s)

unfoldable pub is_among : Text → List Text → Bool
is_among t [] = false
is_among t (u ∷ us) = let rest = is_among t us in if text_eq t u then true else rest

-- `z.enum(values)`
unfoldable pub enum : List Text → Option Text → Option Text
unfolding is_among
enum values none = none
enum values (some t) = if is_among t values then some t else none

-- `.default(value)`: a variable that is not set takes the value, and is not looked at further.
unfoldable pub default {ℓ} : {A : Type ℓ} → A → (Text → Option A) → Option Text → Option A
default value check none = some value
default value check (some t) = check t

-- `.int().min(1)` and `.int().positive()`
unfoldable pub positive : Coerced → Option ℕ
positive (whole zero) = none
positive (whole (suc n)) = some (suc n)
positive not_whole = none

unfoldable pub at_most : ℕ → ℕ → Option ℕ
at_most most n = if leb n most then some n else none

-- Number(undefined) is NaN.
unfoldable pub port_of : Coercion → Option Text → Option ℕ
unfolding positive at_most ◌>>=◌
port_of coercion none = none
port_of coercion (some t) = positive (coercion.number t) >>= at_most 65535

unfoldable pub url : Coercion → Text → Option Text
url coercion t = if coercion.is_url t then some t else none

abbrev pub node_envs : List Text
node_envs = codes "development" ∷ codes "test" ∷ codes "production" ∷ []

abbrev pub log_levels : List Text
log_levels =
    codes "trace" ∷ codes "debug" ∷ codes "info" ∷ codes "warn" ∷ codes "error" ∷ codes "fatal" ∷ []

abbrev pub count_or : Coercion → ℕ → Option Text → Option ℕ
count_or coercion value = default value (λ t. positive (coercion.number t))

-- `envSchema.safeParse(process.env)` and the configuration; `none` ends the process with code 1.
unfoldable pub load_settings : Coercion → (Text → Option Text) → Option Settings
unfolding ◌>>=◌ required_text enum default positive port_of url
load_settings coercion env = do
  port ← port_of coercion (env (codes "PORT"))
  node_env ← enum node_envs (env (codes "NODE_ENV"))
  database_url ← required_text (env (codes "DATABASE_URL"))
  log_level ← default (codes "info") (λ t. enum log_levels (some t)) (env (codes "LOG_LEVEL"))
  rate_limit_max ← count_or coercion 100 (env (codes "RATE_LIMIT_MAX"))
  rate_limit_window_ms ← count_or coercion 60000 (env (codes "RATE_LIMIT_WINDOW_MS"))
  api_key ← required_text (env (codes "API_KEY"))
  cors_origin ← default (codes "*") some (env (codes "CORS_ORIGIN"))
  redis_url ← default (codes "redis://localhost:6379") (url coercion) (env (codes "REDIS_URL"))
  queue_concurrency ← count_or coercion 2 (env (codes "QUEUE_CONCURRENCY"))
  cache_ttl_seconds ← count_or coercion 600 (env (codes "CACHE_TTL_SECONDS"))
  some (record {
    port = port;
    node_env = node_env;
    database_url = database_url;
    log_level = log_level;
    rate_limit_max = rate_limit_max;
    rate_limit_window_ms = rate_limit_window_ms;
    api_key = api_key;
    cors_origin = cors_origin;
    redis_url = redis_url;
    queue_concurrency = queue_concurrency;
    cache_ttl_seconds = cache_ttl_seconds;
  })
