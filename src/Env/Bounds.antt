-- ===== src/Env/Bounds.antt =====
-- What a configuration of src/config/env.js holds, and what it holds by default.
use mathlib.Core.Path.{subst}
use potens_intern_backend_sh.Common.{
  ◌>>=◌, ℕ, zero, suc, ◌≤◌, ◌≡◌, ◌≢◌, refl, true, Option, none, some, List, [], ◌∷◌, Text, codes,
  text_eq, leb, arith,
}
use potens_intern_backend_sh.Env.{
  Coerced, whole, not_whole, Coercion, Settings, required_text, is_among, enum, default, positive,
  at_most, port_of, url, node_envs, log_levels, count_or, load_settings,
}

pub record IsConfigured (s : Settings) : Type 0 where
  pub port_least : 1 ≤ s.port
  pub port_most : s.port ≤ 65535
  pub node_env : is_among s.node_env node_envs ≡ true
  pub log_level : is_among s.log_level log_levels ≡ true
  pub api_key : s.api_key ≢ []
  pub database_url : s.database_url ≢ []
  pub rate_limit_max : 1 ≤ s.rate_limit_max
  pub rate_limit_window_ms : 1 ≤ s.rate_limit_window_ms
  pub queue_concurrency : 1 ≤ s.queue_concurrency
  pub cache_ttl_seconds : 1 ≤ s.cache_ttl_seconds

-- Whatever comes out of a computation has the property.
abbrev Ensures : (Settings → Type 0) → Option Settings → Type 0
Ensures P o = (s : Settings) → o ≡ some s → P s

Ensures-bind :
    {A : Type 0} (P : Settings → Type 0) (o : Option A) (f : A → Option Settings)
    → ((a : A) → o ≡ some a → Ensures P (f a))
    → Ensures P (o >>= f)
unfolding ◌>>=◌
Ensures-bind P none f h s e = cc
Ensures-bind P (some a) f h s e = h a refl s e

positive_least : (c : Coerced) (n : ℕ) → positive c ≡ some n → 1 ≤ n
unfolding positive
positive_least (whole zero) n h = cc
positive_least (whole (suc m)) n h = ground arith
positive_least not_whole n h = cc

count_or_least :
    (coercion : Coercion) (value : ℕ) (o : Option Text) (n : ℕ)
    → 1 ≤ value
    → count_or coercion value o ≡ some n
    → 1 ≤ n
unfolding default
count_or_least coercion value none n least h = ground arith
count_or_least coercion value (some t) n least h = positive_least (coercion.number t) n h

required_text-some : (o : Option Text) (t : Text) → required_text o ≡ some t → t ≢ []
unfolding required_text
required_text-some none t h = cc
required_text-some (some []) t h = cc
required_text-some (some (c ∷ s)) t h = λ e. cc

enum_among :
    (values : List Text) (o : Option Text) (t : Text)
    → enum values o ≡ some t
    → is_among t values ≡ true
unfolding enum
enum_among values none t h = cc
enum_among values (some u) t h = ground arith

info_among : is_among (codes "info") log_levels ≡ true
unfolding is_among text_eq
info_among = refl

log_level_among :
    (o : Option Text) (t : Text)
    → default (codes "info") (λ u. enum log_levels (some u)) o ≡ some t
    → is_among t log_levels ≡ true
unfolding default
log_level_among none t h = subst (λ u. is_among u log_levels ≡ true) (cc h) info_among
log_level_among (some u) t h = enum_among log_levels (some u) t h

port_most :
    (o : Option ℕ) (n : ℕ)
    → ((m : ℕ) → o ≡ some m → 1 ≤ m)
    → (o >>= at_most 65535) ≡ some n
    → (1 ≤ n) × (n ≤ 65535)
unfolding ◌>>=◌ at_most
port_most none n least h = cc
port_most (some m) n least h = let m_least = least m refl in ground arith

port_of_bounds :
    (coercion : Coercion) (o : Option Text) (n : ℕ)
    → port_of coercion o ≡ some n
    → (1 ≤ n) × (n ≤ 65535)
unfolding port_of at_most
port_of_bounds coercion none n h = cc
port_of_bounds coercion (some t) n h =
    port_most (positive (coercion.number t)) n (positive_least (coercion.number t)) h

-- The process starts only with a port from 1 to 65535, a known environment and log level, a key and a
-- database URL that are not empty, and with a limit, a window, a concurrency and a time to live of at
-- least 1.
pub load_settings-IsConfigured :
    (coercion : Coercion) (env : Text → Option Text) (s : Settings)
    → load_settings coercion env ≡ some s
    → IsConfigured s
unfolding load_settings
load_settings-IsConfigured coercion env =
    Ensures-bind IsConfigured (port_of coercion (env (codes "PORT"))) _ λ port has_port.
      Ensures-bind IsConfigured (enum node_envs (env (codes "NODE_ENV"))) _ λ node_env has_node_env.
        Ensures-bind IsConfigured (required_text (env (codes "DATABASE_URL"))) _
          λ database_url has_database_url.
            Ensures-bind IsConfigured
              (default (codes "info") (λ t. enum log_levels (some t)) (env (codes "LOG_LEVEL"))) _
              λ log_level has_log_level.
                Ensures-bind IsConfigured (count_or coercion 100 (env (codes "RATE_LIMIT_MAX"))) _
                  λ rate_limit_max has_rate_limit_max.
                    Ensures-bind IsConfigured
                      (count_or coercion 60000 (env (codes "RATE_LIMIT_WINDOW_MS"))) _
                      λ rate_limit_window_ms has_rate_limit_window_ms.
                        Ensures-bind IsConfigured (required_text (env (codes "API_KEY"))) _
                          λ api_key has_api_key.
                            Ensures-bind IsConfigured
                              (default (codes "*") some (env (codes "CORS_ORIGIN"))) _
                              λ cors_origin has_cors_origin.
                                Ensures-bind IsConfigured
                                  (default (codes "redis://localhost:6379") (url coercion)
                                    (env (codes "REDIS_URL")))
                                  _
                                  λ redis_url has_redis_url.
                                    Ensures-bind IsConfigured
                                      (count_or coercion 2 (env (codes "QUEUE_CONCURRENCY"))) _
                                      λ queue_concurrency has_queue_concurrency.
                                        Ensures-bind IsConfigured
                                          (count_or coercion 600 (env (codes "CACHE_TTL_SECONDS")))
                                          _
                                          λ cache_ttl_seconds has_cache_ttl_seconds. λ s h.
                                            let same : record {
                                              port = port;
                                              node_env = node_env;
                                              database_url = database_url;
                                              log_level = log_level;
                                              rate_limit_max = rate_limit_max;
                                              rate_limit_window_ms = rate_limit_window_ms;
                                              api_key = api_key;
                                              cors_origin = cors_origin;
                                              redis_url = redis_url;
                                              queue_concurrency = queue_concurrency;
                                              cache_ttl_seconds = cache_ttl_seconds;
                                            }
                                                ≡ s =
                                              cc h in
                                            subst IsConfigured same (record {
                                              port_least =
                                                  (port_of_bounds coercion _ port has_port).0;
                                              port_most =
                                                  (port_of_bounds coercion _ port has_port).1;
                                              node_env =
                                                  enum_among node_envs _ node_env has_node_env;
                                              log_level = log_level_among _ log_level has_log_level;
                                              api_key = required_text-some _ api_key has_api_key;
                                              database_url =
                                                  required_text-some _ database_url
                                                    has_database_url;
                                              rate_limit_max =
                                                  count_or_least coercion 100 _ rate_limit_max
                                                    (omega arith) has_rate_limit_max;
                                              rate_limit_window_ms =
                                                  count_or_least coercion 60000 _
                                                    rate_limit_window_ms (omega arith)
                                                    has_rate_limit_window_ms;
                                              queue_concurrency =
                                                  count_or_least coercion 2 _ queue_concurrency
                                                    (omega arith) has_queue_concurrency;
                                              cache_ttl_seconds =
                                                  count_or_least coercion 600 _ cache_ttl_seconds
                                                    (omega arith) has_cache_ttl_seconds;
                                            })

-- With nothing but the four variables that have no default, the configuration has the defaults.
pub load_settings-defaults :
    (coercion : Coercion) (env : Text → Option Text) (n : ℕ) (text node_env : Text) (c d : ℕ)
    (url key : Text)
    → env (codes "PORT") ≡ some text
    → coercion.number text ≡ whole (suc n)
    → suc n ≤ 65535
    → env (codes "NODE_ENV") ≡ some node_env
    → is_among node_env node_envs ≡ true
    → env (codes "DATABASE_URL") ≡ some (c ∷ url)
    → env (codes "API_KEY") ≡ some (d ∷ key)
    → env (codes "LOG_LEVEL") ≡ none
    → env (codes "RATE_LIMIT_MAX") ≡ none
    → env (codes "RATE_LIMIT_WINDOW_MS") ≡ none
    → env (codes "CORS_ORIGIN") ≡ none
    → env (codes "REDIS_URL") ≡ none
    → env (codes "QUEUE_CONCURRENCY") ≡ none
    → env (codes "CACHE_TTL_SECONDS") ≡ none
    → load_settings coercion env
      ≡ some (record {
        port = suc n;
        node_env = node_env;
        database_url = c ∷ url;
        log_level = codes "info";
        rate_limit_max = 100;
        rate_limit_window_ms = 60000;
        api_key = d ∷ key;
        cors_origin = codes "*";
        redis_url = codes "redis://localhost:6379";
        queue_concurrency = 2;
        cache_ttl_seconds = 600;
      })
unfolding load_settings port_of positive at_most enum required_text default ◌>>=◌
load_settings-defaults coercion env n text node_env c d url key p num small ne known du ak ll rm rw'
      co ru qc ct =
    let fits : leb (suc n) 65535 ≡ true = ground arith in
    simp (p, num, fits, ne, known, du, ak, ll, rm, rw', co, ru, qc, ct) refl
