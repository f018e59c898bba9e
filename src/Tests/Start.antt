-- ===== src/Tests/Start.antt =====
-- The theorems on src/config/env.js at an environment that sets what has no default.
use potens_intern_backend_sh.Common.{
  ◌>>=◌, ◌≢◌, ◌↔◌, ◌≡◌, refl, true, Option, none, some, Text, codes, text_eq, if◌then◌else◌,
}
use potens_intern_backend_sh.Env.{
  whole, not_whole, Coercion, Settings, required_text, is_among, enum, default, positive, at_most,
  port_of, url, load_settings, log_levels,
}
use potens_intern_backend_sh.Logger.{Transport, redacted_paths, logger}
use potens_intern_backend_sh.Logger.Levels.{logger_of_start}
use potens_intern_backend_sh.Env.Bounds.{IsConfigured, load_settings-IsConfigured}

abbrev coercion : Coercion
coercion = record {
  number = λ t. if text_eq t (codes "3000") then whole 3000 else not_whole;
  is_url = λ t. true;
}

abbrev variables : Text → Option Text
variables name =
    if text_eq name (codes "PORT")
    then some (codes "3000")
    else if text_eq name (codes "NODE_ENV")
    then some (codes "production")
    else if text_eq name (codes "DATABASE_URL")
    then some (codes "postgresql://db")
    else if text_eq name (codes "API_KEY")
    then some (codes "secret")
    else none

abbrev settings : Settings
settings = record {
  port = 3000;
  node_env = codes "production";
  database_url = codes "postgresql://db";
  log_level = codes "info";
  rate_limit_max = 100;
  rate_limit_window_ms = 60000;
  api_key = codes "secret";
  cors_origin = codes "*";
  redis_url = codes "redis://localhost:6379";
  queue_concurrency = 2;
  cache_ttl_seconds = 600;
}

loaded : load_settings coercion variables ≡ some settings
unfolding load_settings text_eq is_among ◌>>=◌ required_text enum default positive at_most port_of
    url
loaded = refl

load_settings-IsConfigured_example : IsConfigured settings
load_settings-IsConfigured_example = load_settings-IsConfigured coercion variables settings loaded

logger_of_start_example :
    (((logger settings).level ≡ codes "silent") ↔ (settings.node_env ≡ codes "test"))
    × (settings.node_env ≢ codes "test"
        → ((logger settings).level ≡ settings.log_level)
          × (is_among settings.log_level log_levels ≡ true))
    × (((logger settings).transport ≡ none) ↔ (settings.node_env ≢ codes "development"))
    × (settings.node_env ≡ codes "development"
        → (t : Transport) × ((logger settings).transport ≡ some t)
          × (t.target ≡ codes "pino-pretty"))
    × ((logger settings).redact_paths ≡ redacted_paths)
    × ((logger settings).censor ≡ codes "[Redacted]")
    × (is_among (codes "req.headers.authorization") (logger settings).redact_paths ≡ true)
logger_of_start_example = logger_of_start coercion variables settings loaded
