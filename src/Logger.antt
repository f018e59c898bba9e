-- ===== src/Logger.antt =====
-- `createLogger` of src/lib/logger.js: the options that pino is called with. What pino makes of them is
-- its own. src/middlewares/requestLogger.js: the line that is logged when a response has been sent.
pub mod Levels
use potens_intern_backend_sh.Common.{
  ℕ, ◌+◌, ◌-◌, ◌*◌, ◌/◌, ◌≡◌, arith, Bool, true, Option, none, some, List, [], ◌∷◌, Text, codes,
  text_eq, if◌then◌else◌,
}
use potens_intern_backend_sh.Env.{Settings}
use potens_intern_backend_sh.Utilities.{elapsed_ms}

-- `REDACTED_PATHS`
abbrev pub redacted_paths : List Text
redacted_paths =
    codes "req.headers.authorization"
    ∷ codes "req.body.password"
    ∷ codes "req.body.token"
    ∷ codes "req.body.secret"
    ∷ codes "*.token"
    ∷ codes "*.secret"
    ∷ codes "*.password"
    ∷ codes "*.authorization"
    ∷ []

-- The options of the transport pino-pretty.
pub record Transport : Type 0 where
  pub target : Text
  pub colorize : Bool
  pub translate_time : Text
  pub ignore : Text

pub record LoggerOptions : Type 0 where
  pub level : Text
  pub redact_paths : List Text
  pub censor : Text
  pub transport : Option Transport

-- The first argument is `level`, the second `nodeEnv`.
unfoldable pub create_logger : Text → Text → LoggerOptions
unfolding text_eq
create_logger level node_env =
    let effective_level = if text_eq node_env (codes "test") then codes "silent" else level in
    let base_options : LoggerOptions = record {
      level = effective_level;
      redact_paths = redacted_paths;
      censor = codes "[Redacted]";
      transport = none;
    } in
    if text_eq node_env (codes "development")
    then record base_options {
      transport = some (record {
        target = codes "pino-pretty";
        colorize = true;
        translate_time = codes "SYS:standard";
        ignore = codes "pid,hostname";
      });
    }
    else base_options

-- `logger`
unfoldable pub logger : Settings → LoggerOptions
unfolding create_logger
logger config = create_logger config.log_level config.node_env

-- The object that `requestLogger` logs; the duration is in hundredths of a millisecond.
pub record RequestLine : Type 0 where
  pub method : Text
  pub url : Text
  pub ip : Text
  pub status_code : ℕ
  pub duration_ms : ℕ

-- `requestLogger`, from the request to the event "finish" of its response. The times are those of
-- `process.hrtime.bigint()`, in nanoseconds; `Math.round` rounds a half up.
unfoldable pub request_logger : Text → Text → Text → ℕ → ℕ → ℕ → RequestLine
request_logger method url ip status_code start_at finished_at = record {
  method = method;
  url = url;
  ip = ip;
  status_code = status_code;
  duration_ms = ((finished_at - start_at) * 100 * 2 + 1000000) / 2000000;
}

-- It is the time that `elapsedMs` of src/utils/date.js measures.
request_logger-elapsed_ms :
    (method url ip : Text) (status_code start_at finished_at : ℕ)
    → (request_logger method url ip status_code start_at finished_at).duration_ms
      ≡ elapsed_ms start_at finished_at
unfolding request_logger elapsed_ms
request_logger-elapsed_ms method url ip status_code start_at finished_at = omega arith
