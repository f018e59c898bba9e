-- ===== src/Logger/Levels.antt =====
-- What a process that has started logs (`createLogger` of src/lib/logger.js, with src/config/env.js).
use mathlib.Core.Path.{subst}
use potens_intern_backend_sh.Common.{
  ◌≡◌, ◌≢◌, ◌↔◌, refl, sym, ◌∙◌, inl, inr, true, false, Bool-cases, Option, none, some, Text, codes,
  text_eq, text_eq_iff, arith, if◌then◌else◌,
}
use potens_intern_backend_sh.Env.{Coercion, Settings, is_among, log_levels, load_settings}
use potens_intern_backend_sh.Env.Bounds.{load_settings-IsConfigured}
use potens_intern_backend_sh.Logger.{Transport, redacted_paths, create_logger, logger}

silent_no_level : is_among (codes "silent") log_levels ≡ false
unfolding is_among text_eq
silent_no_level = refl

level_lem :
    (level node_env : Text)
    → (create_logger level node_env).level
      ≡ (if text_eq node_env (codes "test") then codes "silent" else level)
unfolding create_logger
level_lem level node_env = elim (Bool-cases (text_eq node_env (codes "development"))) [
  | inl pretty ↦ rw pretty
  | inr plain ↦ rw plain
]

transport_lem :
    (level node_env : Text)
    → ((create_logger level node_env).transport ≡ none) ↔ (node_env ≢ codes "development")
unfolding create_logger
transport_lem level node_env = elim (Bool-cases (text_eq node_env (codes "development"))) [
  | inl pretty ↦
      let same = (text_eq_iff node_env (codes "development")).0 pretty in
      rw pretty ((λ h. cc), λ other. absurd (other same))
  | inr plain ↦
      rw plain ((λ h same. cc ((text_eq_iff node_env (codes "development")).1 same)), λ other. refl)
]

pretty_lem :
    (level node_env : Text)
    → node_env ≡ codes "development"
    → (t : Transport) × ((create_logger level node_env).transport ≡ some t)
      × (t.target ≡ codes "pino-pretty")
unfolding create_logger
pretty_lem level node_env same =
    let pretty = (text_eq_iff node_env (codes "development")).1 same in rw pretty (_, refl, refl)

authorization_redacted :
    (level node_env : Text)
    → is_among (codes "req.headers.authorization") (create_logger level node_env).redact_paths
      ≡ true
unfolding create_logger is_among text_eq
authorization_redacted level node_env = elim (Bool-cases (text_eq node_env (codes "development"))) [
  | inl pretty ↦ rw pretty refl
  | inr plain ↦ rw plain refl
]

redacted_lem :
    (level node_env : Text)
    → ((create_logger level node_env).redact_paths ≡ redacted_paths)
      × ((create_logger level node_env).censor ≡ codes "[Redacted]")
unfolding create_logger
redacted_lem level node_env = elim (Bool-cases (text_eq node_env (codes "development"))) [
  | inl pretty ↦ rw pretty (refl, refl)
  | inr plain ↦ rw plain (refl, refl)
]

-- A process that has started logs nothing exactly in the environment "test", and at its configured
-- level, one of pino's, in any other; through a transport exactly in "development", where its target
-- is pino-pretty; and with the same redacted paths, which become "[Redacted]", in all: the header
-- "authorization" is among them.
pub logger_of_start :
    (coercion : Coercion) (env : Text → Option Text) (s : Settings)
    → load_settings coercion env ≡ some s
    → (((logger s).level ≡ codes "silent") ↔ (s.node_env ≡ codes "test"))
      × (s.node_env ≢ codes "test"
          → ((logger s).level ≡ s.log_level) × (is_among s.log_level log_levels ≡ true))
      × (((logger s).transport ≡ none) ↔ (s.node_env ≢ codes "development"))
      × (s.node_env ≡ codes "development"
          → (t : Transport) × ((logger s).transport ≡ some t) × (t.target ≡ codes "pino-pretty"))
      × ((logger s).redact_paths ≡ redacted_paths)
      × ((logger s).censor ≡ codes "[Redacted]")
      × (is_among (codes "req.headers.authorization") (logger s).redact_paths ≡ true)
unfolding logger
logger_of_start coercion env s started =
    let known = (load_settings-IsConfigured coercion env s started).log_level in
    let level = level_lem s.log_level s.node_env in
    elim (Bool-cases (text_eq s.node_env (codes "test"))) [
      | inl testing ↦
          let same = (text_eq_iff s.node_env (codes "test")).0 testing in
          (
            ((λ h. same), λ h. ground (arith, level, testing)),
            (λ other. absurd (other same)),
            transport_lem s.log_level s.node_env,
            pretty_lem s.log_level s.node_env,
            (redacted_lem s.log_level s.node_env).0,
            (redacted_lem s.log_level s.node_env).1,
            authorization_redacted s.log_level s.node_env,
          )
      | inr serving ↦ (
        (
          (λ h.
              let same : s.log_level ≡ codes "silent" = ground (arith, level, serving, h) in
              let clash : true ≡ false =
                sym (subst (λ (t : Text). is_among t log_levels ≡ true) same known)
                ∙ silent_no_level in
              cc),
          λ h. cc ((text_eq_iff s.node_env (codes "test")).1 h),
        ),
        (λ other. (ground (arith, level, serving), known)),
        transport_lem s.log_level s.node_env,
        pretty_lem s.log_level s.node_env,
        (redacted_lem s.log_level s.node_env).0,
        (redacted_lem s.log_level s.node_env).1,
        authorization_redacted s.log_level s.node_env,
      )
    ]
