-- ===== src/Shutdown.antt =====
-- `shutdown` of src/server.js: how long it takes, and with which code the process exits. Times are
-- milliseconds, `none` is never.
pub mod Server
use potens_intern_backend_sh.Common.{
  ℕ, ◌+◌, ◌≤◌, ◌<◌, ◌≡◌, refl, ◌↔◌, Bool, true, Option, none, some, arith, ltb, min, if◌then◌else◌,
}

abbrev pub graceful_shutdown_timeout_ms : ℕ
graceful_shutdown_timeout_ms = 30_000

abbrev pub prisma_disconnect_timeout_ms : ℕ
prisma_disconnect_timeout_ms = 5_000

-- How a promise settles: the time that it takes, and whether it is fulfilled.
pub record Settling : Type 0 where
  pub time : ℕ
  pub fulfilled : Bool

pub record Exit : Type 0 where
  pub code : ℕ
  pub time : ℕ

-- The wait for `server.close`, or for the timer.
unfoldable pub drain : Option ℕ → ℕ
drain none = graceful_shutdown_timeout_ms
drain (some t) = min t graceful_shutdown_timeout_ms

-- The race of `$disconnect` with its timeout, which wins at one time.
unfoldable pub disconnect_race : Option Settling → Exit
disconnect_race none = record { code = 1; time = prisma_disconnect_timeout_ms }
disconnect_race (some s) =
    if ltb s.time prisma_disconnect_timeout_ms
    then record { code = if s.fulfilled then 0 else 1; time = s.time }
    else record { code = 1; time = prisma_disconnect_timeout_ms }

unfoldable pub shutdown : Option ℕ → Option Settling → Exit
unfolding drain disconnect_race
shutdown closed disconnected =
    let exit = disconnect_race disconnected in
    record { code = exit.code; time = drain closed + exit.time }

drain_most : (closed : Option ℕ) → drain closed ≤ 30_000
unfolding drain
drain_most none = omega arith
drain_most (some t) = omega arith

disconnect_race_lem :
    (disconnected : Option Settling)
    → ((disconnect_race disconnected).time ≤ 5_000)
      × (((disconnect_race disconnected).code ≡ 0)
          ↔ ((s : Settling) × (disconnected ≡ some s) × (s.time < 5_000) × (s.fulfilled ≡ true)))
unfolding disconnect_race
disconnect_race_lem none =
    (omega arith, ((λ h. absurd (omega (arith, h))), λ (s, same, fast, done). cc same))
disconnect_race_lem (some s) = (
  ground arith,
  (
    (λ h. (s, refl, ground arith, ground arith)),
    λ (s', same, fast, done).
        let same' : s ≡ s' = cc in
        let fast' : s.time < 5_000 = rw same' fast in
        let done' : s.fulfilled ≡ true = rw same' done in ground arith,
  ),
)

-- Whatever the requests in flight and the database do, the process exits within 35 seconds; with
-- code 0 exactly if Prisma disconnects within 5 seconds, also when the requests were cut off.
pub shutdown_lem :
    (closed : Option ℕ) (disconnected : Option Settling)
    → ((shutdown closed disconnected).time ≤ 35_000)
      × (((shutdown closed disconnected).code ≡ 0)
          ↔ ((s : Settling) × (disconnected ≡ some s) × (s.time < 5_000) × (s.fulfilled ≡ true)))
unfolding shutdown
shutdown_lem closed disconnected =
    let race = disconnect_race_lem disconnected in
    (omega (arith, drain_most closed, race.0), race.1)
