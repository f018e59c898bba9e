-- ===== src/Shutdown/Server.antt =====
-- The process of src/server.js: it listens, and ends by an error of the listener or by signals.
use potens_intern_backend_sh.Common.{
  ℕ, ◌+◌, ◌≤◌, ◌⊎◌, inl, inr, Option, none, some, List, [], ◌∷◌, ◌++◌, arith, ltb, if◌then◌else◌,
}
use potens_intern_backend_sh.Shutdown.{Settling, Exit, shutdown, shutdown_lem}

-- What the process meets, at a time: `listening` is the callback of `listen`; a signal is SIGTERM or
-- SIGINT, with the time that `server.close` takes from then on and how `$disconnect` settles.
pub data Event : Type 0 where
  listening : ℕ → Event
  listen_error : ℕ → Event
  signal : ℕ → Option ℕ → Option Settling → Event

-- The exit that a handler comes to: each signal starts a shutdown of its own.
unfoldable pub exit_of : Event → Option Exit
exit_of (listening t) = none
exit_of (listen_error t) = some (record { code = 1; time = t })
exit_of (signal t closed disconnected) =
    let exit = shutdown closed disconnected in
    some (record { code = exit.code; time = t + exit.time })

-- The first exit ends the process.
unfoldable pub earlier : Option Exit → Option Exit → Option Exit
earlier none o = o
earlier (some e) none = some e
earlier (some e) (some f) = if ltb f.time e.time then some f else some e

unfoldable pub run : List Event → Option Exit
unfolding exit_of earlier
run [] = none
run (event ∷ events) = earlier (exit_of event) (run events)

-- The process has ended by the time.
abbrev pub EndsBy : ℕ → Option Exit → Type 0
EndsBy t none = ⊥
EndsBy t (some e) = e.time ≤ t

earlier-EndsBy : (t : ℕ) (o p : Option Exit) → EndsBy t o ⊎ EndsBy t p → EndsBy t (earlier o p)
unfolding earlier
earlier-EndsBy t none p (inl h) = elim h [ ]
earlier-EndsBy t none p (inr h) = h
earlier-EndsBy t (some e) none (inl h) = h
earlier-EndsBy t (some e) none (inr h) = elim h [ ]
earlier-EndsBy t (some e) (some f) h = ground arith

exit_of-ends :
    (t : ℕ) (closed : Option ℕ) (disconnected : Option Settling)
    → EndsBy (t + 35_000) (exit_of (signal t closed disconnected))
unfolding exit_of
exit_of-ends t closed disconnected = omega (arith, (shutdown_lem closed disconnected).0)

-- Whatever else the process meets, before and after, and however the services answer, it ends within
-- 35 seconds of any signal.
pub run_ends :
    (before after : List Event) (t : ℕ) (closed : Option ℕ) (disconnected : Option Settling)
    → EndsBy (t + 35_000) (run (before ++ signal t closed disconnected ∷ after))
unfolding run
run_ends [] after t closed disconnected =
    earlier-EndsBy (t + 35_000) (exit_of (signal t closed disconnected)) (run after)
      (inl (exit_of-ends t closed disconnected))
run_ends (event ∷ before) after t closed disconnected =
    earlier-EndsBy (t + 35_000) (exit_of event) _
      (inr (run_ends before after t closed disconnected))
