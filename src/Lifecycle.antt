-- ===== src/Lifecycle.antt =====
-- The singletons of the process: the client of src/services/redis.service.js, the queue of
-- src/queues/verification.queue.js and the worker of src/workers/verification.worker.js.
pub mod Sharing
pub mod Prisma
use potens_intern_backend_sh.Common.{ℕ, zero, suc, ◌+◌, Option, none, some, List, [], ◌∷◌}

-- Clients are numbered as they are made. A queue and a worker are known by the client that they were
-- given as their connection. `quit` lists the clients that `quit()` has been called on; `quitting`,
-- `closing` and `stopping` count the calls of `disconnect`, `closeVerificationQueue` and
-- `stopVerificationWorker` that are at their `await`, and so have not cleared their variable yet.
pub record Process : Type 0 where
  pub made : ℕ
  pub quit : List ℕ
  pub client : Option ℕ
  pub queue : Option ℕ
  pub worker : Option ℕ
  pub quitting : ℕ
  pub closing : ℕ
  pub stopping : ℕ

abbrev pub started : Process
started = record {
  made = 0;
  quit = [];
  client = none;
  queue = none;
  worker = none;
  quitting = 0;
  closing = 0;
  stopping = 0;
}

-- What a function returns, and the process after it.
unfoldable pub client_of : Option ℕ → Process → ℕ × Process
client_of (some c) p = (c, p)
client_of none p = (p.made, record p { made = p.made + 1; client = some p.made })

unfoldable pub get_client : Process → ℕ × Process
unfolding client_of
get_client p = client_of p.client p

-- `connect`: whether the connection is made or not, nothing is thrown.
unfoldable pub connect : Process → Process
connect p = (get_client p).1

-- `disconnect`, until its `await client.quit()`; the variable still holds the client.
unfoldable pub disconnect_from : Option ℕ → Process → Process
disconnect_from none p = p
disconnect_from (some c) p = record p { quit = c ∷ p.quit; quitting = p.quitting + 1 }

unfoldable pub disconnect : Process → Process
unfolding disconnect_from
disconnect p = disconnect_from p.client p

-- `disconnect`, from there on: the variable is cleared also if `quit()` fails. Nothing if no call is
-- there.
unfoldable pub disconnected_of : ℕ → Process → Process
disconnected_of zero p = p
disconnected_of (suc n) p = record p { client = none; quitting = n }

unfoldable pub disconnected : Process → Process
unfolding disconnected_of
disconnected p = disconnected_of p.quitting p

unfoldable pub queue_of : Option ℕ → Process → ℕ × Process
queue_of (some c) p = (c, p)
queue_of none p = let (c, after) = get_client p in (c, record after { queue = some c })

unfoldable pub get_verification_queue : Process → ℕ × Process
unfolding queue_of
get_verification_queue p = queue_of p.queue p

-- `closeVerificationQueue`, until its `await`, and from there on: the variable is cleared also if
-- `close()` fails.
unfoldable pub close_verification_queue : Process → Process
close_verification_queue p = elim p.queue [
  | none ↦ p
  | some c ↦ record p { closing = p.closing + 1 }
]

unfoldable pub queue_closed : Process → Process
queue_closed p = elim p.closing [ zero ↦ p | suc n ↦ record p { queue = none; closing = n } ]

unfoldable pub worker_of : Option ℕ → Process → ℕ × Process
worker_of (some c) p = (c, p)
worker_of none p = let (c, after) = get_client p in (c, record after { worker = some c })

unfoldable pub start_verification_worker : Process → ℕ × Process
unfolding worker_of
start_verification_worker p = worker_of p.worker p

-- `stopVerificationWorker`, in the same two parts.
unfoldable pub stop_verification_worker : Process → Process
stop_verification_worker p = elim p.worker [
  | none ↦ p
  | some c ↦ record p { stopping = p.stopping + 1 }
]

unfoldable pub worker_stopped : Process → Process
worker_stopped p = elim p.stopping [ zero ↦ p | suc n ↦ record p { worker = none; stopping = n } ]
