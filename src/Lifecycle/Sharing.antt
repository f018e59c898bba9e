-- ===== src/Lifecycle/Sharing.antt =====
-- Which client of src/services/redis.service.js the queue and the worker use.
use potens_intern_backend_sh.Common.{
  ℕ, zero, suc, ◌+◌, ◌<◌, ◌≡◌, refl, sym, ◌∙◌, ◌⊎◌, inl, inr, Option, none, some, List, [], ◌∷◌,
  All, arith, All-map,
}
use potens_intern_backend_sh.Lifecycle.{
  Process, started, client_of, get_client, connect, disconnect_from, disconnect, disconnected_of,
  disconnected, queue_of, get_verification_queue, close_verification_queue, queue_closed, worker_of,
  start_verification_worker, stop_verification_worker, worker_stopped,
}

-- A part of a call that no other call interrupts. The three functions that await have two: `leave`
-- and `left` are those of `disconnect`.
pub data Call : Type 0 where
  client join open_queue start_worker : Call
  close_queue queue_is_closed : Call
  stop_worker worker_is_stopped : Call
  leave left : Call

abbrev pub call : Call → Process → Process
call client p = (get_client p).1
call join p = connect p
call open_queue p = (get_verification_queue p).1
call start_worker p = (start_verification_worker p).1
call close_queue p = close_verification_queue p
call queue_is_closed p = queue_closed p
call stop_worker p = stop_verification_worker p
call worker_is_stopped p = worker_stopped p
call leave p = disconnect p
call left p = disconnected p

abbrev pub calls : List Call → Process → Process
calls [] p = p
calls (c ∷ cs) p = calls cs (call c p)

-- `disconnect` is called only where neither the queue nor the worker is left, and until it has
-- returned nothing asks for the client, the queue or the worker.
abbrev pub IsAllowed : Call → Process → Type 0
IsAllowed client p = p.quitting ≡ 0
IsAllowed join p = p.quitting ≡ 0
IsAllowed open_queue p = p.quitting ≡ 0
IsAllowed start_worker p = p.quitting ≡ 0
IsAllowed leave p = (p.queue ≡ none) × (p.worker ≡ none)
IsAllowed c p = Unit

abbrev pub IsTidy : Process → List Call → Type 0
IsTidy p [] = Unit
IsTidy p (c ∷ cs) = IsAllowed c p × IsTidy (call c p) cs

-- The current client has been made; `quit()` has not been called on it, or a call of `disconnect` is
-- at its await and there is neither a queue nor a worker; the queue and the worker use it.
pub record IsShared (p : Process) : Type 0 where
  pub past : All (λ c. c < p.made) p.quit
  pub is_made : (c : ℕ) → p.client ≡ some c → c < p.made
  pub fresh : (c : ℕ) → p.quitting ≡ 0 → p.client ≡ some c → All (λ d. (d < c) ⊎ (c < d)) p.quit
  pub idle : (p.quitting ≡ 0) ⊎ ((p.queue ≡ none) × (p.worker ≡ none))
  pub of_queue : (p.queue ≡ none) ⊎ (p.queue ≡ p.client)
  pub of_worker : (p.worker ≡ none) ⊎ (p.worker ≡ p.client)

module _ (p : Process) (h : IsShared p) where
  module _ (still : p.quitting ≡ 0) where
    client_of-IsShared : (o : Option ℕ) → p.client ≡ o → IsShared (client_of o p).1
    unfolding client_of
    client_of-IsShared (some c) e = h
    client_of-IsShared none e = record {
      past =
          All-map (λ c. c < p.made) (λ c. c < p.made + 1) (λ c lt. omega (arith, lt)) p.quit h.past;
      is_made = λ c same. let is_next : p.made ≡ c = cc in omega (arith, is_next);
      fresh = λ c quiet same.
          let is_next : p.made ≡ c = cc in
          All-map (λ d. d < p.made) (λ d. (d < c) ⊎ (c < d))
            (λ d lt. inl (omega (arith, lt, is_next))) p.quit h.past;
      idle = inl still;
      of_queue = elim h.of_queue [ inl unused ↦ inl unused | inr same ↦ inl (same ∙ e) ];
      of_worker = elim h.of_worker [ inl unused ↦ inl unused | inr same ↦ inl (same ∙ e) ];
    }

    client_of-quitting : (o : Option ℕ) → (client_of o p).1.quitting ≡ 0
    unfolding client_of
    client_of-quitting (some c) = still
    client_of-quitting none = still

    client_of-client :
        (o : Option ℕ) → p.client ≡ o → (client_of o p).1.client ≡ some (client_of o p).0
    unfolding client_of
    client_of-client (some c) e = e
    client_of-client none e = refl

    get_client-IsShared : IsShared (get_client p).1
    unfolding get_client
    get_client-IsShared = client_of-IsShared p.client refl

    get_client-quitting : (get_client p).1.quitting ≡ 0
    unfolding get_client
    get_client-quitting = client_of-quitting p.client

    get_client-client : (get_client p).1.client ≡ some (get_client p).0
    unfolding get_client
    get_client-client = client_of-client p.client refl

    queue_of-IsShared : (o : Option ℕ) → IsShared (queue_of o p).1
    unfolding queue_of
    queue_of-IsShared (some c) = h
    queue_of-IsShared none =
        let s = get_client-IsShared in
        record {
          past = s.past;
          is_made = s.is_made;
          fresh = s.fresh;
          idle = inl get_client-quitting;
          of_queue = inr (sym get_client-client);
          of_worker = s.of_worker;
        }

    queue_of-quitting : (o : Option ℕ) → (queue_of o p).1.quitting ≡ 0
    unfolding queue_of
    queue_of-quitting (some c) = still
    queue_of-quitting none = get_client-quitting

    worker_of-IsShared : (o : Option ℕ) → IsShared (worker_of o p).1
    unfolding worker_of
    worker_of-IsShared (some c) = h
    worker_of-IsShared none =
        let s = get_client-IsShared in
        record {
          past = s.past;
          is_made = s.is_made;
          fresh = s.fresh;
          idle = inl get_client-quitting;
          of_queue = s.of_queue;
          of_worker = inr (sym get_client-client);
        }

  disconnect_from-IsShared :
      (o : Option ℕ)
      → p.client ≡ o
      → p.queue ≡ none
      → p.worker ≡ none
      → IsShared (disconnect_from o p)
  unfolding disconnect_from
  disconnect_from-IsShared none e no_queue no_worker = h
  disconnect_from-IsShared (some c) e no_queue no_worker = record {
    past = (h.is_made c e, h.past);
    is_made = h.is_made;
    fresh = λ d quiet same. absurd (omega (arith, quiet));
    idle = inr (no_queue, no_worker);
    of_queue = inl no_queue;
    of_worker = inl no_worker;
  }

  disconnected_of-IsShared : (n : ℕ) → p.quitting ≡ n → IsShared (disconnected_of n p)
  unfolding disconnected_of
  disconnected_of-IsShared zero e = h
  disconnected_of-IsShared (suc n) e =
      let (no_queue, no_worker) : (p.queue ≡ none) × (p.worker ≡ none) = elim h.idle [
        | inl quiet ↦ absurd (omega (arith, quiet, e))
        | inr unused ↦ unused
      ] in
      record {
        past = h.past;
        is_made = λ c same. cc same;
        fresh = λ c quiet same. cc same;
        idle = inr (no_queue, no_worker);
        of_queue = inl no_queue;
        of_worker = inl no_worker;
      }

  counted-IsShared :
      (closing stopping : ℕ) → IsShared (record p { closing = closing; stopping = stopping })
  counted-IsShared closing stopping = record {
    past = h.past;
    is_made = h.is_made;
    fresh = h.fresh;
    idle = h.idle;
    of_queue = h.of_queue;
    of_worker = h.of_worker;
  }

  close_verification_queue-IsShared : IsShared (close_verification_queue p)
  unfolding close_verification_queue
  close_verification_queue-IsShared =
      elim p.queue
        as (λ o. IsShared (elim o [ none ↦ p | some c ↦ record p { closing = p.closing + 1 } ])) [
          | none ↦ h
          | some c ↦ counted-IsShared (p.closing + 1) p.stopping
        ]

  queue_closed-IsShared : IsShared (queue_closed p)
  unfolding queue_closed
  queue_closed-IsShared =
      elim p.closing
        as (λ n. IsShared (elim n [ zero ↦ p | suc m ↦ record p { queue = none; closing = m } ])) [
          | zero ↦ h
          | suc n ↦ record {
            past = h.past;
            is_made = h.is_made;
            fresh = h.fresh;
            idle = elim h.idle [ inl quiet ↦ inl quiet | inr unused ↦ inr (refl, unused.1) ];
            of_queue = inl refl;
            of_worker = h.of_worker;
          }
        ]

  stop_verification_worker-IsShared : IsShared (stop_verification_worker p)
  unfolding stop_verification_worker
  stop_verification_worker-IsShared =
      elim p.worker
        as (λ o. IsShared (elim o [ none ↦ p | some c ↦ record p { stopping = p.stopping + 1 } ])) [
          | none ↦ h
          | some c ↦ counted-IsShared p.closing (p.stopping + 1)
        ]

  worker_stopped-IsShared : IsShared (worker_stopped p)
  unfolding worker_stopped
  worker_stopped-IsShared =
      elim p.stopping
        as (λ n.
          IsShared (elim n [ zero ↦ p | suc m ↦ record p { worker = none; stopping = m } ])) [
            | zero ↦ h
            | suc n ↦ record {
              past = h.past;
              is_made = h.is_made;
              fresh = h.fresh;
              idle = elim h.idle [ inl quiet ↦ inl quiet | inr unused ↦ inr (unused.0, refl) ];
              of_queue = h.of_queue;
              of_worker = inl refl;
            }
          ]

  call-IsShared : (c : Call) → IsAllowed c p → IsShared (call c p)
  unfolding connect disconnect disconnected get_verification_queue start_verification_worker
  call-IsShared client still = get_client-IsShared still
  call-IsShared join still = get_client-IsShared still
  call-IsShared open_queue still = queue_of-IsShared still p.queue
  call-IsShared start_worker still = worker_of-IsShared still p.worker
  call-IsShared close_queue allowed = close_verification_queue-IsShared
  call-IsShared queue_is_closed allowed = queue_closed-IsShared
  call-IsShared stop_worker allowed = stop_verification_worker-IsShared
  call-IsShared worker_is_stopped allowed = worker_stopped-IsShared
  call-IsShared leave (no_queue, no_worker) =
      disconnect_from-IsShared p.client refl no_queue no_worker
  call-IsShared left allowed = disconnected_of-IsShared p.quitting refl

calls-IsShared : (cs : List Call) (p : Process) → IsTidy p cs → IsShared p → IsShared (calls cs p)
calls-IsShared [] p tidy h = h
calls-IsShared (c ∷ cs) p (allowed, tidy) h =
    calls-IsShared cs (call c p) tidy (call-IsShared p h c allowed)

started-IsShared : IsShared started
started-IsShared = record {
  past = tt;
  is_made = λ c same. cc same;
  fresh = λ c quiet same. cc same;
  idle = inl refl;
  of_queue = inl refl;
  of_worker = inl refl;
}

queue_of-queue :
    (p : Process) (o : Option ℕ) → p.queue ≡ o → (queue_of o p).1.queue ≡ some (queue_of o p).0
unfolding queue_of
queue_of-queue p (some c) e = e
queue_of-queue p none e = refl

-- After any calls from the start of the process on, interleaved at their awaits, of which `disconnect`
-- begins only where neither a queue nor a worker is left, and during which nothing asks for the
-- client, the queue or the worker: once no `disconnect` is under way, the queue that
-- `getVerificationQueue` returns uses the current client, and `quit()` has not been called on that.
pub queue_is_connected :
    (cs : List Call)
    → IsTidy started cs
    → (calls cs started).quitting ≡ 0
    → (let (c, after) = get_verification_queue (calls cs started) in
        (after.client ≡ some c) × All (λ d. (d < c) ⊎ (c < d)) after.quit)
unfolding get_verification_queue
queue_is_connected cs tidy still =
    let p = calls cs started in
    let shared = calls-IsShared cs started tidy started-IsShared in
    let s = queue_of-IsShared p shared still p.queue in
    let held = queue_of-queue p p.queue refl in
    let current : (queue_of p.queue p).1.client ≡ some (queue_of p.queue p).0 = elim s.of_queue [
      | inl unused ↦ cc (sym unused ∙ held)
      | inr same ↦ sym same ∙ held
    ] in
    (current, s.fresh _ (queue_of-quitting p shared still p.queue) current)

-- Where something asks for the queue while `disconnect` is at its await, the queue gets the client
-- that `quit()` has been called on, and keeps it.
late_queue_is_closed :
    (let p = calls (join ∷ leave ∷ open_queue ∷ left ∷ []) started in
      (p.queue ≡ some 0) × (p.client ≡ none) × (p.quit ≡ 0 ∷ []))
unfolding connect disconnect disconnected get_client client_of disconnect_from disconnected_of
    get_verification_queue queue_of
late_queue_is_closed = (refl, refl, refl)
