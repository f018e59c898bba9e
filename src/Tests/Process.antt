-- ===== src/Tests/Process.antt =====
-- The theorems on src/server.js and on the singletons of src/services/redis.service.js,
-- src/queues/verification.queue.js and src/workers/verification.worker.js.
use potens_intern_backend_sh.Common.{
  ◌<◌, ◌≤◌, ◌≡◌, ◌↔◌, ◌⊎◌, refl, true, none, some, List, [], ◌∷◌, All,
}
use potens_intern_backend_sh.Lifecycle.{
  started, get_verification_queue, get_client, client_of, connect, queue_of,
  close_verification_queue, queue_closed, disconnect, disconnect_from, disconnected,
  disconnected_of,
}
use potens_intern_backend_sh.Lifecycle.Sharing.{
  Call, join, open_queue, close_queue, queue_is_closed, leave, left, calls, IsTidy,
  queue_is_connected,
}
use potens_intern_backend_sh.Shutdown.{Settling, shutdown, shutdown_lem}

-- The client is closed after the queue, and a new one is made.
abbrev reconnects : List Call
reconnects = join ∷ open_queue ∷ close_queue ∷ queue_is_closed ∷ leave ∷ left ∷ []

reconnects-IsTidy : IsTidy started reconnects
unfolding connect get_client client_of get_verification_queue queue_of close_verification_queue
    queue_closed disconnect disconnect_from
reconnects-IsTidy = (refl, (refl, (tt, (tt, ((refl, refl), (tt, tt))))))

all_left : (calls reconnects started).quitting ≡ 0
unfolding connect get_client client_of get_verification_queue queue_of close_verification_queue
    queue_closed disconnect disconnect_from disconnected disconnected_of
all_left = refl

queue_is_connected_example :
    (let (c, after) = get_verification_queue (calls reconnects started) in
      (after.client ≡ some c) × All (λ d. (d < c) ⊎ (c < d)) after.quit)
queue_is_connected_example = queue_is_connected reconnects reconnects-IsTidy all_left

shutdown_lem_example :
    ((shutdown none (some (record { time = 200; fulfilled = true }))).time ≤ 35_000)
    × (((shutdown none (some (record { time = 200; fulfilled = true }))).code ≡ 0) ↔ (
        (s : Settling) × (some (record { time = 200; fulfilled = true }) ≡ some s)
        × (s.time < 5_000)
        × (s.fulfilled ≡ true)))
shutdown_lem_example = shutdown_lem none (some (record { time = 200; fulfilled = true }))
