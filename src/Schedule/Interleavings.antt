-- ===== src/Schedule/Interleavings.antt =====
-- What the cache and the calls rely on in all interleavings of the calls of src/services/log.service.js.
use mathlib.Core.Path.{subst}
use potens_intern_backend_sh.Common.{
  ℕ, ◌≡◌, sym, Bool, List, [], ◌∷◌, ◌++◌, All, All-append, All-split, All-map,
}
use potens_intern_backend_sh.Database.{Query}
use potens_intern_backend_sh.LogService.{World}
use potens_intern_backend_sh.LogService.Coherence.{IsCoherent}
use potens_intern_backend_sh.LogService.Coherence.Writes.{IsCoherent-drift}
use potens_intern_backend_sh.Controllers.{Config}
use potens_intern_backend_sh.Schedule.{
  Task, advance, State, listed, Step, create, get, move, tick, drift, Reach, here, next,
}
use potens_intern_backend_sh.Schedule.Kept.{IsReady, IsReady-Grown, advance-Kept}

-- The cache agrees with the table, and every task that is under way can rely on what it has seen.
pub record IsSafe (s : State) : Type 0 where
  pub cache : IsCoherent s.world
  pub ready : All (IsReady s.world.db) s.tasks

module _ (config : Config) where
  moved-IsSafe :
      (fails : Query → Bool) (task : Task) (xs ys : List Task) (w : World) (clock : ℕ)
      → IsSafe (record { world = w; clock = clock; tasks = xs ++ task ∷ ys })
      → IsSafe (record {
        world = (advance config fails task w).0;
        clock = clock;
        tasks = xs ++ (listed (advance config fails task w).1 ++ ys);
      })
  moved-IsSafe fails task xs ys w clock h =
      let (ready_xs, (ready_task, ready_ys)) = All-split (IsReady w.db) xs (task ∷ ys) h.ready in
      let kept = advance-Kept config w h.cache fails task ready_task in
      let after = (advance config fails task w).0 in
      let still : (ts : List Task) → All (IsReady w.db) ts → All (IsReady after.db) ts = λ ts ready.
        All-map (IsReady w.db) (IsReady after.db) (λ t. IsReady-Grown w.db after.db t kept.grown) ts
          ready in
      record {
        cache = kept.cache;
        ready =
            All-append (IsReady after.db) xs (listed (advance config fails task w).1 ++ ys)
              (still xs ready_xs)
              (All-append (IsReady after.db) (listed (advance config fails task w).1) ys kept.ready
                (still ys ready_ys));
      }

  Step-IsSafe : {s t : State} → Step config s t → IsSafe s → IsSafe t
  Step-IsSafe (create id body s) h = record { cache = h.cache; ready = (tt, h.ready) }
  Step-IsSafe (get id s) h = record { cache = h.cache; ready = (tt, h.ready) }
  Step-IsSafe (move fails task xs ys w clock) h = moved-IsSafe fails task xs ys w clock h
  Step-IsSafe (tick d s) h = record { cache = h.cache; ready = h.ready }
  Step-IsSafe (drift answers up accepts left jobs s within) h = record {
    cache = IsCoherent-drift s.world answers up accepts left jobs within h.cache;
    ready = h.ready;
  }

  Reach-keeps : {s t : State} → IsSafe s → Reach config s t → IsSafe t
  Reach-keeps h here = h
  Reach-keeps h (next reach step) = Step-IsSafe step (Reach-keeps h reach)

pub Reach-IsSafe :
    (config : Config) (s t : State)
    → s.tasks ≡ []
    → IsCoherent s.world
    → Reach config s t
    → IsSafe t
Reach-IsSafe config s t idle cache reach =
    Reach-keeps config
      (record { cache = cache; ready = subst (All (IsReady s.world.db)) (sym idle) tt }) reach
