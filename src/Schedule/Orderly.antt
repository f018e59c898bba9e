-- ===== src/Schedule/Orderly.antt =====
-- Interleavings of src/services/log.service.js in which no call of `createLogEntry` takes its time
-- while another one has taken its time and not yet committed.
use mathlib.Core.List.{Pairwise}
use mathlib.Core.Path.{subst}
use potens_intern_backend_sh.Common.{
  ℕ, ◌≤◌, ◌<◌, ◌≡◌, sym, ap, inl, inr, true, Option, List, [], ◌∷◌, ◌++◌, All, All-append,
  All-split, arith,
}
use potens_intern_backend_sh.Hash.Digest.{IsDigest}
use potens_intern_backend_sh.Database.{Row, IsSorting}
use potens_intern_backend_sh.Repository.Ledger.{IsConsistent}
use potens_intern_backend_sh.LogService.{World}
use potens_intern_backend_sh.LogService.Coherence.{IsCoherent}
use potens_intern_backend_sh.Verification.{verify_integrity}
use potens_intern_backend_sh.Verification.Races.{verify_integrity_of_increasing}
use potens_intern_backend_sh.Controllers.{Config}
use potens_intern_backend_sh.Schedule.{
  Task, State, listed, Step, create, get, move, tick, drift, Reach, here, next,
}
use potens_intern_backend_sh.Schedule.Ledgers.{AreStable, Reach-IsSound}
use potens_intern_backend_sh.Schedule.Writers.{
  writers, AreBefore, IsLater, Increasing, Moved, advance-Moved, writers-append, All-IsLater,
  Increasing-append, weight,
}

-- A call of `createLogEntry` comes when no other one is about to commit, and after all rows.
abbrev pub IsAlone : (config : Config) (s t : State) → Step config s t → Type 0
IsAlone config s t (create id body s') =
    (writers s'.tasks ≡ 0) × AreBefore s'.clock s'.world.db.log_entries
IsAlone config s t _ = Unit

abbrev pub AreAlone : (config : Config) (s t : State) → Reach config s t → Type 0
AreAlone config s t here = Unit
AreAlone config s t (next reach step) = AreAlone config _ _ reach × IsAlone config _ _ step

-- The rows have ever later times; at most one call is about to commit, after all of them.
record IsOrderly (s : State) : Type 0 where
  increasing : Increasing s.world.db.log_entries
  single : writers s.tasks ≤ 1
  later : All (IsLater s.world.db.log_entries) s.tasks

module _ (config : Config) where
  Moved-IsOrderly :
      (task : Task) (xs ys : List Task) (w : World) (r : World × Option Task) (clock : ℕ)
      → Moved task w r
      → IsOrderly (record { world = w; clock = clock; tasks = xs ++ task ∷ ys })
      → IsOrderly (record { world = r.0; clock = clock; tasks = xs ++ (listed r.1 ++ ys) })
  Moved-IsOrderly task xs ys w r clock moved h =
      let idle = moved.idle in
      let single = h.single in
      let before = writers-append xs (task ∷ ys) in
      let after = writers-append xs (listed r.1 ++ ys) in
      let after' = writers-append (listed r.1) ys in
      elim moved.rows [
        | inl same ↦ record {
          increasing = subst Increasing (sym same) h.increasing;
          single = omega (arith, single, before, after, after', idle);
          later =
              let (later_xs, (later_task, later_ys)) =
                All-split (IsLater w.db.log_entries) xs (task ∷ ys) h.later in
              subst (λ (rows : List Row). All (IsLater rows) (xs ++ (listed r.1 ++ ys))) (sym same)
                (All-append (IsLater w.db.log_entries) xs (listed r.1 ++ ys) later_xs (
                  All-append (IsLater w.db.log_entries) (listed r.1) ys
                    (All-IsLater w.db.log_entries (listed r.1) idle) later_ys));
        }
        | inr (id, now, body, row, is, time, appended) ↦
            let (later_xs, (later_task, later_ys)) =
              All-split (IsLater w.db.log_entries) xs (task ∷ ys) h.later in
            let one : weight task ≡ 1 = ap weight is in
            let earlier : AreBefore row.created_at w.db.log_entries =
              subst (λ (n : ℕ). AreBefore n w.db.log_entries) (sym time)
                (subst (IsLater w.db.log_entries) is later_task) in
            let none_left : writers (xs ++ (listed r.1 ++ ys)) ≡ 0 =
              omega (arith, single, before, after, after', idle, one) in
            record {
              increasing =
                  subst Increasing (sym appended)
                    (Increasing-append w.db.log_entries row h.increasing earlier);
              single = omega (arith, none_left);
              later = All-IsLater r.0.db.log_entries _ none_left;
            }
      ]

  Step-IsOrderly :
      (s t : State) (step : Step config s t) → IsAlone config s t step → IsOrderly s → IsOrderly t
  Step-IsOrderly s t (create id body s') (nobody, earlier) h = record {
    increasing = h.increasing;
    single = omega (arith, nobody);
    later = (earlier, h.later);
  }
  Step-IsOrderly s t (get id s') alone h = record {
    increasing = h.increasing;
    single = omega (arith, h.single);
    later = (tt, h.later);
  }
  Step-IsOrderly s t (move fails task xs ys w clock) alone h =
      Moved-IsOrderly task xs ys w _ clock (advance-Moved config w fails task) h
  Step-IsOrderly s t (tick d s') alone h = record {
    increasing = h.increasing;
    single = h.single;
    later = h.later;
  }
  Step-IsOrderly s t (drift answers up accepts left jobs s' within) alone h = record {
    increasing = h.increasing;
    single = h.single;
    later = h.later;
  }

  Reach-IsOrderly :
      (s t : State) (reach : Reach config s t)
      → AreAlone config s t reach
      → IsOrderly s
      → IsOrderly t
  Reach-IsOrderly s t here alone h = h
  Reach-IsOrderly s t (next reach step) (before, alone) h =
      Step-IsOrderly _ t step alone (Reach-IsOrderly s _ reach before h)

-- In an interleaving in which every call of createLogEntry takes its time when no other one is about
-- to commit, and after the times of all rows, verifyIntegrity succeeds on every log that is reached,
-- whatever reads, failures and changes of the services come between. It starts with no call under
-- way, from a sound log and cache with ever later times, and the text of each payload that is created
-- survives the database.
pub orderly_verifies :
    (config : Config) (s t : State) (reach : Reach config s t)
    → IsDigest config.sha256
    → IsSorting config.pg
    → s.tasks ≡ []
    → IsConsistent config.sha256 s.world.db
    → IsCoherent s.world
    → Pairwise (λ a b. a.created_at < b.created_at) s.world.db.log_entries
    → AreStable config s t reach
    → AreAlone config s t reach
    → (verify_integrity config.sha256 config.pg t.world.db).success ≡ true
orderly_verifies config s t reach digest sorting idle ledger cache increasing stable alone =
    let orderly = Reach-IsOrderly config s t reach alone (record {
      increasing = increasing;
      single = rw idle (omega arith);
      later = subst (All (IsLater s.world.db.log_entries)) (sym idle) tt;
    }) in
    verify_integrity_of_increasing config.sha256 config.pg t.world.db digest sorting
      (Reach-IsSound config s t reach idle ledger cache stable).ledger orderly.increasing
