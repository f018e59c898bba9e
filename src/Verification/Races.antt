-- ===== src/Verification/Races.antt =====
-- Writers that overtake one another between `new Date()` in src/services/log.service.js and the
-- lock in src/repositories/log.repository.js.
use mathlib.Core.List.{Mem, Pairwise, Pairwise-map, Pairwise-append, mem-cons_self}
use mathlib.Core.Path.{subst}
use native.Mathlib.Bridge.{le_prop}
use potens_intern_backend_sh.Common.{
  ℕ, ◌<◌, ◌≤◌, ◌≡◌, refl, sym, ap, ◌∙◌, Bool, true, false, List, [], ◌∷◌, map, Text, arith,
  Bool-cases, inl, inr,
}
use potens_intern_backend_sh.Hash.{LogEntry, date, text}
use potens_intern_backend_sh.Hash.Digest.{IsDigest}
use potens_intern_backend_sh.Database.{Row, to_entry, Db, Postgres, IsSorting, asc, InOrder, Query}
use potens_intern_backend_sh.Errors.{Result, ok}
use potens_intern_backend_sh.Repository.{find_all_ordered, CreateDto, create_with_transaction}
use potens_intern_backend_sh.Database.Sorted.{sorted_unique}
use potens_intern_backend_sh.Repository.Creation.{IsCreated-of_eq}
use potens_intern_backend_sh.Repository.Ledger.{
  Survives, IsConsistent, create_with_transaction-IsConsistent,
}
use potens_intern_backend_sh.Verification.{verify_integrity}
use potens_intern_backend_sh.Verification.Order.{verify_integrity_iff}

-- If each entry was given a later time than the one committed before it, the verification of the
-- untouched log succeeds.
pub verify_integrity_of_increasing :
    (sha256 : List ℕ → Text) (pg : Postgres) (db : Db)
    → IsDigest sha256
    → IsSorting pg
    → IsConsistent sha256 db
    → Pairwise (λ a b. a.created_at < b.created_at) db.log_entries
    → (verify_integrity sha256 pg db).success ≡ true
unfolding find_all_ordered
verify_integrity_of_increasing sha256 pg db digest sorting sound increasing =
    (verify_integrity_iff sha256 pg db digest sorting sound).1 (
      ap (map to_entry) (
        sorted_unique db.log_entries _ increasing (sorting.sorted asc db.log_entries)
          (sorting.perm asc db.log_entries)))

time : LogEntry → ℕ
time e = elim e.created_at [ date t ↦ t | text s ↦ 0 ]

times-to_entry : (rows : List Row) → map time (map to_entry rows) ≡ map (λ r. r.created_at) rows
unfolding time
times-to_entry [] = refl
times-to_entry (r ∷ rows) = ap (◌∷◌ r.created_at) (times-to_entry rows)

-- A log that verifies was committed in the order of its times.
sorted_of_success :
    (sha256 : List ℕ → Text) (pg : Postgres) (db : Db)
    → IsDigest sha256
    → IsSorting pg
    → IsConsistent sha256 db
    → (verify_integrity sha256 pg db).success ≡ true
    → Pairwise (InOrder asc) db.log_entries
unfolding find_all_ordered
sorted_of_success sha256 pg db digest sorting sound success =
    let times : List Row → List ℕ = map (λ r. r.created_at) in
    let same : times (find_all_ordered pg db) ≡ times db.log_entries =
      sym (times-to_entry _)
      ∙ ap (map time) ((verify_integrity_iff sha256 pg db digest sorting sound).0 success)
      ∙ times-to_entry _ in
    (Pairwise-map {R = ◌≤◌} (λ a b. le_prop) (λ (r : Row). r.created_at)).0 (
      subst (λ (ts : List ℕ). Pairwise ◌≤◌ ts) same
        ((Pairwise-map {R = ◌≤◌} (λ a b. le_prop) (λ (r : Row). r.created_at)).1
          (sorting.sorted asc db.log_entries)))

-- A request that took its time before an entry that is already in the log, and commits after it,
-- leaves a log on which the verification fails, although nobody has altered anything.
pub overtaken_fails :
    (sha256 : List ℕ → Text) (pg : Postgres) (fails : Query → Bool) (id : Text) (dto : CreateDto)
    (db after : Db) (earlier row : Row)
    → IsDigest sha256
    → IsSorting pg
    → Survives pg dto.payload
    → IsConsistent sha256 db
    → Mem earlier db.log_entries
    → dto.created_at < earlier.created_at
    → create_with_transaction sha256 pg fails id dto db ≡ (ok row, after)
    → (verify_integrity sha256 pg after).success ≡ false
overtaken_fails sha256 pg fails id dto db after earlier row digest sorting survives sound m late e =
    let made = IsCreated-of_eq sha256 pg fails id dto db after row e in
    let sound' =
      subst (λ (r : Result Row × Db). IsConsistent sha256 r.1) e
        (create_with_transaction-IsConsistent sha256 pg fails id dto db survives sound) in
    elim (Bool-cases (verify_integrity sha256 pg after).success) [
      | inl success ↦
          let sorted = sorted_of_success sha256 pg after digest sorting sound' success in
          let parts =
            (Pairwise-append {R = InOrder asc} (λ a b. le_prop)).0
              (subst (λ (rows : List Row). Pairwise (InOrder asc) rows) made.appended sorted) in
          let le = parts.2 earlier m row mem-cons_self in
          absurd (omega (arith, le, made.created_at))
      | inr fails ↦ fails
    ]
