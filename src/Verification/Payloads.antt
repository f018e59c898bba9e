-- ===== src/Verification/Payloads.antt =====
-- The verification of a log after a payload that the jsonb column does not give back as it was sent:
-- PostgreSQL keeps neither the order of the keys of an object nor its repeated keys.
use mathlib.Core.Bool.{Bool-set}
use mathlib.Core.List.{Mem, mem-cons_self, mem-append, mem-map_of_mem}
use mathlib.Core.List.Perm
use mathlib.Core.Logic.Or
use mathlib.Core.Path.{subst}
use potens_intern_backend_sh.Common.{
  ℕ, ◌≡◌, sym, ◌⊎◌, inl, inr, Bool, true, false, List, map, All-Mem, Text, Bool-cases, or_else,
}
use potens_intern_backend_sh.Json.{null}
use potens_intern_backend_sh.Json.WellFormed.{HasUtf16}
use potens_intern_backend_sh.Hash.{verify_entry}
use potens_intern_backend_sh.Hash.Entries.{verify_entry_of_success}
use potens_intern_backend_sh.Database.{Row, to_entry, Db, Postgres, IsSorting, asc, Query}
use potens_intern_backend_sh.Errors.{ok}
use potens_intern_backend_sh.Repository.{CreateDto, create_with_transaction, find_all_ordered}
use potens_intern_backend_sh.Repository.Creation.{IsCreated-of_eq}
use potens_intern_backend_sh.Repository.Ledger.{Survives}
use potens_intern_backend_sh.Repository.Payloads.{Clash, Clash-of_verify_entry}
use potens_intern_backend_sh.Verification.{verify_integrity}

-- After a request whose payload text does not survive the database, the verification of the log
-- fails, although nobody has altered anything; or the bytes that were hashed and those that are hashed
-- now differ and have one digest. The payload, sent and stored, has strings of 16-bit code units.
pub changed_payload_fails :
    (sha256 : List ℕ → Text) (pg : Postgres) (fails : Query → Bool) (id : Text) (dto : CreateDto)
    (db after : Db) (row : Row)
    → IsSorting pg
    → HasUtf16 (or_else dto.payload null)
    → HasUtf16 (pg.stored (or_else dto.payload null))
    → ¬ Survives pg dto.payload
    → create_with_transaction sha256 pg fails id dto db ≡ (ok row, after)
    → ((verify_integrity sha256 pg after).success ≡ false) ⊎ Clash sha256 pg id dto row
unfolding verify_integrity find_all_ordered
changed_payload_fails sha256 pg fails id dto db after row sorting sent stored lost e =
    let made = IsCreated-of_eq sha256 pg fails id dto db after row e in
    let es = map to_entry (find_all_ordered pg after) in
    let m : Mem row after.log_entries =
      subst (λ (rows : List Row). Mem row rows) (sym made.appended)
        (mem-append.1 (Or.inr mem-cons_self)) in
    let listed : Mem (to_entry row) es =
      mem-map_of_mem to_entry ((Perm.mem_iff (sorting.perm asc after.log_entries)).1 m) in
    elim (Bool-cases (verify_integrity sha256 pg after).success) [
      | inl success ↦ inr (
          Clash-of_verify_entry sha256 pg made sent stored lost (
            All-Mem (λ x. verify_entry sha256 x x.previous_hash ≡ true) (λ x. Bool-set _ _)
              (to_entry row) es (verify_entry_of_success sha256 es success) listed))
      | inr failed ↦ inl failed
    ]
