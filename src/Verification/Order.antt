-- ===== src/Verification/Order.antt =====
-- When the verification of an untouched log succeeds: src/repositories/log.repository.js links the
-- entries in the order of the transactions, and reads them back in the order of `createdAt`, which
-- src/services/log.service.js takes before the transaction.
use mathlib.Core.HLevel.{⊥_prop}
use mathlib.Core.List.{Mem, mem-cons, not-mem-nil}
use mathlib.Core.List.Perm
use mathlib.Core.Logic.Or
use mathlib.Core.Path.{subst}
use potens_intern_backend_sh.Common.{
  ℕ, ◌≡◌, ◌≢◌, ◌↔◌, sym, ap, ◌∙◌, true, Option, none, some, List, [], ◌∷◌, map, Text, length, arith,
}
use potens_intern_backend_sh.Hash.{LogEntry, genesis_previous_hash, entry_hash, generate_hash}
use potens_intern_backend_sh.Hash.Intact.{Fits, IsIntact}
use potens_intern_backend_sh.Hash.Verdict.{success_iff}
use potens_intern_backend_sh.Hash.Digest.{IsDigest}
use potens_intern_backend_sh.Hash.Unique.{hashes, chain_unique}
use potens_intern_backend_sh.Database.{to_entry, Db, Postgres, IsSorting, asc}
use potens_intern_backend_sh.Repository.{find_all_ordered}
use potens_intern_backend_sh.Repository.Ledger.{entries, IsConsistent}
use potens_intern_backend_sh.Verification.{verify_integrity}

module _ (sha256 : List ℕ → Text) (digest : IsDigest sha256) where
  entry_hash-ne-genesis : (p : Text) (e : LogEntry) → entry_hash sha256 p e ≢ genesis_previous_hash
  unfolding entry_hash generate_hash
  entry_hash-ne-genesis p e same = omega (arith, ap length same, digest.long _)

  current_hash-ne-genesis :
      (prior : Option LogEntry) (e : LogEntry)
      → Fits sha256 prior e
      → genesis_previous_hash ≢ e.current_hash
  current_hash-ne-genesis none e fits same = entry_hash-ne-genesis _ e (sym fits.1 ∙ sym same)
  current_hash-ne-genesis (some p) e fits same = entry_hash-ne-genesis _ e (sym fits.1 ∙ sym same)

  not-Mem-genesis :
      (prior : Option LogEntry) (es : List LogEntry)
      → IsIntact sha256 prior es
      → ¬ Mem genesis_previous_hash (hashes es)
  not-Mem-genesis prior [] h = not-mem-nil
  not-Mem-genesis prior (e ∷ es) h = λ m.
      Or.elim ⊥_prop (mem-cons.0 m) (current_hash-ne-genesis prior e h.0)
        (not-Mem-genesis (some e) es h.1)

-- For a log whose entries, in the order in which they were committed, are an intact chain of distinct
-- hashes with the chain head at its end: the verification succeeds exactly when the order of
-- `createdAt` is that order.
pub verify_integrity_iff :
    (sha256 : List ℕ → Text) (pg : Postgres) (db : Db)
    → IsDigest sha256
    → IsSorting pg
    → IsConsistent sha256 db
    → ((verify_integrity sha256 pg db).success ≡ true)
      ↔ (map to_entry (find_all_ordered pg db) ≡ entries db)
unfolding verify_integrity find_all_ordered
verify_integrity_iff sha256 pg db digest sorting sound =
    let iff = success_iff sha256 (map to_entry (find_all_ordered pg db)) in
    (
      (λ success.
          chain_unique sha256 none (entries db) (map to_entry (find_all_ordered pg db)) sound.chain
            (iff.0 success) (Perm.map to_entry (sorting.perm asc db.log_entries)) sound.distinct
            (not-Mem-genesis sha256 digest none (entries db) sound.chain)),
      (λ same.
          iff.1 (subst (λ (es : List LogEntry). IsIntact sha256 none es) (sym same) sound.chain)),
    )
