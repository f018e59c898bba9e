-- ===== src/Hash/Entries.antt =====
-- `verifyEntry` of src/services/hash.service.js against the verification of the whole chain.
use potens_intern_backend_sh.Common.{
  ℕ, ◌≡◌, inl, inr, true, Option, none, some, List, [], ◌∷◌, Text, or_else, text_eq_iff, All,
}
use potens_intern_backend_sh.Hash.{
  LogEntry, genesis_previous_hash, entry_hash, verify_entry, verify_entire_chain,
}
use potens_intern_backend_sh.Hash.Intact.{Fits, IsIntact}
use potens_intern_backend_sh.Hash.Verdict.{success_iff}

module _ (sha256 : List ℕ → Text) where
  verify_entry_of_eq :
      (e : LogEntry)
      → e.current_hash ≡ entry_hash sha256 (or_else e.previous_hash genesis_previous_hash) e
      → verify_entry sha256 e e.previous_hash ≡ true
  unfolding verify_entry
  verify_entry_of_eq e h = (text_eq_iff _ _).1 h

  verify_entry_of_Fits :
      (prior : Option LogEntry) (e : LogEntry)
      → Fits sha256 prior e
      → verify_entry sha256 e e.previous_hash ≡ true
  unfolding entry_hash
  verify_entry_of_Fits none e (inl genesis, same) = verify_entry_of_eq e (rw genesis same)
  verify_entry_of_Fits none e (inr nothing, same) = verify_entry_of_eq e (rw nothing same)
  verify_entry_of_Fits (some p) e (linked, same) = verify_entry_of_eq e (rw linked same)

  All-verify_entry :
      (prior : Option LogEntry) (es : List LogEntry)
      → IsIntact sha256 prior es
      → All (λ e. verify_entry sha256 e e.previous_hash ≡ true) es
  All-verify_entry prior [] h = tt
  All-verify_entry prior (e ∷ es) h =
      (verify_entry_of_Fits prior e h.0, All-verify_entry (some e) es h.1)

  -- Every entry of a log that verifies as a whole verifies alone, against the hash that it refers to
  -- itself.
  pub verify_entry_of_success :
      (es : List LogEntry)
      → (verify_entire_chain sha256 es).success ≡ true
      → All (λ e. verify_entry sha256 e e.previous_hash ≡ true) es
  verify_entry_of_success es h = All-verify_entry none es ((success_iff sha256 es).0 h)
