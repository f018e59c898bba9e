-- ===== src/Hash/Verdict.antt =====
-- The verdict of `verifyEntireChain` and `verifyChain` of src/services/hash.service.js.
use potens_intern_backend_sh.Common.{
  ℕ, ◌≡◌, refl, ◌↔◌, ◌⊎◌, inl, inr, true, Option, none, some, List, [], ◌∷◌, ◌++◌, Text, codes,
  length, text_eq_iff, arith, Option-cases, ap, ◌≢◌, or_else,
}
use potens_intern_backend_sh.Hash.{
  LogEntry, Failure, ChainResult, intact, broken, genesis_previous_hash, check_entry, check_hash,
  entry_hash, is_null, verify_from, verify_entire_chain,
}
use potens_intern_backend_sh.Hash.Intact.{
  Fits, IsIntact, last, check_entry_iff, is_text_iff, IsIntact-split,
}

module _ (sha256 : List ℕ → Text) where
  abbrev Mismatch : Text → LogEntry → Failure → Type 0
  Mismatch resolved e f =
      (f.reason ≡ codes "Hash mismatch")
      × (f.expected ≡ entry_hash sha256 resolved e)
      × (f.actual ≡ e.current_hash)
      × (f.actual ≢ f.expected)

  -- What a failure says of an entry, for each reason.
  abbrev pub Explains : Option LogEntry → LogEntry → Failure → Type 0
  Explains none e f =
      ((f.reason ≡ codes "First record previousHash must be \"GENESIS\" or null")
        × (f.expected ≡ genesis_previous_hash)
        × (e.previous_hash ≡ some f.actual)
        × (f.actual ≢ f.expected))
      ⊎ Mismatch genesis_previous_hash e f
  Explains (some prior) e f =
      ((f.reason ≡ codes "previousHash linkage broken")
        × (f.expected ≡ prior.current_hash)
        × (f.actual ≡ or_else e.previous_hash [])
        × (e.previous_hash ≢ some f.expected))
      ⊎ Mismatch prior.current_hash e f

  check_entry-Explains :
      (prior : Option LogEntry) (e : LogEntry) (f : Failure)
      → check_entry sha256 prior e ≡ some f
      → Explains prior e f
  unfolding check_entry check_hash is_null
  check_entry-Explains none e f h = elim (Option-cases e.previous_hash) [
    | inl nothing ↦ ground (
      arith,
      is_text_iff e.previous_hash genesis_previous_hash,
      text_eq_iff e.current_hash (entry_hash sha256 genesis_previous_hash e),
    )
    | inr (t, held) ↦ ground (
      arith,
      is_text_iff e.previous_hash genesis_previous_hash,
      text_eq_iff e.current_hash (entry_hash sha256 genesis_previous_hash e),
    )
  ]
  check_entry-Explains (some prior) e f h = ground (
    arith,
    is_text_iff e.previous_hash prior.current_hash,
    text_eq_iff e.current_hash (entry_hash sha256 prior.current_hash e),
  )

  -- The first entry that does not fit, and a failure that explains it.
  pub record IsFirstBroken (total : ℕ) (prior : Option LogEntry) (entries : List LogEntry)
      (r : ChainResult) : Type 0 where
    pub before : List LogEntry
    pub entry : LogEntry
    pub after : List LogEntry
    pub failure : Failure
    pub split : entries ≡ before ++ entry ∷ after
    pub sound_before : IsIntact sha256 prior before
    pub misfit : ¬ Fits sha256 (last prior before) entry
    pub explained : Explains (last prior before) entry failure
    pub reported : r ≡ broken total entry.id failure

  module _ (total : ℕ) (prior : Option LogEntry) (e : LogEntry) (es : List LogEntry) where
    verify_from_of_none :
        check_entry sha256 prior e ≡ none
        → verify_from sha256 total prior (e ∷ es) ≡ verify_from sha256 total (some e) es
    unfolding verify_from
    verify_from_of_none h = rw (h, verify_from)

    IsFirstBroken-here :
        (f : Failure)
        → check_entry sha256 prior e ≡ some f
        → IsFirstBroken total prior (e ∷ es) (verify_from sha256 total prior (e ∷ es))
    unfolding verify_from
    IsFirstBroken-here f h = record {
      before = [];
      entry = e;
      after = es;
      failure = f;
      split = refl;
      sound_before = tt;
      misfit = λ fits. cc ((check_entry_iff sha256 prior e).1 fits);
      explained = check_entry-Explains prior e f h;
      reported = rw (h, verify_from);
    }

    IsFirstBroken-later :
        (r : ChainResult)
        → Fits sha256 prior e
        → IsFirstBroken total (some e) es r
        → IsFirstBroken total prior (e ∷ es) r
    IsFirstBroken-later r fits b = record {
      before = e ∷ b.before;
      entry = b.entry;
      after = b.after;
      failure = b.failure;
      split = ap (◌∷◌ e) b.split;
      sound_before = (fits, b.sound_before);
      misfit = b.misfit;
      explained = b.explained;
      reported = b.reported;
    }

  abbrev pub Verdict : ℕ → Option LogEntry → List LogEntry → ChainResult → Type 0
  Verdict total prior es r =
      (IsIntact sha256 prior es × (r ≡ intact total)) ⊎ IsFirstBroken total prior es r

  Verdict-later :
      (total : ℕ) (prior : Option LogEntry) (e : LogEntry) (es : List LogEntry) (r : ChainResult)
      → Fits sha256 prior e
      → Verdict total (some e) es r
      → Verdict total prior (e ∷ es) r
  Verdict-later total prior e es r fits (inl (sound, same)) = inl ((fits, sound), same)
  Verdict-later total prior e es r fits (inr b) =
      inr (IsFirstBroken-later total prior e es r fits b)

  verify_from-Verdict :
      (total : ℕ) (prior : Option LogEntry) (es : List LogEntry)
      → Verdict total prior es (verify_from sha256 total prior es)
  unfolding verify_from
  verify_from-Verdict total prior [] = inl (tt, refl)
  verify_from-Verdict total prior (e ∷ es) = elim (Option-cases (check_entry sha256 prior e)) [
    | inl fits ↦ rw (verify_from_of_none total prior e es fits) (
        Verdict-later total prior e es _ ((check_entry_iff sha256 prior e).0 fits)
          (verify_from-Verdict total (some e) es))
    | inr (f, found) ↦ inr (IsFirstBroken-here total prior e es f found)
  ]

  -- Either the log is an intact chain and the result says so with its length; or the result names the
  -- first entry that does not fit, the part before it is intact, and the reason and the two hashes
  -- that it gives are those of the test that this entry fails.
  pub verify_entire_chain-Verdict :
      (es : List LogEntry) → Verdict (length es) none es (verify_entire_chain sha256 es)
  unfolding verify_entire_chain
  verify_entire_chain-Verdict [] = inl (tt, refl)
  verify_entire_chain-Verdict (e ∷ es) = verify_from-Verdict (length (e ∷ es)) none (e ∷ es)

  -- An intact chain is accepted, and only an intact chain is.
  pub success_iff :
      (es : List LogEntry)
      → ((verify_entire_chain sha256 es).success ≡ true) ↔ IsIntact sha256 none es
  success_iff es = split (verify_entire_chain-Verdict es)
    where
      split :
          Verdict (length es) none es (verify_entire_chain sha256 es)
          → ((verify_entire_chain sha256 es).success ≡ true) ↔ IsIntact sha256 none es
      split (inl (sound, same)) = ((λ _. sound), (λ _. ap (λ r. r.success) same))
      split (inr b) = (
        (λ h. cc (ap (λ (r : ChainResult). r.success) b.reported)),
        (λ h. absurd (
            b.misfit
              (IsIntact-split sha256 none b.before (b.entry ∷ b.after) (rw b.split at h)).1.0)),
      )
