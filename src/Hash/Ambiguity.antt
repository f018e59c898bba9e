-- ===== src/Hash/Ambiguity.antt =====
-- What the separator "|" of `generateHash` in src/services/hash.service.js does not tell apart.
use potens_intern_backend_sh.Common.{
  ℕ, ◌≡◌, refl, Option, none, some, List, [], ◌∷◌, ◌++◌, append_assoc, Text, length-append, arith,
}
use potens_intern_backend_sh.Hash.{
  LogEntry, hash_input, generate_hash, entry_hash, check_hash, check_entry, verify_from,
  verify_entire_chain,
}
use potens_intern_backend_sh.Hash.Input.{bar, entry_input}

-- Two entries that the service cannot tell apart.
record IsAlike (e f : LogEntry) : Type 0 where
  id : e.id ≡ f.id
  previous : e.previous_hash ≡ f.previous_hash
  current : e.current_hash ≡ f.current_hash
  input : (p : Text) → entry_input p e ≡ entry_input p f

module _ (sha256 : List ℕ → Text) (e f : LogEntry) (alike : IsAlike e f) where
  entry_hash_of_IsAlike : (p : Text) → entry_hash sha256 p e ≡ entry_hash sha256 p f
  unfolding entry_hash generate_hash
  entry_hash_of_IsAlike p = rw (alike.input p)

  check_hash_of_IsAlike : (p : Text) → check_hash sha256 p e ≡ check_hash sha256 p f
  unfolding check_hash
  check_hash_of_IsAlike p = simp (entry_hash_of_IsAlike, alike.current)

  check_entry_of_IsAlike :
      (prior : Option LogEntry) → check_entry sha256 prior e ≡ check_entry sha256 prior f
  unfolding check_entry
  check_entry_of_IsAlike none = simp (alike.previous, check_hash_of_IsAlike)
  check_entry_of_IsAlike (some p) = simp (alike.previous, check_hash_of_IsAlike)

  -- The next entry sees the hash alone.
  check_entry_after : (g : LogEntry) → check_entry sha256 (some e) g ≡ check_entry sha256 (some f) g
  unfolding check_entry
  check_entry_after g = simp alike.current

  verify_from_after :
      (total : ℕ) (after : List LogEntry)
      → verify_from sha256 total (some e) after ≡ verify_from sha256 total (some f) after
  unfolding verify_from
  verify_from_after total [] = refl
  verify_from_after total (g ∷ after) = simp (check_entry_after, verify_from)

  verify_from_of_IsAlike :
      (total : ℕ) (prior : Option LogEntry) (before after : List LogEntry)
      → verify_from sha256 total prior (before ++ e ∷ after)
        ≡ verify_from sha256 total prior (before ++ f ∷ after)
  unfolding verify_from
  verify_from_of_IsAlike total prior [] after =
      ground (arith, check_entry_of_IsAlike prior, verify_from_after total after, alike.id)
  verify_from_of_IsAlike total prior (b ∷ before) after =
      ground (arith, verify_from_of_IsAlike total (some b) before after)

  verify_entire_chain_of_IsAlike :
      (before after : List LogEntry)
      → verify_entire_chain sha256 (before ++ e ∷ after)
        ≡ verify_entire_chain sha256 (before ++ f ∷ after)
  unfolding verify_entire_chain
  verify_entire_chain_of_IsAlike [] after = verify_from_of_IsAlike _ none [] after
  verify_entire_chain_of_IsAlike (b ∷ before) after =
      simp (length-append) (verify_from_of_IsAlike _ none (b ∷ before) after)

-- An entry with the given actor and action.
abbrev pub renamed : LogEntry → Text → Text → LogEntry
renamed e actor action = record e { actor = actor; action = action }

renamed-IsAlike :
    (e : LogEntry) (a b c : Text)
    → IsAlike (renamed e a (b ++ (bar ∷ c))) (renamed e (a ++ (bar ∷ b)) c)
unfolding hash_input
renamed-IsAlike e a b c = record {
  id = refl;
  previous = refl;
  current = refl;
  input = λ p. simp append_assoc;
}

-- In any log, moving the text up to a "|" from the front of an entry's action to the end of its
-- actor changes nothing in the result of `verifyEntireChain`: the tampering is not detected.
pub moved_bar_undetected :
    (sha256 : List ℕ → Text) (before after : List LogEntry) (e : LogEntry) (a b c : Text)
    → verify_entire_chain sha256 (before ++ renamed e a (b ++ (bar ∷ c)) ∷ after)
      ≡ verify_entire_chain sha256 (before ++ renamed e (a ++ (bar ∷ b)) c ∷ after)
moved_bar_undetected sha256 before after e a b c =
    verify_entire_chain_of_IsAlike sha256 _ _ (renamed-IsAlike e a b c) before after
