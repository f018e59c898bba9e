-- ===== src/Tests/Chain.antt =====
-- The theorems on src/services/hash.service.js at the log of Samples.
use potens_intern_backend_sh.Common.{
  ◌≡◌, refl, ◌⊎◌, none, some, List, [], ◌∷◌, codes, map, Text, true, All, arith, text_eq, join,
}
use potens_intern_backend_sh.Date.{to_iso}
use potens_intern_backend_sh.Json.{quote, stringify, hex_digit}
use potens_intern_backend_sh.Json.WellFormed.{HasUtf16}
use potens_intern_backend_sh.Utf8.{utf8}
use potens_intern_backend_sh.Utf8.WellFormed.{IsWellFormed-of_IsAscii}
use potens_intern_backend_sh.Hash.{
  LogEntry, entry_hash, generate_hash, hash_input, verify_entry, verify_entire_chain, first_moment,
  moment_text, payload_text, is_text, is_null, check_entry, check_hash, verify_from,
}
use potens_intern_backend_sh.Hash.Verdict.{Verdict, verify_entire_chain-Verdict}
use potens_intern_backend_sh.Hash.Input.{content, IsPlain}
use potens_intern_backend_sh.Hash.Digest.{Collision, inputs}
use potens_intern_backend_sh.Hash.Evidence.{last_hash_fixes_history}
use potens_intern_backend_sh.Hash.Ambiguity.{renamed, moved_bar_undetected}
use potens_intern_backend_sh.Hash.Entries.{verify_entry_of_success}
use potens_intern_backend_sh.Database.{to_entry}
use potens_intern_backend_sh.Samples.{sample_digest, sample_digest-IsDigest, first_row, second_row}

abbrev two_entries : List LogEntry
two_entries = to_entry first_row ∷ to_entry second_row ∷ []

-- The same log under other ids, which are not hashed.
abbrev relabelled : List LogEntry
relabelled =
    record (to_entry first_row) { id = codes "x" }
    ∷ record (to_entry second_row) { id = codes "y" }
    ∷ []

-- The second entry has another action.
abbrev altered : List LogEntry
altered = to_entry first_row ∷ record (to_entry second_row) { action = codes "refund" } ∷ []

two_entries_success : (verify_entire_chain sample_digest two_entries).success ≡ true
unfolding verify_entire_chain verify_from check_entry check_hash is_text is_null entry_hash
    generate_hash hash_input utf8 join text_eq to_iso first_moment moment_text payload_text quote
    stringify hex_digit
two_entries_success = refl

relabelled_success : (verify_entire_chain sample_digest relabelled).success ≡ true
unfolding verify_entire_chain verify_from check_entry check_hash is_text is_null entry_hash
    generate_hash hash_input utf8 join text_eq to_iso first_moment moment_text payload_text quote
    stringify hex_digit
relabelled_success = refl

altered_detected : (verify_entire_chain sample_digest altered).broken_entry_id ≡ some (codes "b2")
unfolding verify_entire_chain verify_from check_entry check_hash is_text is_null entry_hash
    generate_hash hash_input utf8 join text_eq to_iso first_moment moment_text payload_text quote
    stringify hex_digit
altered_detected = refl

first-IsPlain : IsPlain (to_entry first_row)
unfolding HasUtf16
first-IsPlain = record {
  actor = ground arith;
  action = ground arith;
  created_at = omega arith;
  actor_text = IsWellFormed-of_IsAscii _ (ground arith);
  action_text = IsWellFormed-of_IsAscii _ (ground arith);
  payload = ground arith;
}

second-IsPlain : IsPlain (to_entry second_row)
unfolding HasUtf16
second-IsPlain = record {
  actor = ground arith;
  action = ground arith;
  created_at = omega arith;
  actor_text = IsWellFormed-of_IsAscii _ (ground arith);
  action_text = IsWellFormed-of_IsAscii _ (ground arith);
  payload = ground arith;
}

relabel : {e : LogEntry} {id : Text} → IsPlain e → IsPlain (record e { id = id })
relabel h = record {
  actor = h.actor;
  action = h.action;
  created_at = h.created_at;
  actor_text = h.actor_text;
  action_text = h.action_text;
  payload = h.payload;
}

two_entries-IsPlain : All IsPlain two_entries
two_entries-IsPlain = (first-IsPlain, (second-IsPlain, tt))

relabelled-IsPlain : All IsPlain relabelled
relabelled-IsPlain = (relabel first-IsPlain, (relabel second-IsPlain, tt))

verify_entire_chain-Verdict_example :
    Verdict sample_digest 2 none altered (verify_entire_chain sample_digest altered)
verify_entire_chain-Verdict_example = verify_entire_chain-Verdict sample_digest altered

last_hash_fixes_history_example :
    (map content two_entries ≡ map content relabelled)
    ⊎ Collision sample_digest (inputs none two_entries) (inputs none relabelled)
last_hash_fixes_history_example =
    last_hash_fixes_history sample_digest two_entries relabelled sample_digest-IsDigest
      two_entries-IsPlain relabelled-IsPlain two_entries_success relabelled_success refl

-- "bob" and "pay|refund", against "bob|pay" and "refund".
moved_bar_undetected_example :
    verify_entire_chain sample_digest
      (to_entry first_row ∷ renamed (to_entry second_row) (codes "bob") (codes "pay|refund") ∷ [])
    ≡ verify_entire_chain sample_digest
        (to_entry first_row ∷ renamed (to_entry second_row) (codes "bob|pay") (codes "refund") ∷ [])
moved_bar_undetected_example =
    moved_bar_undetected sample_digest (to_entry first_row ∷ []) [] (to_entry second_row)
      (codes "bob") (codes "pay") (codes "refund")

verify_entry_of_success_example :
    All (λ e. verify_entry sample_digest e e.previous_hash ≡ true) two_entries
verify_entry_of_success_example =
    verify_entry_of_success sample_digest two_entries two_entries_success
