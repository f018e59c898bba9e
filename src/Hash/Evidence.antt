-- ===== src/Hash/Evidence.antt =====
-- How far the hash of the last entry fixes the whole log: the claim of src/services/hash.service.js
-- that altering a past entry breaks the chain.
use mathlib.Core.List.{reverse, reverse_aux, reverse-reverse, mem-cons_self}
use potens_intern_backend_sh.Common.{
  ℕ, ◌≡◌, ◌≢◌, refl, sym, ap, ◌∙◌, ◌⊎◌, inl, inr, Option, none, some, List, [], ◌∷◌, Text, map,
  Lacks, text_eq, text_eq_iff, Bool-cases, length, All, All-map, arith, true, ◌<◌,
}
use potens_intern_backend_sh.Utf8.{utf8}
use potens_intern_backend_sh.Utf8.WellFormed.{IsWellFormed, IsWellFormed-of_IsAscii}
use potens_intern_backend_sh.Utf8.Injective.{utf8_injective}
use potens_intern_backend_sh.Hash.{
  LogEntry, genesis_previous_hash, generate_hash, entry_hash, verify_entire_chain,
}
use potens_intern_backend_sh.Hash.Input.{
  bar, entry_input, content, IsPlain, entry_input_injective, entry_input-IsWellFormed,
}
use potens_intern_backend_sh.Hash.Verdict.{success_iff}
use potens_intern_backend_sh.Hash.Intact.{Fits, IsIntact, last}
use potens_intern_backend_sh.Hash.Digest.{
  IsHexDigit, IsDigest, head_hash, inputs, Collision, Collision-cons, Collision-reverse,
}

-- A log read from its last entry.
abbrev newest : List LogEntry → Option LogEntry
newest [] = none
newest (e ∷ r) = some e

abbrev back_inputs : List LogEntry → List Text
back_inputs [] = []
back_inputs (e ∷ r) = entry_input (head_hash (newest r)) e ∷ back_inputs r

module _ (sha256 : List ℕ → Text) where
  abbrev IsBackIntact : List LogEntry → Type 0
  IsBackIntact [] = Unit
  IsBackIntact (e ∷ r) = Fits sha256 (newest r) e × IsBackIntact r

  IsBackIntact-reverse_aux :
      (xs r : List LogEntry)
      → IsBackIntact r
      → IsIntact sha256 (newest r) xs
      → IsBackIntact (reverse_aux xs r)
  IsBackIntact-reverse_aux [] r h k = h
  IsBackIntact-reverse_aux (x ∷ xs) r h k = IsBackIntact-reverse_aux xs (x ∷ r) (k.0, h) k.1

  current_hash_of_Fits :
      (prior : Option LogEntry) (e : LogEntry)
      → Fits sha256 prior e
      → e.current_hash ≡ sha256 (utf8 (entry_input (head_hash prior) e))
  unfolding entry_hash generate_hash
  current_hash_of_Fits none e h = h.1
  current_hash_of_Fits (some p) e h = h.1

back_inputs-reverse_aux :
    (xs r : List LogEntry)
    → back_inputs (reverse_aux xs r) ≡ reverse_aux (inputs (newest r) xs) (back_inputs r)
back_inputs-reverse_aux [] r = refl
back_inputs-reverse_aux (x ∷ xs) r = back_inputs-reverse_aux xs (x ∷ r)

module _ (sha256 : List ℕ → Text) (digest : IsDigest sha256) where
  Lacks-head_hash : (r : List LogEntry) → IsBackIntact sha256 r → Lacks bar (head_hash (newest r))
  Lacks-head_hash [] h = omega arith
  Lacks-head_hash (e ∷ r) h =
      rw (current_hash_of_Fits sha256 (newest r) e h.0)
        (All-map IsHexDigit (λ c. c ≢ bar) (λ c d. ground (arith, d)) _ (digest.hex _))

  head_hash-IsWellFormed :
      (r : List LogEntry) → IsBackIntact sha256 r → IsWellFormed (head_hash (newest r))
  head_hash-IsWellFormed [] h = IsWellFormed-of_IsAscii genesis_previous_hash (omega arith)
  head_hash-IsWellFormed (e ∷ r) h = rw (current_hash_of_Fits sha256 (newest r) e h.0) (
      IsWellFormed-of_IsAscii _
        (All-map IsHexDigit (λ c. c < 0x80) (λ c d. ground (arith, d)) _ (digest.hex _)))

  -- The sentinel is no digest.
  current_hash-ne-genesis :
      (r : List LogEntry) (e : LogEntry)
      → Fits sha256 (newest r) e
      → e.current_hash ≢ genesis_previous_hash
  current_hash-ne-genesis r e h same =
      let long = digest.long (utf8 (entry_input (head_hash (newest r)) e)) in
      let seven = ap length (sym (current_hash_of_Fits sha256 (newest r) e h) ∙ same) in
      omega (arith, long, seven)

  Agreement : List LogEntry → List LogEntry → Type 0
  Agreement r s = (map content r ≡ map content s) ⊎ Collision sha256 (back_inputs r) (back_inputs s)

  Agreement-cons :
      (e f : LogEntry) (r s : List LogEntry)
      → content e ≡ content f
      → Agreement r s
      → Agreement (e ∷ r) (f ∷ s)
  unfolding Agreement
  Agreement-cons e f r s h (inl same) = inl (cc)
  Agreement-cons e f r s h (inr c) = inr (Collision-cons _ _ c)

  agree :
      (r s : List LogEntry)
      → All IsPlain r
      → All IsPlain s
      → IsBackIntact sha256 r
      → IsBackIntact sha256 s
      → head_hash (newest r) ≡ head_hash (newest s)
      → Agreement r s
  unfolding Agreement
  agree [] [] pr ps hr hs same = inl refl
  agree [] (f ∷ s) pr ps hr hs same = absurd (current_hash-ne-genesis s f hs.0 (sym same))
  agree (e ∷ r) [] pr ps hr hs same = absurd (current_hash-ne-genesis r e hr.0 same)
  agree (e ∷ r) (f ∷ s) pr ps hr hs same =
      let p = head_hash (newest r) in
      let q = head_hash (newest s) in
      elim (Bool-cases (text_eq (entry_input p e) (entry_input q f))) [
        | inl equal ↦
            let (prior, contents) =
              entry_input_injective p q e f (Lacks-head_hash r hr.1) (Lacks-head_hash s hs.1) pr.0
                ps.0 ((text_eq_iff _ _).0 equal) in
            Agreement-cons e f r s contents (agree r s pr.1 ps.1 hr.1 hs.1 prior)
        | inr differs ↦ inr (record {
          left = entry_input p e;
          right = entry_input q f;
          of_left = mem-cons_self;
          of_right = mem-cons_self;
          differ = λ equal.
              let same_text =
                utf8_injective (entry_input p e) (entry_input q f)
                  (entry_input-IsWellFormed p e (head_hash-IsWellFormed r hr.1) pr.0)
                  (entry_input-IsWellFormed q f (head_hash-IsWellFormed s hs.1) ps.0) equal in
              cc ((text_eq_iff (entry_input p e) (entry_input q f)).1 same_text);
          same_digest =
              sym (current_hash_of_Fits sha256 (newest r) e hr.0)
              ∙ same
              ∙ current_hash_of_Fits sha256 (newest s) f hs.0;
        })
      ]

newest-reverse_aux : (xs r : List LogEntry) → newest (reverse_aux xs r) ≡ last (newest r) xs
newest-reverse_aux [] r = refl
newest-reverse_aux (x ∷ xs) r = newest-reverse_aux xs (x ∷ r)

All-reverse_aux :
    (P : LogEntry → Type 0) (xs r : List LogEntry) → All P xs → All P r → All P (reverse_aux xs r)
All-reverse_aux P [] r h k = k
All-reverse_aux P (x ∷ xs) r h k = All-reverse_aux P xs (x ∷ r) h.1 (h.0, k)

contents-reverse_aux :
    (xs r : List LogEntry)
    → map content (reverse_aux xs r) ≡ reverse_aux (map content xs) (map content r)
contents-reverse_aux [] r = refl
contents-reverse_aux (x ∷ xs) r = contents-reverse_aux xs (x ∷ r)

reverse_injective {ℓ} : {A : Type ℓ} (xs ys : List A) → reverse xs ≡ reverse ys → xs ≡ ys
reverse_injective xs ys same = sym (reverse-reverse xs) ∙ ap reverse same ∙ reverse-reverse ys

Agreement-reverse :
    (sha256 : List ℕ → Text) (digest : IsDigest sha256) (xs ys : List LogEntry)
    → Agreement sha256 digest (reverse xs) (reverse ys)
    → (map content xs ≡ map content ys) ⊎ Collision sha256 (inputs none xs) (inputs none ys)
unfolding Agreement
Agreement-reverse sha256 digest xs ys (inl same) = inl (
    reverse_injective (map content xs) (map content ys)
      (sym (contents-reverse_aux xs []) ∙ same ∙ contents-reverse_aux ys []))
Agreement-reverse sha256 digest xs ys (inr c) = inr (
    Collision-reverse (inputs none xs) (inputs none ys)
      (rw (back_inputs-reverse_aux xs [], back_inputs-reverse_aux ys []) at c))

-- Two logs that both verify, and whose last entries hold one hash, have entry by entry the same
-- actors, actions, payloads and times, and so the same length; or two texts with different bytes that
-- were hashed, one in each, have one digest. The entries are plain: no "|" in an actor or an action,
-- times that are dates, and strings of whole UTF-16 characters.
pub last_hash_fixes_history :
    (sha256 : List ℕ → Text) (xs ys : List LogEntry)
    → IsDigest sha256
    → All IsPlain xs
    → All IsPlain ys
    → (verify_entire_chain sha256 xs).success ≡ true
    → (verify_entire_chain sha256 ys).success ≡ true
    → head_hash (last none xs) ≡ head_hash (last none ys)
    → (map content xs ≡ map content ys) ⊎ Collision sha256 (inputs none xs) (inputs none ys)
last_hash_fixes_history sha256 xs ys digest px py vx vy same =
    Agreement-reverse sha256 digest xs ys (
      agree sha256 digest (reverse xs) (reverse ys) (All-reverse_aux IsPlain xs [] px tt)
        (All-reverse_aux IsPlain ys [] py tt)
        (IsBackIntact-reverse_aux sha256 xs [] tt ((success_iff sha256 xs).0 vx))
        (IsBackIntact-reverse_aux sha256 ys [] tt ((success_iff sha256 ys).0 vy))
        (rw (newest-reverse_aux xs [], newest-reverse_aux ys []) same))
