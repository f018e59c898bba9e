-- ===== src/Hash/Intact.antt =====
-- What an intact chain is, said without the loop of src/services/hash.service.js, and the two tests
-- of one round of it.
use potens_intern_backend_sh.Common.{
  ℕ, ◌≡◌, ◌↔◌, ◌⊎◌, true, Option, none, some, List, [], ◌∷◌, ◌++◌, Text, text_eq_iff, arith,
}
use potens_intern_backend_sh.Hash.{
  LogEntry, genesis_previous_hash, is_text, is_null, entry_hash, check_hash, check_entry,
}

pub is_text_iff : (o : Option Text) (t : Text) → (is_text o t ≡ true) ↔ (o ≡ some t)
unfolding is_text
is_text_iff none t = ground arith
is_text_iff (some s) t = ground (arith, text_eq_iff s t)

-- The entry before the one that follows a list.
abbrev pub last : Option LogEntry → List LogEntry → Option LogEntry
last prior [] = prior
last prior (e ∷ rest) = last (some e) rest

module _ (sha256 : List ℕ → Text) where
  -- An entry in its place: the first one refers to "GENESIS" or to null, each later one to the hash
  -- of the entry before it, and each holds the hash of its own content.
  abbrev pub Fits : Option LogEntry → LogEntry → Type 0
  Fits none e =
      ((e.previous_hash ≡ some genesis_previous_hash) ⊎ (e.previous_hash ≡ none))
      × (e.current_hash ≡ entry_hash sha256 genesis_previous_hash e)
  Fits (some prior) e =
      (e.previous_hash ≡ some prior.current_hash)
      × (e.current_hash ≡ entry_hash sha256 prior.current_hash e)

  abbrev pub IsIntact : Option LogEntry → List LogEntry → Type 0
  IsIntact prior [] = Unit
  IsIntact prior (e ∷ rest) = Fits prior e × IsIntact (some e) rest

  pub check_hash_iff :
      (resolved : Text) (e : LogEntry)
      → (check_hash sha256 resolved e ≡ none) ↔ (e.current_hash ≡ entry_hash sha256 resolved e)
  unfolding check_hash
  check_hash_iff resolved e =
      ground (arith, text_eq_iff e.current_hash (entry_hash sha256 resolved e))

  pub check_entry_iff :
      (prior : Option LogEntry) (e : LogEntry) → (check_entry sha256 prior e ≡ none) ↔ Fits prior e
  unfolding check_entry is_null
  check_entry_iff none e = ground (
    arith,
    is_text_iff e.previous_hash genesis_previous_hash,
    check_hash_iff genesis_previous_hash e,
  )
  check_entry_iff (some prior) e =
      ground
        (arith, is_text_iff e.previous_hash prior.current_hash, check_hash_iff prior.current_hash e)

  pub IsIntact-append :
      (prior : Option LogEntry) (xs ys : List LogEntry)
      → IsIntact prior xs
      → IsIntact (last prior xs) ys
      → IsIntact prior (xs ++ ys)
  IsIntact-append prior [] ys hx hy = hy
  IsIntact-append prior (x ∷ xs) ys hx hy = (hx.0, IsIntact-append (some x) xs ys hx.1 hy)

  pub IsIntact-split :
      (prior : Option LogEntry) (xs ys : List LogEntry)
      → IsIntact prior (xs ++ ys)
      → IsIntact prior xs × IsIntact (last prior xs) ys
  IsIntact-split prior [] ys h = (tt, h)
  IsIntact-split prior (x ∷ xs) ys h =
      let (hx, hy) = IsIntact-split (some x) xs ys h.1 in ((h.0, hx), hy)
