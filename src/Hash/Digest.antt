-- ===== src/Hash/Digest.antt =====
-- The digest of src/services/hash.service.js (`crypto.createHash('sha256')`), the texts that are hashed
-- for a log, and what it means that two of them have one digest.
use mathlib.Core.List.{Mem, reverse, mem-reverse, mem-cons_of_mem}
use potens_intern_backend_sh.Common.{
  ℕ, ◌≡◌, ◌≢◌, ◌⊎◌, Option, none, some, List, [], ◌∷◌, Text, length, All, ◌≤◌,
}
use potens_intern_backend_sh.Utf8.{utf8}
use potens_intern_backend_sh.Hash.{LogEntry, genesis_previous_hash}
use potens_intern_backend_sh.Hash.Input.{entry_input}

abbrev pub IsHexDigit : ℕ → Type 0
IsHexDigit c = ((48 ≤ c) × (c ≤ 57)) ⊎ ((97 ≤ c) × (c ≤ 102))

-- What is assumed of `digest('hex')` of crypto: 64 lower-case hexadecimal digits.
pub record IsDigest (sha256 : List ℕ → Text) : Type 0 where
  pub long : (bytes : List ℕ) → length (sha256 bytes) ≡ 64
  pub hex : (bytes : List ℕ) → All IsHexDigit (sha256 bytes)

-- The hash that the next entry refers to.
abbrev pub head_hash : Option LogEntry → Text
head_hash none = genesis_previous_hash
head_hash (some e) = e.current_hash

-- The texts that are hashed for the entries of a log, each in its place.
abbrev pub inputs : Option LogEntry → List LogEntry → List Text
inputs prior [] = []
inputs prior (e ∷ es) = entry_input (head_hash prior) e ∷ inputs (some e) es

-- Two texts with different bytes, one hashed in each of two logs, with one digest.
pub record Collision (sha256 : List ℕ → Text) (xs ys : List Text) : Type 0 where
  pub left : Text
  pub right : Text
  pub of_left : Mem left xs
  pub of_right : Mem right ys
  pub differ : utf8 left ≢ utf8 right
  pub same_digest : sha256 (utf8 left) ≡ sha256 (utf8 right)

pub Collision-cons :
    {sha256 : List ℕ → Text} {xs ys : List Text} (x y : Text)
    → Collision sha256 xs ys
    → Collision sha256 (x ∷ xs) (y ∷ ys)
Collision-cons x y c = record {
  left = c.left;
  right = c.right;
  of_left = mem-cons_of_mem x c.of_left;
  of_right = mem-cons_of_mem y c.of_right;
  differ = c.differ;
  same_digest = c.same_digest;
}

pub Collision-reverse :
    {sha256 : List ℕ → Text} (xs ys : List Text)
    → Collision sha256 (reverse xs) (reverse ys)
    → Collision sha256 xs ys
Collision-reverse xs ys c = record {
  left = c.left;
  right = c.right;
  of_left = mem-reverse.0 c.of_left;
  of_right = mem-reverse.0 c.of_right;
  differ = c.differ;
  same_digest = c.same_digest;
}
