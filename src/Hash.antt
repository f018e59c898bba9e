-- ===== src/Hash.antt =====
-- src/services/hash.service.js. The digest `crypto.createHash('sha256')…digest('hex')` is Node's:
-- it is the parameter `sha256`, from the bytes of the input to the text of the digest.
pub mod Intact
pub mod Verdict
pub mod Input
pub mod Digest
pub mod Evidence
pub mod Unique
pub mod Ambiguity
pub mod Entries
use potens_intern_backend_sh.Common.{
  ℕ, Bool, true, false, not, ◌&&◌, Option, none, some, List, [], ◌∷◌, Text, codes, text_eq, join,
  length, or_else, if◌then◌else◌,
}
use potens_intern_backend_sh.Json.{Json, null, stringify}
use potens_intern_backend_sh.Date.{to_iso}
use potens_intern_backend_sh.Utf8.{utf8}

-- A `Date`, or the text that is left of one after JSON.
pub data Moment : Type 0 where
  date : ℕ → Moment
  text : Text → Moment

-- The argument of `generateHash`; `none` is `undefined`.
pub record HashData : Type 0 where
  pub actor : Option Text
  pub action : Option Text
  pub payload : Option Json
  pub previous_hash : Text
  pub created_at : Option Moment
  pub timestamp : Option Moment

-- A row of log_entries, as Prisma returns it or as the cache gives it back; `previous_hash` is
-- `none` for null.
pub record LogEntry : Type 0 where
  pub id : Text
  pub actor : Text
  pub action : Text
  pub payload : Json
  pub previous_hash : Option Text
  pub current_hash : Text
  pub created_at : Moment

abbrev pub genesis_previous_hash : Text
genesis_previous_hash = codes "GENESIS"

-- `data.createdAt || data.timestamp`: `undefined` and the empty text are falsy.
unfoldable pub first_moment : Option Moment → Option Moment → Option Moment
first_moment none legacy = legacy
first_moment (some (date t)) legacy = some (date t)
first_moment (some (text [])) legacy = legacy
first_moment (some (text (c ∷ s))) legacy = some (text (c ∷ s))

-- `ts instanceof Date ? ts.toISOString() : String(ts)`
unfoldable pub moment_text : Option Moment → Text
moment_text none = codes "undefined"
moment_text (some (date t)) = to_iso t
moment_text (some (text s)) = s

unfoldable pub payload_text : Option Json → Text
payload_text none = codes "null"
payload_text (some null) = codes "null"
payload_text (some payload) = stringify payload

-- `join` writes nothing for `undefined`.
unfoldable pub hash_input : HashData → Text
unfolding first_moment join
hash_input d = join (codes "|") (
    d.previous_hash
    ∷ or_else d.actor []
    ∷ or_else d.action []
    ∷ payload_text d.payload
    ∷ moment_text (first_moment d.created_at d.timestamp)
    ∷ [])

-- What `verifyEntireChain` returns; a field that is left out is `none`.
pub record ChainResult : Type 0 where
  pub success : Bool
  pub total_entries : ℕ
  pub broken_entry_id : Option Text
  pub reason : Option Text
  pub expected_hash : Option Text
  pub actual_hash : Option Text

pub record LegacyResult : Type 0 where
  pub valid : Bool
  pub total_entries : ℕ
  pub broken_at : Option Text

-- The part of a failed result that depends on the entry.
pub record Failure : Type 0 where
  pub reason : Text
  pub expected : Text
  pub actual : Text

abbrev pub intact : ℕ → ChainResult
intact total = record {
  success = true;
  total_entries = total;
  broken_entry_id = none;
  reason = none;
  expected_hash = none;
  actual_hash = none;
}

abbrev pub broken : ℕ → Text → Failure → ChainResult
broken total id f = record {
  success = false;
  total_entries = total;
  broken_entry_id = some id;
  reason = some f.reason;
  expected_hash = some f.expected;
  actual_hash = some f.actual;
}

-- `a === b` where `a` may be null.
unfoldable pub is_text : Option Text → Text → Bool
is_text none t = false
is_text (some s) t = text_eq s t

unfoldable pub is_null : Option Text → Bool
is_null none = true
is_null (some s) = false

-- An empty id is falsy, and is left out.
unfoldable pub truthy : Option Text → Option Text
truthy none = none
truthy (some []) = none
truthy (some (c ∷ s)) = some (c ∷ s)

module _ (sha256 : List ℕ → Text) where
  unfoldable pub generate_hash : HashData → Text
  generate_hash d = sha256 (utf8 (hash_input d))

  unfoldable pub create_genesis_hash : Text → Text → Json → Moment → Text
  create_genesis_hash actor action payload created_at = generate_hash (record {
    actor = some actor;
    action = some action;
    payload = some payload;
    previous_hash = genesis_previous_hash;
    created_at = some created_at;
    timestamp = none;
  })

  unfoldable pub calculate_current_hash : Text → Text → Json → Text → Moment → Text
  calculate_current_hash actor action payload previous_hash created_at = generate_hash (record {
    actor = some actor;
    action = some action;
    payload = some payload;
    previous_hash = previous_hash;
    created_at = some created_at;
    timestamp = none;
  })

  -- The object that both verifications hand to `generateHash`.
  unfoldable pub entry_hash : Text → LogEntry → Text
  entry_hash previous e = generate_hash (record {
    actor = some e.actor;
    action = some e.action;
    payload = some e.payload;
    previous_hash = previous;
    created_at = some e.created_at;
    timestamp = none;
  })

  unfoldable pub verify_entry : LogEntry → Option Text → Bool
  verify_entry entry resolved =
      text_eq entry.current_hash (entry_hash (or_else resolved genesis_previous_hash) entry)

  unfoldable pub check_hash : Text → LogEntry → Option Failure
  check_hash resolved entry =
      let expected = entry_hash resolved entry in
      if not (text_eq entry.current_hash expected)
      then some (record {
        reason = codes "Hash mismatch";
        expected = expected;
        actual = entry.current_hash;
      })
      else none

  -- One round of the loop; the first argument is `entries[i - 1]`, `none` where `i` is 0.
  unfoldable pub check_entry : Option LogEntry → LogEntry → Option Failure
  check_entry none entry =
      if not (is_text entry.previous_hash genesis_previous_hash)
        && not (is_null entry.previous_hash)
      then some (record {
        reason = codes "First record previousHash must be \"GENESIS\" or null";
        expected = genesis_previous_hash;
        actual = or_else entry.previous_hash (codes "null");
      })
      else check_hash genesis_previous_hash entry
  check_entry (some prior) entry =
      if not (is_text entry.previous_hash prior.current_hash)
      then some (record {
        reason = codes "previousHash linkage broken";
        expected = prior.current_hash;
        actual = or_else entry.previous_hash [];
      })
      else check_hash prior.current_hash entry

  unfoldable pub verify_from : ℕ → Option LogEntry → List LogEntry → ChainResult
  verify_from total prior [] = intact total
  verify_from total prior (entry ∷ rest) = elim (check_entry prior entry) [
    | some failure ↦ broken total entry.id failure
    | none ↦ verify_from total (some entry) rest
  ]

  unfoldable pub verify_entire_chain : List LogEntry → ChainResult
  verify_entire_chain [] = intact 0
  verify_entire_chain (entry ∷ rest) = verify_from (length (entry ∷ rest)) none (entry ∷ rest)

  unfoldable pub verify_chain : List LogEntry → LegacyResult
  verify_chain entries =
      let result = verify_entire_chain entries in
      record {
        valid = result.success;
        total_entries = result.total_entries;
        broken_at = truthy result.broken_entry_id;
      }
