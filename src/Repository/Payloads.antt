-- ===== src/Repository/Payloads.antt =====
-- `createWithTransaction` of src/repositories/log.repository.js hashes the payload that was sent, and
-- verification hashes the payload that the jsonb column gives back.
use mathlib.Core.List.{mem-cons_self}
use mathlib.Core.Path.{subst}
use potens_intern_backend_sh.Common.{
  ℕ, ◌≡◌, sym, ap, ◌∙◌, true, Option, some, List, [], ◌∷◌, Text, text_eq, text_eq_iff, or_else,
  arith,
}
use potens_intern_backend_sh.Json.{Json, null}
use potens_intern_backend_sh.Hash.{
  LogEntry, date, payload_text, hash_input, entry_hash, verify_entry, genesis_previous_hash,
}
use potens_intern_backend_sh.Hash.Input.{bar, entry_input, payload_text_lem}
use potens_intern_backend_sh.Utf8.{utf8}
use potens_intern_backend_sh.Utf8.WellFormed.{IsWellFormed}
use potens_intern_backend_sh.Utf8.Injective.{utf8_injective, utf8_behind, utf8_before}
use potens_intern_backend_sh.Json.WellFormed.{HasUtf16, stringify-IsWellFormed}
use potens_intern_backend_sh.Hash.Digest.{Collision}
use potens_intern_backend_sh.Database.{Row, to_entry, Db, Postgres}
use potens_intern_backend_sh.Repository.{CreateDto}
use potens_intern_backend_sh.Repository.Creation.{drafted, IsCreated}
use potens_intern_backend_sh.Repository.Ledger.{Survives, entry_input_of_eq, entry_hash_lem}

payload_text-IsWellFormed : (j : Json) → HasUtf16 j → IsWellFormed (payload_text (some j))
payload_text-IsWellFormed j h = rw (payload_text_lem j) (stringify-IsWellFormed j h)

entry_input_payload :
    (p : Text) (e : LogEntry) (q : Json)
    → HasUtf16 e.payload
    → HasUtf16 q
    → utf8 (entry_input p e) ≡ utf8 (entry_input p (record e { payload = q }))
    → payload_text (some e.payload) ≡ payload_text (some q)
unfolding hash_input
entry_input_payload p e q he hq same =
    let cut0 = utf8_behind p bar _ _ (omega arith) same in
    let cut1 = utf8_behind e.actor bar _ _ (omega arith) cut0 in
    let cut2 = utf8_behind e.action bar _ _ (omega arith) cut1 in
    let bytes =
      utf8_before _ bar (payload_text (some e.payload)) (payload_text (some q)) (omega arith)
        cut2 in
    utf8_injective _ _ (payload_text-IsWellFormed e.payload he) (payload_text-IsWellFormed q hq)
      bytes

module _ (sha256 : List ℕ → Text) (pg : Postgres) where
  -- The bytes that were hashed for a row, and those that are hashed for it later, differ and have one
  -- digest.
  abbrev pub Clash : Text → CreateDto → Row → Type 0
  Clash id dto row =
      Collision sha256 (entry_input (or_else row.previous_hash []) (drafted id dto) ∷ [])
        (entry_input (or_else row.previous_hash []) (to_entry row) ∷ [])

  module _ {id : Text} {dto : CreateDto} {db after : Db} {row : Row}
      (made : IsCreated sha256 pg id dto db after row) where
    Survives-of_inputs :
        (p : Text)
        → HasUtf16 (or_else dto.payload null)
        → HasUtf16 (pg.stored (or_else dto.payload null))
        → utf8 (entry_input p (drafted id dto)) ≡ utf8 (entry_input p (to_entry row))
        → Survives pg dto.payload
    Survives-of_inputs p sent stored same =
        let read_back : LogEntry = record (drafted id dto) {
          payload = pg.stored (or_else dto.payload null);
        } in
        sym (
          entry_input_payload p (drafted id dto) (pg.stored (or_else dto.payload null)) sent stored
            (same
              ∙ ap utf8 (
                  entry_input_of_eq p (to_entry row) read_back made.actor made.action
                    (ap (λ (j : Json). payload_text (some j)) made.payload)
                    (ap date made.created_at))))

    pub Clash-of_verify_entry :
        HasUtf16 (or_else dto.payload null)
        → HasUtf16 (pg.stored (or_else dto.payload null))
        → ¬ Survives pg dto.payload
        → verify_entry sha256 (to_entry row) row.previous_hash ≡ true
        → Clash id dto row
    unfolding verify_entry
    Clash-of_verify_entry sent stored lost verified =
        let p = made.head.latest_hash in
        let stored_hash : row.current_hash ≡ entry_hash sha256 p (to_entry row) =
          (text_eq_iff _ _).0 (
            subst
              (λ (o : Option Text).
                text_eq row.current_hash
                  (entry_hash sha256 (or_else o genesis_previous_hash) (to_entry row))
                ≡ true)
              made.previous verified) in
        subst
          (λ (o : Option Text).
            Collision sha256 (entry_input (or_else o []) (drafted id dto) ∷ [])
              (entry_input (or_else o []) (to_entry row) ∷ []))
          (sym made.previous)
          (record {
            left = entry_input p (drafted id dto);
            right = entry_input p (to_entry row);
            of_left = mem-cons_self;
            of_right = mem-cons_self;
            differ = λ same. lost (Survives-of_inputs p sent stored same);
            same_digest =
                sym (entry_hash_lem sha256 p (drafted id dto))
                ∙ sym made.current
                ∙ stored_hash
                ∙ entry_hash_lem sha256 p (to_entry row);
          })
