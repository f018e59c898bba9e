-- ===== src/Repository/Ledger.antt =====
-- The log and the chain head of src/repositories/log.repository.js as one hash chain.
use mathlib.Core.HLevel.{⊥_prop}
use mathlib.Core.List.{
  map-append, Mem, Nodup, Nodup-cons, Nodup-append, Nodup-nil, mem-cons, not-mem-nil,
}
use mathlib.Core.Logic.Or
use mathlib.Core.Path.{subst}
use potens_intern_backend_sh.Common.{
  ℕ, ◌≡◌, refl, sym, ap, ◌∙◌, inl, inr, Bool, Option, none, some, List, [], arith, text_eq_iff,
  false, ◌∷◌, ◌++◌, map, Text, or_else,
}
use potens_intern_backend_sh.Json.{Json, null}
use potens_intern_backend_sh.Hash.{
  LogEntry, date, payload_text, hash_input, generate_hash, entry_hash,
}
use potens_intern_backend_sh.Utf8.{utf8}
use potens_intern_backend_sh.Hash.Input.{entry_input}
use potens_intern_backend_sh.Hash.Intact.{Fits, IsIntact, IsIntact-append, last}
use potens_intern_backend_sh.Hash.Digest.{head_hash}
use potens_intern_backend_sh.Hash.Unique.{hashes}
use potens_intern_backend_sh.Database.{
  is_taken, violates, Row, to_entry, ChainHead, Db, Postgres, Query,
}
use potens_intern_backend_sh.Errors.{Result}
use potens_intern_backend_sh.Repository.{CreateDto, create_with_transaction}
use potens_intern_backend_sh.Repository.Creation.{
  drafted, IsCreated, Outcome, create_with_transaction-Outcome,
}

abbrev pub entries : Db → List LogEntry
entries db = map to_entry db.log_entries

-- A value whose text comes back from the database as it went in.
abbrev pub Survives : Postgres → Option Json → Type 0
Survives pg payload =
    payload_text (some (pg.stored (or_else payload null)))
    ≡ payload_text (some (or_else payload null))

pub last-append :
    (prior : Option LogEntry) (xs : List LogEntry) (e : LogEntry)
    → last prior (xs ++ e ∷ []) ≡ some e
last-append prior [] e = refl
last-append prior (x ∷ xs) e = last-append (some x) xs e

-- An entry that refers to the hash before it, and holds its own, fits.
Fits-of_head_hash :
    (sha256 : List ℕ → Text) (prior : Option LogEntry) (e : LogEntry)
    → e.previous_hash ≡ some (head_hash prior)
    → e.current_hash ≡ entry_hash sha256 (head_hash prior) e
    → Fits sha256 prior e
Fits-of_head_hash sha256 none e p c = (inl p, c)
Fits-of_head_hash sha256 (some x) e p c = (p, c)

pub entry_input_of_eq :
    (p : Text) (e f : LogEntry)
    → e.actor ≡ f.actor
    → e.action ≡ f.action
    → payload_text (some e.payload) ≡ payload_text (some f.payload)
    → e.created_at ≡ f.created_at
    → entry_input p e ≡ entry_input p f
unfolding hash_input
entry_input_of_eq p e f a b c d = simp (a, b, c, d)

pub entry_hash_lem :
    (sha256 : List ℕ → Text) (p : Text) (e : LogEntry)
    → entry_hash sha256 p e ≡ sha256 (utf8 (entry_input p e))
unfolding entry_hash generate_hash
entry_hash_lem sha256 p e = refl

pub entry_hash_of_eq :
    (sha256 : List ℕ → Text) (p : Text) (e f : LogEntry)
    → e.actor ≡ f.actor
    → e.action ≡ f.action
    → payload_text (some e.payload) ≡ payload_text (some f.payload)
    → e.created_at ≡ f.created_at
    → entry_hash sha256 p e ≡ entry_hash sha256 p f
entry_hash_of_eq sha256 p e f a b c d =
    entry_hash_lem sha256 p e
    ∙ ap (λ (t : Text). sha256 (utf8 t)) (entry_input_of_eq p e f a b c d)
    ∙ sym (entry_hash_lem sha256 p f)

not-Mem_of_is_taken :
    (rows : List Row) (r : Row)
    → is_taken rows r ≡ false
    → ¬ Mem r.current_hash (hashes (map to_entry rows))
unfolding is_taken
not-Mem_of_is_taken [] r free = not-mem-nil
not-Mem_of_is_taken (x ∷ rows) r free = λ m.
    Or.elim ⊥_prop (mem-cons.0 m)
      (λ here. ground (arith, text_eq_iff x.current_hash r.current_hash))
      (not-Mem_of_is_taken rows r (ground arith))

pub is_taken_of_violates :
    (rows : List Row) (r : Row) → violates rows r ≡ false → is_taken rows r ≡ false
unfolding violates
is_taken_of_violates rows r h = ground arith

Nodup-snoc :
    (es : List LogEntry) (e : LogEntry)
    → Nodup (hashes es)
    → ¬ Mem e.current_hash (hashes es)
    → Nodup (hashes (es ++ e ∷ []))
Nodup-snoc es e distinct fresh = rw (map-append (λ (x : LogEntry). x.current_hash) es (e ∷ [])) (
    Nodup-append.1 (
      distinct,
      Nodup-cons.1 (not-mem-nil, Nodup-nil),
      λ a m one.
          Or.elim ⊥_prop (mem-cons.0 one)
            (λ same. fresh (subst (λ (t : Text). Mem t (hashes es)) same m)) not-mem-nil,
    ))

-- The log is an intact chain in the order of its insertions, no hash of which occurs twice, and the
-- chain head holds its last hash.
pub record IsConsistent (sha256 : List ℕ → Text) (db : Db) : Type 0 where
  pub head : ChainHead
  pub locked : db.chain_head ≡ some head
  pub chain : IsIntact sha256 none (entries db)
  pub tip : head.latest_hash ≡ head_hash (last none (entries db))
  pub distinct : Nodup (hashes (entries db))

module _ (sha256 : List ℕ → Text) (pg : Postgres) where
  pub IsConsistent-of_IsCreated :
      {id : Text} {dto : CreateDto} {db after : Db} {row : Row}
      → Survives pg dto.payload
      → IsConsistent sha256 db
      → IsCreated sha256 pg id dto db after row
      → IsConsistent sha256 after
  IsConsistent-of_IsCreated {id} {dto} {db} {after} {row} survives before made = record {
    head = record { latest_hash = row.current_hash; latest_log_id = some row.id };
    locked = made.moved;
    chain =
        rw grown
          (IsIntact-append sha256 none (entries db) (to_entry row ∷ []) before.chain (fits, tt));
    tip = rw grown (rw last-append refl);
    distinct = rw grown (
        Nodup-snoc (entries db) (to_entry row) before.distinct
          (not-Mem_of_is_taken db.log_entries row (is_taken_of_violates _ _ made.allowed)));
  }
    where
      grown : entries after ≡ entries db ++ to_entry row ∷ []
      grown = ap (map to_entry) made.appended ∙ map-append to_entry db.log_entries (row ∷ [])

      same : made.head ≡ before.head
      same = cc

      hash : made.head.latest_hash ≡ head_hash (last none (entries db))
      hash = ap (λ (h : ChainHead). h.latest_hash) same ∙ before.tip

      fits : Fits sha256 (last none (entries db)) (to_entry row)
      fits =
          Fits-of_head_hash sha256 (last none (entries db)) (to_entry row)
            (made.previous ∙ ap some hash)
            (made.current
              ∙ ap (λ (h : Text). entry_hash sha256 h (drafted id dto)) hash
              ∙ entry_hash_of_eq sha256 _ (drafted id dto) (to_entry row) (sym made.actor)
                  (sym made.action)
                  (sym (ap (λ (j : Json). payload_text (some j)) made.payload ∙ survives))
                  (ap date (sym made.created_at)))

  IsConsistent-of_Outcome :
      {id : Text} {dto : CreateDto} {db : Db} (r : Result Row × Db)
      → Survives pg dto.payload
      → IsConsistent sha256 db
      → Outcome sha256 pg id dto db r
      → IsConsistent sha256 r.1
  IsConsistent-of_Outcome r survives before (inl (e, thrown, same)) = rw same before
  IsConsistent-of_Outcome r survives before (inr (row, returned, made)) =
      IsConsistent-of_IsCreated survives before made

  -- A call of `createWithTransaction`, whatever fails in it, keeps the log an intact chain whose
  -- last hash the chain head holds, if the text of its payload survives the database.
  pub create_with_transaction-IsConsistent :
      (fails : Query → Bool) (id : Text) (dto : CreateDto) (db : Db)
      → Survives pg dto.payload
      → IsConsistent sha256 db
      → IsConsistent sha256 (create_with_transaction sha256 pg fails id dto db).1
  create_with_transaction-IsConsistent fails id dto db survives before =
      IsConsistent-of_Outcome _ survives before
        (create_with_transaction-Outcome sha256 pg fails id dto db)
