-- ===== src/App/Audit.antt =====
-- An export (GET /api/export of src/routes/log.routes.js) that is verified by its reader, with
-- src/services/hash.service.js on what `JSON.parse` gives of it.
use potens_intern_backend_sh.Common.{
  ℕ, suc, ◌≡◌, refl, sym, ap, ◌∙◌, true, Option, none, some, List, [], ◌∷◌, map, Text, codes,
  text_eq, length, ◌>>=◌, arith,
}
use potens_intern_backend_sh.Json.{Json, obj, arr, Items, nil, cons, stringify, property_of}
use potens_intern_backend_sh.Json.Parse.{json_parse}
use potens_intern_backend_sh.Json.RoundTrip.{json_parse-stringify}
use potens_intern_backend_sh.Hash.{
  LogEntry, check_hash, check_entry, verify_from, verify_entire_chain,
}
use potens_intern_backend_sh.Copies.{json_entry, read_entry, read_entry-entry_json}
use potens_intern_backend_sh.Database.{Row, Db, Postgres, to_entry}
use potens_intern_backend_sh.Repository.{
  Filters, select, matches, matches_actor, at_least, at_most, find_filtered, find_all_ordered,
}
use potens_intern_backend_sh.Verification.{verify_integrity}
use potens_intern_backend_sh.LogService.{World, export_logs, export_as_json}
use potens_intern_backend_sh.LogService.Reads.{entry_hash-json}
use potens_intern_backend_sh.Http.{success, chain_result_json, entry_items, async_handler}
use potens_intern_backend_sh.Validation.{FilterQuery, export_filter_schema}
use potens_intern_backend_sh.Controllers.{
  Config, Turn, answer, verify_log, export_found, export_logs_reply,
}
use potens_intern_backend_sh.App.Replies.{IsAdmitted, app_of_IsAdmitted}
use potens_intern_backend_sh.App.{Request, get_verify, get_export, app, log_router}

-- The entries of the array "data" of the text of a response.
unfoldable pub read_items : Items → Option (List LogEntry)
unfolding ◌>>=◌
read_items nil = some []
read_items (cons j js) = do e ← read_entry j; es ← read_items js; some (e ∷ es)

unfoldable pub read_array : Option Json → Option (List LogEntry)
unfolding read_items
read_array (some (arr xs)) = read_items xs
read_array _ = none

unfoldable pub read_body : Json → Option (List LogEntry)
unfolding read_array property_of
read_body (obj fs) = read_array (property_of (codes "data") fs)
read_body _ = none

unfoldable pub read_export : Text → Option (List LogEntry)
unfolding ◌>>=◌ read_body
read_export t = json_parse t >>= read_body

pub read_items-entry_items :
    (es : List LogEntry) → read_items (entry_items es) ≡ some (map json_entry es)
unfolding read_items entry_items ◌>>=◌
read_items-entry_items [] = refl
read_items-entry_items (e ∷ es) = simp (read_entry-entry_json e, read_items-entry_items es)

read_body-success :
    (es : List LogEntry)
    → read_body (success (arr (entry_items es))).body ≡ some (map json_entry es)
unfolding read_body success text_eq
read_body-success es = read_items-entry_items es

module _ (sha256 : List ℕ → Text) where
  check_hash-json :
      (p : Text) (row : Row)
      → check_hash sha256 p (json_entry (to_entry row)) ≡ check_hash sha256 p (to_entry row)
  unfolding check_hash json_entry
  check_hash-json p row = simp (entry_hash-json sha256 row p) refl

  -- The first round of the loop, and a later one.
  check_first-json :
      (row : Row)
      → check_entry sha256 none (json_entry (to_entry row)) ≡ check_entry sha256 none (to_entry row)
  unfolding check_entry json_entry
  check_first-json row = simp (check_hash-json _ row) refl

  check_later-json :
      (prior row : Row)
      → check_entry sha256 (some (json_entry (to_entry prior))) (json_entry (to_entry row))
        ≡ check_entry sha256 (some (to_entry prior)) (to_entry row)
  unfolding check_entry json_entry
  check_later-json prior row = simp (check_hash-json _ row) refl

  id-json : (e : LogEntry) → (json_entry e).id ≡ e.id
  unfolding json_entry
  id-json e = refl

  verify_from-json :
      (total : ℕ) (prior : Row) (rows : List Row)
      → verify_from sha256 total
          (some (json_entry (to_entry prior)))
          (map json_entry (map to_entry rows))
        ≡ verify_from sha256 total (some (to_entry prior)) (map to_entry rows)
  unfolding verify_from
  verify_from-json total prior [] = refl
  verify_from-json total prior (row ∷ rows) =
      ground
        (arith, check_later-json prior row, verify_from-json total row rows, id-json (to_entry row))

  length-json : (es : List LogEntry) → length (map json_entry es) ≡ length es
  length-json [] = refl
  length-json (e ∷ es) = ap suc (length-json es)

  -- What the loop returns is the same after the entries have been sent as JSON and read back.
  verify_entire_chain-json :
      (rows : List Row)
      → verify_entire_chain sha256 (map json_entry (map to_entry rows))
        ≡ verify_entire_chain sha256 (map to_entry rows)
  unfolding verify_entire_chain verify_from
  verify_entire_chain-json [] = refl
  verify_entire_chain-json (row ∷ rows) = ground (
    arith,
    length-json (map to_entry rows),
    check_first-json row,
    verify_from-json (suc (length (map to_entry rows))) row rows,
    id-json (to_entry row),
  )

-- No filters.
abbrev no_filters : Filters
no_filters = record { actor = none; from_time = none; to_time = none }

select-no_filters : (rows : List Row) → select (matches no_filters) rows ≡ rows
unfolding select matches matches_actor at_least at_most
select-no_filters [] = refl
select-no_filters (r ∷ rows) = ap (◌∷◌ r) (select-no_filters rows)

find_filtered-no_filters :
    (pg : Postgres) (db : Db) → find_filtered pg no_filters db ≡ find_all_ordered pg db
unfolding find_filtered find_all_ordered
find_filtered-no_filters pg db = ap (pg.order_by_created_at _) (select-no_filters db.log_entries)

-- The query of GET /api/export without filters.
abbrev pub bare : FilterQuery
bare = record { actor = none; from_time = none; to_time = none }

pub export_lem :
    (config : Config) (turn : Turn) (req : Request) (w : World)
    → IsAdmitted config req (get_export bare)
    → w.db_answers ≡ true
    → (app config turn req w).0
      ≡ success (arr (entry_items (map to_entry (find_all_ordered config.pg w.db))))
unfolding log_router export_logs_reply export_found export_as_json export_logs export_filter_schema
    async_handler answer
export_lem config turn req w admitted answers =
    simp
      (
        app_of_IsAdmitted config turn req (get_export bare) w admitted,
        answers,
        find_filtered-no_filters config.pg w.db,
      )
      refl

-- What is read of an export.
pub export_read :
    (config : Config) (turn : Turn) (req : Request) (w : World)
    → IsAdmitted config req (get_export bare)
    → w.db_answers ≡ true
    → read_export (stringify (app config turn req w).0.body)
      ≡ some (map json_entry (map to_entry (find_all_ordered config.pg w.db)))
unfolding read_export ◌>>=◌
export_read config turn req w admitted answers =
    simp (export_lem config turn req w admitted answers, json_parse-stringify)
      (read_body-success (map to_entry (find_all_ordered config.pg w.db)))

verify_lem :
    (config : Config) (turn : Turn) (req : Request) (w : World)
    → IsAdmitted config req get_verify
    → w.db_answers ≡ true
    → (app config turn req w).0
      ≡ success (chain_result_json (verify_integrity config.sha256 config.pg w.db))
unfolding log_router verify_log async_handler
verify_lem config turn req w admitted answers =
    simp (app_of_IsAdmitted config turn req get_verify w admitted, answers) refl

-- While the database answers, the text of an export without filters can be read back into entries,
-- and verifyEntireChain on these gives what GET /api/verify answers at that time, whatever the state
-- of the log.
pub export_verifies :
    (config : Config) (turn : Turn) (exported verified : Request) (w : World)
    → IsAdmitted config exported (get_export bare)
    → IsAdmitted config verified get_verify
    → w.db_answers ≡ true
    → (es : List LogEntry) × (read_export (stringify (app config turn exported w).0.body) ≡ some es)
      × ((app config turn verified w).0
          ≡ success (chain_result_json (verify_entire_chain config.sha256 es)))
unfolding read_export ◌>>=◌ verify_integrity
export_verifies config turn exported verified w to_export to_verify answers =
    let rows = find_all_ordered config.pg w.db in
    (
      map json_entry (map to_entry rows),
      simp (export_lem config turn exported w to_export answers, json_parse-stringify)
          (read_body-success (map to_entry rows)),
      verify_lem config turn verified w to_verify answers
          ∙ ap (λ r. success (chain_result_json r))
              (sym (verify_entire_chain-json config.sha256 rows)),
    )
