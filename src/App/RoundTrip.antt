-- ===== src/App/RoundTrip.antt =====
-- Reading back what was created: POST /api/log and GET /api/log/:id of src/app.js.
use potens_intern_backend_sh.Common.{
  ℕ, ◌≡◌, sym, ap, ◌∙◌, inl, inr, Bool, true, false, Option, some, List, Text, text_eq_iff, or_else,
}
use potens_intern_backend_sh.Json.{Json}
use potens_intern_backend_sh.Hash.{
  LogEntry, date, payload_text, verify_entry, entry_hash, genesis_previous_hash,
}
use potens_intern_backend_sh.Errors.{Result, ok}
use potens_intern_backend_sh.Database.{Row, Db, ChainHead, Postgres, Query, to_entry, violates}
use potens_intern_backend_sh.Repository.{CreateDto, find_by_id, new_row, create_with_transaction}
use potens_intern_backend_sh.Repository.Creation.{
  IsCreated, IsCreated-of_eq, drafted, create_with_transaction_succeeds,
}
use potens_intern_backend_sh.Repository.Ledger.{Survives, entry_hash_of_eq}
use potens_intern_backend_sh.Repository.Lookup.{find_by_id_of_IsCreated}
use potens_intern_backend_sh.LogService.{World, Body, status_of, after_commit, create_log_entry}
use potens_intern_backend_sh.LogService.Creation.{to_dto}
use potens_intern_backend_sh.LogService.Coherence.{IsCoherent, create_log_entry-IsCoherent}
use potens_intern_backend_sh.Validation.{create_log_schema}
use potens_intern_backend_sh.Copies.{entry_json}
use potens_intern_backend_sh.Http.{Response, created, success, async_handler}
use potens_intern_backend_sh.Controllers.{
  Config, Turn, answer, found_json, is_empty, trim, create_log,
}
use potens_intern_backend_sh.App.{Request, post_log, get_log_id, log_router, post_log_body, app}
use potens_intern_backend_sh.App.Replies.{IsAdmitted, app_of_IsAdmitted, reply_of, get_log-Reply}

module _ (sha256 : List ℕ → Text) (pg : Postgres) {id : Text} {dto : CreateDto} {db after : Db}
    {row : Row} (made : IsCreated sha256 pg id dto db after row) where
  status_of_IsCreated : Survives pg dto.payload → status_of sha256 (to_entry row) ≡ true
  unfolding status_of verify_entry
  status_of_IsCreated survives = (text_eq_iff _ _).1 (
      made.current
      ∙ sym (
          entry_hash_of_eq sha256 made.head.latest_hash (to_entry row) (drafted id dto) made.actor
            made.action (ap (λ (j : Json). payload_text (some j)) made.payload ∙ survives)
            (ap date made.created_at))
      ∙ ap (λ (o : Option Text). entry_hash sha256 (or_else o genesis_previous_hash) (to_entry row))
          (sym made.previous))

-- What lets the request be created: every service does its work, and nothing refuses the row.
pub record IsCreatable (config : Config) (turn : Turn) (body : Body) (head : ChainHead) (w : World)
    : Type 0 where
  pub up : (q : Query) → turn.fails q ≡ false
  pub locked : w.db.chain_head ≡ some head
  pub allowed :
      violates w.db.log_entries
        (new_row config.sha256 config.pg turn.uuid head.latest_hash (to_dto turn.now body))
      ≡ false
  pub accepted :
      config.pg.refuses
        (new_row config.sha256 config.pg turn.uuid head.latest_hash (to_dto turn.now body))
      ≡ false

module _ (config : Config) (turn : Turn) (body : Body) (head : ChainHead) (w : World)
    (creatable : IsCreatable config turn body head w) where
  abbrev outcome : Result Row × Db
  outcome =
      create_with_transaction config.sha256 config.pg turn.fails turn.uuid (to_dto turn.now body)
        w.db

  abbrev row : Row
  row = new_row config.sha256 config.pg turn.uuid head.latest_hash (to_dto turn.now body)

  returned : outcome ≡ (ok row, outcome.1)
  returned =
      let as_locked : w.db ≡ record { log_entries = w.db.log_entries; chain_head = some head } =
        ap (λ (o : Option ChainHead). record { log_entries = w.db.log_entries; chain_head = o })
          creatable.locked in
      let result : outcome.0 ≡ ok row =
        ap
          (λ (db : Db).
            (create_with_transaction config.sha256 config.pg turn.fails turn.uuid
              (to_dto turn.now body) db).0)
          as_locked
        ∙ create_with_transaction_succeeds config.sha256 config.pg turn.fails turn.uuid
            (to_dto turn.now body) w.db.log_entries head creatable.up creatable.allowed
            creatable.accepted in
      ap (λ (r : Result Row). (r, outcome.1)) result

  made : IsCreated config.sha256 config.pg turn.uuid (to_dto turn.now body) w.db outcome.1 row
  made =
      IsCreated-of_eq config.sha256 config.pg turn.fails turn.uuid (to_dto turn.now body) w.db
        outcome.1 row returned

  abbrev after : World
  after =
      (create_log_entry config.sha256 config.pg config.cache_ttl_seconds turn.fails turn.uuid
        turn.now body w).1

  create_log_entry_lem :
      create_log_entry config.sha256 config.pg config.cache_ttl_seconds turn.fails turn.uuid
        turn.now body w
      ≡ after_commit config.cache_ttl_seconds (ok row, outcome.1) w
  unfolding create_log_entry
  create_log_entry_lem =
      ap (λ (r : Result Row × Db). after_commit config.cache_ttl_seconds r w) returned

  after-db : after.db ≡ outcome.1
  unfolding after_commit
  after-db = ap (λ (r : Result LogEntry × World). r.1.db) create_log_entry_lem

  after-db_answers : after.db_answers ≡ w.db_answers
  unfolding after_commit
  after-db_answers = ap (λ (r : Result LogEntry × World). r.1.db_answers) create_log_entry_lem

  post_log-created :
      (json : Json)
      → create_log_schema json ≡ some body
      → log_router config turn (post_log json) w ≡ (created (entry_json (to_entry row)), after)
  unfolding log_router post_log_body create_log answer async_handler after_commit
  post_log-created json valid =
      ap (λ (o : Option Body). post_log_body config turn o json w) valid
      ∙ ap
          (λ (r : Result LogEntry × World).
            (async_handler (answer (λ e. created (entry_json e)) r.0, after)))
          create_log_entry_lem

  found_after :
      (turn' : Turn) (req : Request) (id : Text)
      → Survives config.pg body.payload
      → w.db_answers ≡ true
      → IsCoherent w
      → IsAdmitted config req (get_log_id id)
      → is_empty (trim id) ≡ false
      → trim id ≡ turn.uuid
      → (app config turn' req after).0
        ≡ success (found_json (record { entry = to_entry row; verification_status = true }))
  found_after turn' req id survives answers coherent admitted named same =
      elim (get_log-Reply config turn' req id after admitted named (
        create_log_entry-IsCoherent config.sha256 config.pg config.cache_ttl_seconds turn.fails
          turn.uuid turn.now body w coherent)) [
            | inl (silent, failed) ↦
                let clash : true ≡ false = sym answers ∙ sym after-db_answers ∙ silent in cc
            | inr reply ↦
                reply
                ∙ ap (reply_of config.sha256) (
                    ap (λ (i : Text). find_by_id i after.db) same
                    ∙ ap (find_by_id turn.uuid) after-db
                    ∙ find_by_id_of_IsCreated config.sha256 config.pg made)
                ∙ ap
                    (λ (b : Bool).
                      success
                        (found_json (record { entry = to_entry row; verification_status = b })))
                    (status_of_IsCreated config.sha256 config.pg made survives)
          ]

-- With the services up and nothing that refuses the row, POST /api/log answers 201 with the new
-- entry; and GET /api/log/:id with its id then answers 200 with that entry, verified, if the text of
-- the payload survives the database and the cache agreed with the table before.
pub created_is_found :
    (config : Config) (turn turn' : Turn) (post req : Request) (json : Json) (body : Body)
    (head : ChainHead) (id : Text) (w : World)
    → IsCreatable config turn body head w
    → IsAdmitted config post (post_log json)
    → create_log_schema json ≡ some body
    → IsAdmitted config req (get_log_id id)
    → is_empty (trim id) ≡ false
    → trim id ≡ turn.uuid
    → Survives config.pg body.payload
    → w.db_answers ≡ true
    → IsCoherent w
    → (let row =
          new_row config.sha256 config.pg turn.uuid head.latest_hash (to_dto turn.now body) in
        ((app config turn post w).0 ≡ created (entry_json (to_entry row)))
        × ((app config turn' req (app config turn post w).1).0
            ≡ success (found_json (record { entry = to_entry row; verification_status = true }))))
created_is_found config turn turn' post req json body head id w creatable posted valid admitted
      named same survives answers coherent =
    let first =
      app_of_IsAdmitted config turn post (post_log json) w posted
      ∙ post_log-created config turn body head w creatable json valid in
    (
      ap (λ (r : Response × World). r.0) first,
      ap (λ (r : Response × World). (app config turn' req r.1).0) first
          ∙ found_after config turn body head w creatable turn' req id survives answers coherent
              admitted named same,
    )
