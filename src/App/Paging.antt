-- ===== src/App/Paging.antt =====
-- The pages of GET /api/logs of src/app.js, as its reader gets them.
use mathlib.Core.List.{map-append}
use potens_intern_backend_sh.Common.{
  ℕ, zero, suc, ◌≤◌, ◌<◌, ◌≡◌, refl, sym, ap, ◌∙◌, true, Option, some, List, [], ◌∷◌, ◌++◌, map,
  Text, text_eq, ◌>>=◌, arith,
}
use potens_intern_backend_sh.Json.{Json, arr, stringify, property_of}
use potens_intern_backend_sh.Json.RoundTrip.{json_parse-stringify}
use potens_intern_backend_sh.Hash.{LogEntry}
use potens_intern_backend_sh.Copies.{json_entry}
use potens_intern_backend_sh.Database.{IsSorting, to_entry}
use potens_intern_backend_sh.Repository.{find_all, count}
use potens_intern_backend_sh.LogService.{World, get_all_log_entries}
use potens_intern_backend_sh.Http.{paginated, entry_items, async_handler}
use potens_intern_backend_sh.Http.Decimal.{decimal}
use potens_intern_backend_sh.Http.Decimal.Digits.{decimal_lem}
use potens_intern_backend_sh.Pagination.{
  PageQuery, parse_pagination, build_pagination_meta, total_pages,
}
use potens_intern_backend_sh.Pagination.Bounds.{AllDigits, value_from, parse_pagination_of_digits}
use potens_intern_backend_sh.Pagination.Pages.{HasDistinctTimes, pages, pages_cover}
use potens_intern_backend_sh.Controllers.{Config, Turn, answer, get_logs, meta_json}
use potens_intern_backend_sh.App.{Request, get_logs_page, get_export, log_router, app}
use potens_intern_backend_sh.App.Replies.{IsAdmitted, app_of_IsAdmitted}
use potens_intern_backend_sh.App.Audit.{
  bare, read_export, read_body, read_array, read_items-entry_items, export_read,
}

-- `?page=…&pageSize=…` in digits.
abbrev pub asked : ℕ → ℕ → PageQuery
asked page size = record { page = some (decimal page); page_size = some (decimal size) }

parse_of_values :
    (s t : Text) (page size : ℕ)
    → AllDigits s × (value_from 0 s ≡ page)
    → AllDigits t × (value_from 0 t ≡ size)
    → 1 ≤ page
    → page < 9007199254740992
    → 1 ≤ size
    → size ≤ 100
    → (let params = parse_pagination (record { page = some s; page_size = some t }) in
        (params.page ≡ page) × (params.page_size ≡ size))
parse_of_values [] t page size (hs, vs) ht p b q r = absurd (omega (arith, vs, p))
parse_of_values (c ∷ s) [] page size hs (ht, vt) p b q r = absurd (omega (arith, vt, q))
parse_of_values (c ∷ s) (d ∷ t) page size (hs, vs) (ht, vt) p b q r =
    ground (
      arith,
      parse_pagination_of_digits c d s t hs ht (omega (arith, vs, b)) (omega (arith, vt, r)),
    )

module _ (config : Config) (turn : Turn) (w : World) (answers : w.db_answers ≡ true) where
  page_lem :
      (req : Request) (page size : ℕ)
      → 1 ≤ page
      → page < 9007199254740992
      → 1 ≤ size
      → size ≤ 100
      → IsAdmitted config req (get_logs_page (asked page size))
      → (app config turn req w).0
        ≡ paginated
            (arr (entry_items (map to_entry (find_all config.pg page size w.db))))
            (meta_json (build_pagination_meta page size (count w.db)))
  unfolding log_router get_logs get_all_log_entries async_handler answer
  page_lem req page size p b q r admitted =
      let (page_is, size_is) =
        parse_of_values (decimal page) (decimal size) page size (decimal_lem page)
          (decimal_lem size) p b q r in
      simp
        (
          app_of_IsAdmitted config turn req (get_logs_page (asked page size)) w admitted,
          answers,
          page_is,
          size_is,
        )
        refl

  read_body-paginated :
      (es : List LogEntry) (info : Json)
      → read_body (paginated (arr (entry_items es)) info).body ≡ some (map json_entry es)
  unfolding read_body read_array paginated text_eq property_of
  read_body-paginated es info = read_items-entry_items es

  page_read :
      (req : Request) (page size : ℕ)
      → 1 ≤ page
      → page < 9007199254740992
      → 1 ≤ size
      → size ≤ 100
      → IsAdmitted config req (get_logs_page (asked page size))
      → read_export (stringify (app config turn req w).0.body)
        ≡ some (map json_entry (map to_entry (find_all config.pg page size w.db)))
  unfolding read_export ◌>>=◌
  page_read req page size p b q r admitted =
      simp (page_lem req page size p b q r admitted, json_parse-stringify) (read_body-paginated _ _)

-- What a reader gets who asks for the first `n` pages, one after the other.
unfoldable pub read_pages : Config → Turn → (ℕ → Request) → World → ℕ → Option (List LogEntry)
unfolding ◌>>=◌
read_pages config turn request w zero = some []
read_pages config turn request w (suc n) = do
  before ← read_pages config turn request w n
  es ← read_export (stringify (app config turn (request (suc n)) w).0.body)
  some (before ++ es)

read_pages_lem :
    (config : Config) (turn : Turn) (w : World) (request : ℕ → Request) (size n : ℕ)
    → w.db_answers ≡ true
    → n ≤ 90071992547409
    → 1 ≤ size
    → size ≤ 100
    → ((page : ℕ) → IsAdmitted config (request page) (get_logs_page (asked page size)))
    → read_pages config turn request w n
      ≡ some (map json_entry (map to_entry (pages config.pg n size w.db)))
unfolding read_pages ◌>>=◌
read_pages_lem config turn w request size zero answers few q r admitted = refl
read_pages_lem config turn w request size (suc n) answers few q r admitted =
    simp
      (
        read_pages_lem config turn w request size n answers (omega (arith, few)) q r admitted,
        page_read config turn w answers (request (suc n)) (suc n) size (omega arith)
            (omega (arith, few)) q r (admitted (suc n)),
        map-append,
      )
      refl

-- While the database answers, nothing is written in between and no two entries have one time, a reader
-- who asks GET /api/logs for as many pages as totalPages says, of a size from 1 to 100 and no more than
-- 2 ^ 53 / 100, gets the entries that an export without filters has, in its order.
pub pages_are_export :
    (config : Config) (turn : Turn) (w : World) (request : ℕ → Request) (exported : Request)
    (size n : ℕ)
    → IsSorting config.pg
    → HasDistinctTimes config.pg w.db
    → w.db_answers ≡ true
    → n ≤ 90071992547409
    → 1 ≤ size
    → size ≤ 100
    → ((page : ℕ) → IsAdmitted config (request page) (get_logs_page (asked page size)))
    → IsAdmitted config exported (get_export bare)
    → total_pages (count w.db) size ≡ some n
    → read_pages config turn request w n
      ≡ read_export (stringify (app config turn exported w).0.body)
pages_are_export config turn w request exported size n sorting distinct answers few q r admitted
      export counted =
    read_pages_lem config turn w request size n answers few q r admitted
    ∙ ap (λ rows. some (map json_entry (map to_entry rows)))
        (pages_cover config.pg w.db size n sorting distinct (omega (arith, q)) counted)
    ∙ sym (export_read config turn exported w export answers)
