-- ===== src/Copies.antt =====
-- What src/services/log.service.js writes to the cache and sends as JSON, and what it has in hand after
-- reading an entry from the cache.
use potens_intern_backend_sh.Common.{◌≡◌, refl, Option, none, some, Text, codes, text_eq, ◌>>=◌}
use potens_intern_backend_sh.Json.{Json, null, str, obj, end, field, property_of}
use potens_intern_backend_sh.Hash.{LogEntry, Moment, text, moment_text}

-- The value of "latest_log".
pub record Summary : Type 0 where
  pub id : Text
  pub current_hash : Text
  pub created_at : Moment

unfoldable pub or_null : Option Text → Json
or_null none = null
or_null (some t) = str t

-- A date is written as its ISO text.
unfoldable pub entry_json : LogEntry → Json
unfolding moment_text or_null
entry_json e = obj (
    field (codes "id") (str e.id) (
      field (codes "actor") (str e.actor) (
        field (codes "action") (str e.action) (
          field (codes "payload") e.payload (
            field (codes "previousHash") (or_null e.previous_hash) (
              field (codes "currentHash") (str e.current_hash)
                (field (codes "createdAt") (str (moment_text (some e.created_at))) end)))))))

unfoldable pub summary_json : Summary → Json
unfolding moment_text
summary_json s = obj (
    field (codes "id") (str s.id) (
      field (codes "currentHash") (str s.current_hash)
        (field (codes "createdAt") (str (moment_text (some s.created_at))) end)))

unfoldable pub read_text : Option Json → Option Text
read_text (some (str t)) = some t
read_text _ = none

unfoldable pub read_text_or_null : Option Json → Option (Option Text)
read_text_or_null (some (str t)) = some (some t)
read_text_or_null (some null) = some none
read_text_or_null _ = none

-- A parsed value as an entry. The keys "log:…" hold entries only, so that `none` stands for null; what
-- the code does with an object of another form is not modelled.
unfoldable pub read_entry : Json → Option LogEntry
unfolding property_of read_text read_text_or_null ◌>>=◌ text_eq
read_entry (obj fs) = do
  id ← read_text (property_of (codes "id") fs)
  actor ← read_text (property_of (codes "actor") fs)
  action ← read_text (property_of (codes "action") fs)
  payload ← property_of (codes "payload") fs
  previous_hash ← read_text_or_null (property_of (codes "previousHash") fs)
  current_hash ← read_text (property_of (codes "currentHash") fs)
  created_at ← read_text (property_of (codes "createdAt") fs)
  some (record {
    id = id;
    actor = actor;
    action = action;
    payload = payload;
    previous_hash = previous_hash;
    current_hash = current_hash;
    created_at = text created_at;
  })
read_entry _ = none

-- An entry after `JSON.parse(JSON.stringify(entry))`.
unfoldable pub json_entry : LogEntry → LogEntry
unfolding moment_text
json_entry e = record e { created_at = text (moment_text (some e.created_at)) }

read_text_or_null-or_null : (o : Option Text) → read_text_or_null (some (or_null o)) ≡ some o
unfolding read_text_or_null or_null
read_text_or_null-or_null none = refl
read_text_or_null-or_null (some t) = refl

pub read_entry-entry_json : (e : LogEntry) → read_entry (entry_json e) ≡ some (json_entry e)
unfolding read_entry entry_json json_entry
read_entry-entry_json e = rw (read_text_or_null-or_null e.previous_hash)

-- A copy is sent as the entry is.
pub entry_json-json_entry : (e : LogEntry) → entry_json (json_entry e) ≡ entry_json e
unfolding entry_json json_entry
entry_json-json_entry e = refl
