-- ===== src/Hash/Input.antt =====
-- What the text that src/services/hash.service.js hashes determines.
use potens_intern_backend_sh.Common.{
  ℕ, true, false, ◌≤◌, ap, ◌≡◌, refl, sym, none, some, ◌∷◌, ◌++◌, Text, Lacks, first_cut, last_cut,
  ◌∙◌, inl, arith,
}
use potens_intern_backend_sh.Json.{Json, null, bool, num, str, arr, obj, stringify}
use potens_intern_backend_sh.Json.RoundTrip.{stringify_injective}
use potens_intern_backend_sh.Date.Texts.{last_time, to_iso_injective}
use potens_intern_backend_sh.Date.Digits.{Lacks-to_iso, to_iso-IsAscii}
use potens_intern_backend_sh.Json.WellFormed.{HasUtf16, stringify-IsWellFormed}
use potens_intern_backend_sh.Utf8.{IsAscii}
use potens_intern_backend_sh.Utf8.WellFormed.{
  IsWellFormed, unit, IsWellFormed-append, IsWellFormed-of_IsAscii,
}
use potens_intern_backend_sh.Hash.{
  Moment, date, text, LogEntry, payload_text, moment_text, first_moment, hash_input,
}

abbrev pub bar : ℕ
bar = 124

-- The text that is hashed for an entry after a given hash.
abbrev pub entry_input : Text → LogEntry → Text
entry_input previous e = hash_input (record {
  actor = some e.actor;
  action = some e.action;
  payload = some e.payload;
  previous_hash = previous;
  created_at = some e.created_at;
  timestamp = none;
})

-- What of an entry is hashed.
pub record Content : Type 0 where
  pub actor : Text
  pub action : Text
  pub payload : Json
  pub created_at : Moment

abbrev pub content : LogEntry → Content
content e = record {
  actor = e.actor;
  action = e.action;
  payload = e.payload;
  created_at = e.created_at;
}

-- A date that comes from the database.
abbrev pub IsDate : Moment → Type 0
IsDate (date t) = t ≤ last_time
IsDate (text s) = ⊥

-- No "|" in the actor and in the action, a date, and strings as the database gives them back: without
-- a lone half of a surrogate pair.
pub record IsPlain (e : LogEntry) : Type 0 where
  pub actor : Lacks bar e.actor
  pub action : Lacks bar e.action
  pub created_at : IsDate e.created_at
  pub actor_text : IsWellFormed e.actor
  pub action_text : IsWellFormed e.action
  pub payload : HasUtf16 e.payload

Lacks-moment_text : (m : Moment) → IsDate m → Lacks bar (moment_text (some m))
unfolding moment_text
Lacks-moment_text (date t) h = Lacks-to_iso t
Lacks-moment_text (text s) h = elim h [ ]

pub payload_text_lem : (k : Json) → payload_text (some k) ≡ stringify k
unfolding payload_text stringify
payload_text_lem null = refl
payload_text_lem (bool true) = refl
payload_text_lem (bool false) = refl
payload_text_lem (num m ms) = refl
payload_text_lem (str t) = refl
payload_text_lem (arr xs) = refl
payload_text_lem (obj fs) = refl

-- The payload and the time are determined by their texts.
payload_text_injective : (i j : Json) → payload_text (some i) ≡ payload_text (some j) → i ≡ j
payload_text_injective i j same =
    stringify_injective i j (sym (payload_text_lem i) ∙ same ∙ payload_text_lem j)

moment_text_injective :
    (m n : Moment) → IsDate m → IsDate n → moment_text (some m) ≡ moment_text (some n) → m ≡ n
unfolding moment_text
moment_text_injective (text s) n h k same = elim h [ ]
moment_text_injective (date t) (text s) h k same = elim k [ ]
moment_text_injective (date t) (date u) h k same = ap date (to_iso_injective t u h k same)

abbrev marked : Text → LogEntry → Text
marked previous e =
    previous
    ++ (bar
        ∷ (e.actor
            ++ (bar
                ∷ (e.action
                    ++ (bar
                        ∷ (payload_text (some e.payload)
                            ++ (bar ∷ moment_text (some e.created_at))))))))

first_moment_of_IsDate : (m : Moment) → IsDate m → first_moment (some m) none ≡ some m
unfolding first_moment
first_moment_of_IsDate (date t) h = refl
first_moment_of_IsDate (text t) h = elim h [ ]

entry_input_lem :
    (previous : Text) (e : LogEntry)
    → IsDate e.created_at
    → entry_input previous e ≡ marked previous e
unfolding hash_input
entry_input_lem previous e h = rw (first_moment_of_IsDate e.created_at h)

-- Two plain entries with one input have the same hash before them and the same content.
pub entry_input_injective :
    (p q : Text) (e f : LogEntry)
    → Lacks bar p
    → Lacks bar q
    → IsPlain e
    → IsPlain f
    → entry_input p e ≡ entry_input q f
    → (p ≡ q) × (content e ≡ content f)
entry_input_injective p q e f hp hq h k same =
    let cut0 : marked p e ≡ marked q f =
      sym (entry_input_lem p e h.created_at) ∙ same ∙ entry_input_lem q f k.created_at in
    let (prior, cut1) = first_cut bar p q _ _ hp hq cut0 in
    let (actor, cut2) = first_cut bar e.actor f.actor _ _ h.actor k.actor cut1 in
    let (action, cut3) = first_cut bar e.action f.action _ _ h.action k.action cut2 in
    let (payload_texts, moment_texts) =
      last_cut bar _ _ _ _ (Lacks-moment_text _ h.created_at) (Lacks-moment_text _ k.created_at)
        cut3 in
    let payload = payload_text_injective e.payload f.payload payload_texts in
    let moment =
      moment_text_injective e.created_at f.created_at h.created_at k.created_at moment_texts in
    (prior, cc)

moment_text-IsAscii : (m : Moment) → IsDate m → IsAscii (moment_text (some m))
unfolding moment_text
moment_text-IsAscii (date t) h = to_iso-IsAscii t
moment_text-IsAscii (text s) h = elim h [ ]

-- A text, a "|" and what follows.
marked-IsWellFormed : (s t : Text) → IsWellFormed s → IsWellFormed t → IsWellFormed (s ++ bar ∷ t)
marked-IsWellFormed s t h k = IsWellFormed-append s (bar ∷ t) h (unit bar t (inl (omega arith)) k)

-- The text that is hashed for a plain entry can be read back from its bytes.
pub entry_input-IsWellFormed :
    (p : Text) (e : LogEntry) → IsWellFormed p → IsPlain e → IsWellFormed (entry_input p e)
entry_input-IsWellFormed p e h k =
    rw (entry_input_lem p e k.created_at, payload_text_lem e.payload)
      (marked-IsWellFormed p _ h (
        marked-IsWellFormed e.actor _ k.actor_text (
          marked-IsWellFormed e.action _ k.action_text (
            marked-IsWellFormed (stringify e.payload) _ (stringify-IsWellFormed e.payload k.payload)
              (IsWellFormed-of_IsAscii _ (moment_text-IsAscii e.created_at k.created_at))))))
