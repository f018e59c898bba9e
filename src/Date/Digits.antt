-- ===== src/Date/Digits.antt =====
-- The text of a date is made of digits and of the marks of ISO 8601.
use potens_intern_backend_sh.Common.{
  refl, ◌≡◌, ◌∷◌, [], ℕ, zero, suc, ◌/◌, ◌≢◌, inl, inr, ◌∷◌, ◌++◌, Text, Lacks, All, All-append,
  All-map, ◌<◌, arith, leb, Bool-cases,
}
use potens_intern_backend_sh.Utf8.{IsAscii}
use potens_intern_backend_sh.Date.{pad, year_text, date_text, time_text, to_iso}

abbrev bar : ℕ
bar = 124

-- All its characters come before "|", and so are ASCII.
record IsClean (t : Text) : Type 0 where
  below : All (λ c. c < bar) t

IsClean-append : {s t : Text} → IsClean s → IsClean t → IsClean (s ++ t)
IsClean-append {s} {t} hs ht = record { below = All-append (λ x. x < bar) s t hs.below ht.below }

IsClean-pad : (w n : ℕ) → IsClean (pad w n)
unfolding pad
IsClean-pad zero n = record { below = tt }
IsClean-pad (suc w) n = IsClean-append (IsClean-pad w (n / 10)) (record { below = omega arith })

-- A part, a mark and what follows.
IsClean-mark : {c : ℕ} {s t : Text} → IsClean s → c < bar → IsClean t → IsClean (s ++ (c ∷ t))
IsClean-mark hs hc ht = IsClean-append hs (record { below = (hc, ht.below) })

IsClean-year_text : (y : ℕ) → IsClean (year_text y)
unfolding year_text
IsClean-year_text y = elim (Bool-cases (leb y 9999)) [
  | inl short ↦ rw short (IsClean-pad 4 y)
  | inr long ↦ rw long (record { below = (omega arith, (IsClean-pad 6 y).below) })
]

IsClean-date_text : (d : ℕ) → IsClean (date_text d)
unfolding date_text
IsClean-date_text d =
    IsClean-mark (IsClean-year_text _) (omega arith)
      (IsClean-mark (IsClean-pad 2 _) (omega arith) (IsClean-pad 2 _))

IsClean-time_text : (ms : ℕ) → IsClean (time_text ms)
unfolding time_text
IsClean-time_text ms = IsClean-mark (IsClean-pad 2 _) (omega arith) (
    IsClean-mark (IsClean-pad 2 _) (omega arith)
      (IsClean-mark (IsClean-pad 2 _) (omega arith) (IsClean-pad 3 _)))

IsClean-to_iso : (t : ℕ) → IsClean (to_iso t)
unfolding to_iso
IsClean-to_iso t =
    IsClean-mark (IsClean-date_text _) (omega arith)
      (IsClean-append (IsClean-time_text _) (record { below = omega arith }))

pub Lacks-to_iso : (t : ℕ) → Lacks bar (to_iso t)
Lacks-to_iso t =
    All-map (λ c. c < bar) (λ c. c ≢ bar) (λ c h. omega (arith, h)) (to_iso t)
      (IsClean-to_iso t).below

pub to_iso-IsAscii : (t : ℕ) → IsAscii (to_iso t)
to_iso-IsAscii t =
    All-map (λ c. c < bar) (λ c. c < 0x80) (λ c h. omega (arith, h)) (to_iso t)
      (IsClean-to_iso t).below

cons_of_append : (s : Text) (c : ℕ) (t : Text) → (d : ℕ) × (r : Text) × (s ++ (c ∷ t) ≡ d ∷ r)
cons_of_append [] c t = (c, t, refl)
cons_of_append (x ∷ s) c t = (x, s ++ (c ∷ t), refl)

-- The text of a date is not empty.
pub to_iso-cons : (t : ℕ) → (c : ℕ) × (s : Text) × (to_iso t ≡ c ∷ s)
unfolding to_iso
to_iso-cons t = cons_of_append (date_text (t / 86400000)) _ _
