-- ===== src/Date/Texts.antt =====
-- A time is determined by its text (`toISOString`).
use potens_intern_backend_sh.Common.{
  ℕ, zero, suc, ◌+◌, ◌/◌, ◌%◌, ◌≤◌, ◌<◌, ◌≡◌, sym, ◌∙◌, inl, inr, [], ◌∷◌, ◌++◌, append_assoc, Text,
  leb, Bool-cases, arith,
}
use potens_intern_backend_sh.Date.{
  pad, year_of, month_of, day_of, year_text, date_text, time_text, to_iso,
}
use potens_intern_backend_sh.Date.Calendar.{date_injective, date_bounds}

-- The number has at most so many digits.
abbrev Fits : ℕ → ℕ → Type 0
Fits zero n = n ≡ 0
Fits (suc w) n = Fits w (n / 10)

pad-cut :
    (w n m : ℕ) (s t : Text) → Fits w n → Fits w m → pad w n ++ s ≡ pad w m ++ t → (n ≡ m) × (s ≡ t)
unfolding pad
pad-cut zero n m s t h k same = (omega arith, same)
pad-cut (suc w) n m s t h k same =
    let (front, rest) = pad-cut w (n / 10) (m / 10) ((48 + n % 10) ∷ s) ((48 + m % 10) ∷ t) h k (
      sym (append_assoc (pad w (n / 10)) ((48 + n % 10) ∷ []) s)
      ∙ same
      ∙ append_assoc (pad w (m / 10)) ((48 + m % 10) ∷ []) t) in
    let digit : 48 + n % 10 ≡ 48 + m % 10 = cc in (omega arith, cc)

-- A year of four digits does not start with a sign.
pad_four-ne-plus : (y : ℕ) (s t : Text) → pad 4 y ++ s ≡ 43 ∷ t → ⊥
unfolding pad
pad_four-ne-plus y s t same = let first : 48 + y / 10 / 10 / 10 % 10 ≡ 43 = cc in omega arith

year_text-cut :
    (y z : ℕ) (s t : Text)
    → y < 1_000_000
    → z < 1_000_000
    → year_text y ++ s ≡ year_text z ++ t
    → (y ≡ z) × (s ≡ t)
unfolding year_text
year_text-cut y z s t h k = elim (Bool-cases (leb y 9999)) [
  | inl short ↦ elim (Bool-cases (leb z 9999)) [
    | inl short' ↦ rw (short, short') (pad-cut 4 y z s t (ground arith) (ground arith))
    | inr long' ↦ rw (short, long') (λ same. absurd (pad_four-ne-plus y s _ same))
  ]
  | inr long ↦ elim (Bool-cases (leb z 9999)) [
    | inl short' ↦ rw (long, short') (λ same. absurd (pad_four-ne-plus z t _ (sym same)))
    | inr long' ↦
        rw (long, long') (λ same. pad-cut 6 y z s t (ground arith) (ground arith) (cc same))
  ]
]

behind : {c : ℕ} {s t : Text} → c ∷ s ≡ c ∷ t → s ≡ t
behind same = cc

-- Digits, a mark and what follows.
field-cut :
    (w n m c : ℕ) (s t : Text)
    → Fits w n
    → Fits w m
    → pad w n ++ (c ∷ s) ≡ pad w m ++ (c ∷ t)
    → (n ≡ m) × (s ≡ t)
field-cut w n m c s t h k same = let (here, rest) = pad-cut w n m _ _ h k same in (here, cc)

date_text_lem :
    (d : ℕ) (s : Text)
    → date_text d ++ s
      ≡ year_text (year_of d) ++ (45 ∷ (pad 2 (month_of d) ++ (45 ∷ (pad 2 (day_of d) ++ s))))
unfolding date_text
date_text_lem d s = simp append_assoc

date_text-cut :
    (d e : ℕ) (s t : Text)
    → d ≤ 100_000_000
    → e ≤ 100_000_000
    → date_text d ++ s ≡ date_text e ++ t
    → (d ≡ e) × (s ≡ t)
date_text-cut d e s t h k same =
    let (dy, dm, dd) = date_bounds d h in
    let (ey, em, ed) = date_bounds e k in
    let (years, after_year) =
      year_text-cut (year_of d) (year_of e) _ _ dy ey
        (sym (date_text_lem d s) ∙ same ∙ date_text_lem e t) in
    let (months, after_month) =
      field-cut 2 (month_of d) (month_of e) 45 _ _ (omega arith) (omega arith)
        (behind after_year) in
    let (days, rest) =
      pad-cut 2 (day_of d) (day_of e) s t (omega arith) (omega arith) after_month in
    (date_injective d e years months days, rest)

time_text_lem :
    (ms : ℕ) (s : Text)
    → time_text ms ++ s
      ≡ pad 2 (ms / 3600000)
        ++ (58
            ∷ (pad 2 (ms / 60000 % 60)
                ++ (58 ∷ (pad 2 (ms / 1000 % 60) ++ (46 ∷ (pad 3 (ms % 1000) ++ s))))))
unfolding time_text
time_text_lem ms s = simp append_assoc

time_text-cut :
    (n m : ℕ) (s t : Text)
    → n < 86400000
    → m < 86400000
    → time_text n ++ s ≡ time_text m ++ t
    → n ≡ m
time_text-cut n m s t h k same =
    let (hours, after_hours) =
      field-cut 2 (n / 3600000) (m / 3600000) 58 _ _ (omega arith) (omega arith)
        (sym (time_text_lem n s) ∙ same ∙ time_text_lem m t) in
    let (minutes, after_minutes) =
      field-cut 2 (n / 60000 % 60) (m / 60000 % 60) 58 _ _ (omega arith) (omega arith)
        after_hours in
    let (seconds, after_seconds) =
      field-cut 2 (n / 1000 % 60) (m / 1000 % 60) 46 _ _ (omega arith) (omega arith)
        after_minutes in
    let (millis, rest) =
      pad-cut 3 (n % 1000) (m % 1000) s t (omega arith) (omega arith) after_seconds in
    omega arith

-- The times that a `Date` of JavaScript can hold, from 1970 on.
abbrev pub last_time : ℕ
last_time = 8_640_000_000_000_000

-- Two times with one text are one time.
pub to_iso_injective : (t u : ℕ) → t ≤ last_time → u ≤ last_time → to_iso t ≡ to_iso u → t ≡ u
unfolding to_iso
to_iso_injective t u h k same =
    let (days, after) =
      date_text-cut (t / 86400000) (u / 86400000) _ _ (omega arith) (omega arith) same in
    let times =
      time_text-cut (t % 86400000) (u % 86400000) _ _ (omega arith) (omega arith) (behind after) in
    omega arith
