-- ===== src/Date.antt =====
-- `Date.prototype.toISOString`, as src/services/hash.service.js and src/utils/date.js call it. A
-- time is the number of milliseconds since 1970-01-01T00:00:00Z; earlier times are left out.
pub mod Digits
pub mod Calendar
pub mod Texts
use potens_intern_backend_sh.Common.{
  ℕ, zero, suc, ◌+◌, ◌-◌, ◌*◌, ◌/◌, ◌%◌, ◌≡◌, refl, [], ◌∷◌, ◌++◌, Text, codes, ltb, leb,
  if◌then◌else◌,
}

-- The last `w` decimal digits of a number.
pad : ℕ → ℕ → Text
pad zero n = []
pad (suc w) n = pad w (n / 10) ++ (48 + n % 10) ∷ []

-- Years are counted from March, in eras of 400 years, so that the leap day ends a year.
day_of_era : ℕ → ℕ
day_of_era day = (day + 719468) % 146097

year_of_era : ℕ → ℕ
year_of_era doe = (doe + doe / 36524 - doe / 1460 - doe / 146096) / 365

day_of_year : ℕ → ℕ
unfolding year_of_era
day_of_year doe = let y = year_of_era doe in doe - (365 * y + y / 4 - y / 100)

march_month : ℕ → ℕ
march_month doy = (5 * doy + 2) / 153

pub month_of : ℕ → ℕ
unfolding day_of_era day_of_year march_month
month_of day =
    let mp = march_month (day_of_year (day_of_era day)) in if ltb mp 10 then mp + 3 else mp - 9

pub day_of : ℕ → ℕ
unfolding day_of_era day_of_year march_month
day_of day = let doy = day_of_year (day_of_era day) in doy - (153 * march_month doy + 2) / 5 + 1

pub year_of : ℕ → ℕ
unfolding month_of
year_of day =
    let y = (day + 719468) / 146097 * 400 + year_of_era (day_of_era day) in
    if leb (month_of day) 2 then y + 1 else y

-- Four digits, or a sign and six.
year_text : ℕ → Text
unfolding pad
year_text y = if leb y 9999 then pad 4 y else codes "+" ++ pad 6 y

date_text : ℕ → Text
unfolding year_text year_of month_of day_of
date_text day =
    year_text (year_of day)
    ++ (codes "-" ++ (pad 2 (month_of day) ++ (codes "-" ++ pad 2 (day_of day))))

time_text : ℕ → Text
unfolding pad
time_text ms =
    pad 2 (ms / 3600000)
    ++ (codes ":"
        ++ (pad 2 (ms / 60000 % 60)
            ++ (codes ":" ++ (pad 2 (ms / 1000 % 60) ++ (codes "." ++ pad 3 (ms % 1000))))))

unfoldable pub to_iso : ℕ → Text
unfolding date_text time_text
to_iso t = date_text (t / 86400000) ++ (codes "T" ++ (time_text (t % 86400000) ++ codes "Z"))

-- A leap day, the end of a century year, and the example of src/utils/date.js.
to_iso_tests :
    (to_iso 951_782_400_000 ≡ codes "2000-02-29T00:00:00.000Z")
    × (to_iso 1_705_314_600_000 ≡ codes "2024-01-15T10:30:00.000Z")
    × (to_iso 4_102_444_799_999 ≡ codes "2099-12-31T23:59:59.999Z")
    × (to_iso 4_107_542_400_000 ≡ codes "2100-03-01T00:00:00.000Z")
unfolding to_iso
to_iso_tests = (refl, refl, refl, refl)
