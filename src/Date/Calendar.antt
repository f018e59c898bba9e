-- ===== src/Date/Calendar.antt =====
-- A day is determined by its year, month and day of the month.
use potens_intern_backend_sh.Common.{
  ℕ, ltb, ap, refl, ◌+◌, ◌-◌, ◌*◌, ◌/◌, ◌≤◌, ◌<◌, ◌≡◌, leb, arith, if◌then◌else◌,
}
use potens_intern_backend_sh.Date.{
  day_of_era, year_of_era, day_of_year, march_month, month_of, day_of, year_of,
}

-- The first day of a year of an era.
year_start : ℕ → ℕ
year_start y = 365 * y + y / 4 - y / 100

year_of_era_bounds :
    (doe : ℕ)
    → doe < 146097
    → (year_of_era doe ≤ 399)
      × (year_start (year_of_era doe) ≤ doe)
      × (doe ≤ year_start (year_of_era doe) + 365)
unfolding year_of_era year_start
year_of_era_bounds doe h = omega arith

module _ (day : ℕ) where
  abbrev doe : ℕ
  doe = day_of_era day

  abbrev yoe : ℕ
  yoe = year_of_era doe

  abbrev doy : ℕ
  doy = day_of_year doe

  abbrev mp : ℕ
  mp = march_month doy

  abbrev era : ℕ
  era = (day + 719468) / 146097

  era_lem : era * 146097 + doe ≡ day + 719468
  unfolding day_of_era
  era_lem = omega arith

  doe_small : doe < 146097
  unfolding day_of_era
  doe_small = omega arith

  doy_lem : (year_start yoe + doy ≡ doe) × (doy ≤ 365) × (yoe ≤ 399)
  unfolding day_of_year year_start
  doy_lem = let (small, from, to) = year_of_era_bounds doe doe_small in omega arith

  mp_small : mp ≤ 11
  unfolding march_month
  mp_small = omega (arith, doy_lem)

  month_lem : month_of day ≡ (if ltb mp 10 then mp + 3 else mp - 9)
  unfolding month_of
  month_lem = refl

  -- The day of the year, by the month and the day in it.
  day_lem : doy ≡ (153 * mp + 2) / 5 + (day_of day - 1)
  unfolding day_of march_month
  day_lem = omega arith

  year_lem : year_of day ≡ (if leb (month_of day) 2 then era * 400 + yoe + 1 else era * 400 + yoe)
  unfolding year_of
  year_lem = refl

-- Two days with one date are one day.
pub date_injective :
    (d e : ℕ) → year_of d ≡ year_of e → month_of d ≡ month_of e → day_of d ≡ day_of e → d ≡ e
date_injective d e years months days =
    let months' : mp d ≡ mp e = ground (arith, month_lem d, month_lem e, mp_small d, mp_small e) in
    let doys : doy d ≡ doy e = omega (arith, day_lem d, day_lem e, months', days) in
    let marches : era d * 400 + yoe d ≡ era e * 400 + yoe e =
      ground (arith, year_lem d, year_lem e, months, years) in
    let eras : era d ≡ era e = omega (arith, doy_lem d, doy_lem e, marches) in
    let yoes : yoe d ≡ yoe e = omega (arith, doy_lem d, doy_lem e, marches) in
    omega (arith, era_lem d, era_lem e, doy_lem d, doy_lem e, ap year_start yoes, eras, doys)

-- How many digits the parts of a date take, up to the last time that a `Date` can hold.
pub date_bounds :
    (d : ℕ) → d ≤ 100_000_000 → (year_of d < 1_000_000) × (month_of d < 100) × (day_of d < 100)
unfolding day_of
date_bounds d h = (
  ground (arith, year_lem d, doy_lem d, era_lem d),
  ground (arith, month_lem d, mp_small d),
  omega (arith, day_lem d, doy_lem d),
)
