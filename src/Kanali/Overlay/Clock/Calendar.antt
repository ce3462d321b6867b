-- ===== src/Kanali/Overlay/Clock/Calendar.antt =====
-- The date on the panel against the calendar.
use tryxctl.Prelude.{
  ℕ, ◌+◌, ◌-◌, ◌*◌, ◌/◌, ◌%◌, suc, zero, ◌≡◌, ◌≤◌, ◌<◌, refl, Bool, true, not, ◌==◌, ◌&&◌, ◌||◌,
  List, [], ◌∷◌, get_or, if◌then◌else◌, leb, Bool-cases, inl, inr, arith,
}
use tryxctl.Kanali.Overlay.Clock.{Civil, year_of_era, day_of_year, date_in, date_of_year, civil_of}

-- The days of a year that begins in March, before each of its months.
abbrev days_before : List ℕ
days_before = 0 ∷ 31 ∷ 61 ∷ 92 ∷ 122 ∷ 153 ∷ 184 ∷ 214 ∷ 245 ∷ 275 ∷ 306 ∷ 337 ∷ []

abbrev month_lengths : List ℕ
month_lengths = 31 ∷ 30 ∷ 31 ∷ 30 ∷ 31 ∷ 31 ∷ 30 ∷ 31 ∷ 30 ∷ 31 ∷ 31 ∷ 29 ∷ []

-- The years that end before a date's March, and its month from March on.
abbrev march_year : Civil → ℕ
march_year c = if leb c.month 2 then c.year - 1 else c.year

abbrev march_month : Civil → ℕ
march_month c = (c.month + 9) % 12

-- The leap years of the Gregorian calendar.
pub is_leap : ℕ → Bool
is_leap y = y % 4 == 0 && (not (y % 100 == 0) || y % 400 == 0)

-- A date of the Gregorian calendar that is so many days after the first of March of the year 0. A
-- leap day ends a year that begins in March, and is the 29th of February of a leap year.
pub record IsDateOf (z : ℕ) (c : Civil) : Type 0 where
  pub month_low : 1 ≤ c.month
  pub month_high : c.month ≤ 12
  pub day_low : 1 ≤ c.day
  pub day_high : c.day ≤ get_or month_lengths (march_month c) 0
  pub leap : c.month ≡ 2 → c.day ≡ 29 → is_leap c.year ≡ true
  pub counted :
      365 * march_year c
        + march_year c / 4
        - march_year c / 100
        + march_year c / 400
        + get_or days_before (march_month c) 0
        + c.day
      ≡ z + 1

year_of_era_low :
    (doe : ℕ)
    → doe < 146097
    → 365 * year_of_era doe + year_of_era doe / 4 - year_of_era doe / 100 ≤ doe
unfolding year_of_era
year_of_era_low doe h = omega arith

day_of_year_high : (doe : ℕ) → doe < 146097 → day_of_year doe ≤ 365
unfolding year_of_era day_of_year
day_of_year_high doe h = omega arith

year_of_era_high : (doe : ℕ) → doe < 146097 → year_of_era doe ≤ 399
unfolding year_of_era
year_of_era_high doe h = omega arith

-- The days of an era and those of its years.
era_days :
    (era yoe doy doe : ℕ)
    → yoe ≤ 399
    → 365 * yoe + yoe / 4 - yoe / 100 + doy ≡ doe
    → 365 * (yoe + era * 400)
        + (yoe + era * 400) / 4
        - (yoe + era * 400) / 100
        + (yoe + era * 400) / 400
        + doy
      ≡ era * 146097 + doe
era_days era yoe doy doe h e = omega arith

-- Of a year that begins in March `mp` months are over: the day after `doy` days and the date.
MonthHolds : ℕ → ℕ → ℕ → Type 0
MonthHolds y doy mp =
    (get_or days_before mp 0 ≡ (153 * mp + 2) / 5)
    × ((153 * mp + 2) / 5 ≤ doy)
    × (doy - (153 * mp + 2) / 5 < get_or month_lengths mp 0)
    × ((d : ℕ)
        → (march_year (date_in y mp d) ≡ y)
          × (march_month (date_in y mp d) ≡ mp)
          × (1 ≤ (date_in y mp d).month)
          × ((date_in y mp d).month ≤ 12)
          × ((date_in y mp d).month ≡ 2 → (mp ≡ 11) × ((date_in y mp d).year ≡ y + 1)))

february :
    (y mp d : ℕ)
    → mp ≤ 11
    → (date_in y mp d).month ≡ 2
    → (mp ≡ 11) × ((date_in y mp d).year ≡ y + 1)
unfolding date_in
february y mp d h e = (ground (arith, h, e), ground (arith, h, e))

month_holds : (y doy mp : ℕ) → doy ≤ 365 → mp ≡ (5 * doy + 2) / 153 → MonthHolds y doy mp
unfolding MonthHolds date_in
month_holds y doy zero h e = (
  refl,
  omega arith,
  omega arith,
  λ d. (omega arith, refl, omega arith, omega arith, february y _ d (omega arith)),
)
month_holds y doy (suc zero) h e = (
  refl,
  omega arith,
  omega arith,
  λ d. (omega arith, refl, omega arith, omega arith, february y _ d (omega arith)),
)
month_holds y doy (suc (suc zero)) h e = (
  refl,
  omega arith,
  omega arith,
  λ d. (omega arith, refl, omega arith, omega arith, february y _ d (omega arith)),
)
month_holds y doy (suc (suc (suc zero))) h e = (
  refl,
  omega arith,
  omega arith,
  λ d. (omega arith, refl, omega arith, omega arith, february y _ d (omega arith)),
)
month_holds y doy (suc (suc (suc (suc zero)))) h e = (
  refl,
  omega arith,
  omega arith,
  λ d. (omega arith, refl, omega arith, omega arith, february y _ d (omega arith)),
)
month_holds y doy (suc (suc (suc (suc (suc zero))))) h e = (
  refl,
  omega arith,
  omega arith,
  λ d. (omega arith, refl, omega arith, omega arith, february y _ d (omega arith)),
)
month_holds y doy (suc (suc (suc (suc (suc (suc zero)))))) h e = (
  refl,
  omega arith,
  omega arith,
  λ d. (omega arith, refl, omega arith, omega arith, february y _ d (omega arith)),
)
month_holds y doy (suc (suc (suc (suc (suc (suc (suc zero))))))) h e = (
  refl,
  omega arith,
  omega arith,
  λ d. (omega arith, refl, omega arith, omega arith, february y _ d (omega arith)),
)
month_holds y doy (suc (suc (suc (suc (suc (suc (suc (suc zero)))))))) h e = (
  refl,
  omega arith,
  omega arith,
  λ d. (omega arith, refl, omega arith, omega arith, february y _ d (omega arith)),
)
month_holds y doy (suc (suc (suc (suc (suc (suc (suc (suc (suc zero))))))))) h e = (
  refl,
  omega arith,
  omega arith,
  λ d. (omega arith, refl, omega arith, omega arith, february y _ d (omega arith)),
)
month_holds y doy (suc (suc (suc (suc (suc (suc (suc (suc (suc (suc zero)))))))))) h e = (
  refl,
  omega arith,
  omega arith,
  λ d. (omega arith, refl, omega arith, omega arith, february y _ d (omega arith)),
)
month_holds y doy (suc (suc (suc (suc (suc (suc (suc (suc (suc (suc (suc zero))))))))))) h e = (
  refl,
  omega arith,
  omega arith,
  λ d. (omega arith, refl, omega arith, omega arith, february y _ d (omega arith)),
)
month_holds y doy (suc (suc (suc (suc (suc (suc (suc (suc (suc (suc (suc (suc n)))))))))))) h e =
    absurd (omega arith)

leap_day_last :
    (doy mp : ℕ)
    → doy ≤ 365
    → mp ≡ (5 * doy + 2) / 153
    → mp ≡ 11
    → doy - (153 * mp + 2) / 5 + 1 ≡ 29
    → doy ≡ 365
leap_day_last doy mp h e m d = omega (arith, h, e, m, d)

-- A date is that of its day when its year, its month and its day are.
IsDateOf-parts :
    (z y doy mp before : ℕ) (c : Civil)
    → march_year c ≡ y
    → march_month c ≡ mp
    → 1 ≤ c.month
    → c.month ≤ 12
    → get_or days_before mp 0 ≡ before
    → before ≤ doy
    → doy - before < get_or month_lengths mp 0
    → c.day ≡ doy - before + 1
    → 365 * y + y / 4 - y / 100 + y / 400 + doy ≡ z
    → (c.month ≡ 2 → c.day ≡ 29 → is_leap c.year ≡ true)
    → IsDateOf z c
IsDateOf-parts z y doy mp before c fy fm lo hi b l t d e leap_day = record {
  month_low = lo;
  month_high = hi;
  day_low = rw d (omega arith);
  day_high = rw (d, fm) (omega arith);
  leap = leap_day;
  counted = rw (fy, fm, b, d) (omega arith);
}

date_of_year-IsDateOf :
    (z y doy : ℕ)
    → doy ≤ 365
    → 365 * y + y / 4 - y / 100 + y / 400 + doy ≡ z
    → (doy ≡ 365 → is_leap (y + 1) ≡ true)
    → IsDateOf z (date_of_year y doy)
unfolding date_of_year date_in MonthHolds
date_of_year-IsDateOf z y doy h e last =
    let mp = (5 * doy + 2) / 153 in
    let d = doy - (153 * mp + 2) / 5 + 1 in
    let (b, l, t, f) = month_holds y doy mp h refl in
    let (fy, fm, lo, hi, feb) = f d in
    IsDateOf-parts z y doy mp ((153 * mp + 2) / 5) (date_in y mp d) fy fm lo hi b l t refl e
      (λ two day. rw (feb two).1 (last (leap_day_last doy mp h refl (feb two).0 day)))

day_of_year_eq :
    (doe : ℕ)
    → day_of_year doe ≡ doe - (365 * year_of_era doe + year_of_era doe / 4 - year_of_era doe / 100)
unfolding day_of_year
day_of_year_eq doe = refl

years_and_days :
    (doe : ℕ)
    → doe < 146097
    → 365 * year_of_era doe + year_of_era doe / 4 - year_of_era doe / 100 + day_of_year doe ≡ doe
years_and_days doe h = ground (arith, day_of_year_eq doe, year_of_era_low doe h)

-- A year of an era has a day 365 only if the year that it ends in is leap.
long_year_quarter : (doe : ℕ) → doe < 146097 → day_of_year doe ≡ 365 → (year_of_era doe + 1) % 4 ≡ 0
unfolding year_of_era day_of_year
long_year_quarter doe h e = omega arith

long_year_century :
    (doe : ℕ)
    → doe < 146097
    → day_of_year doe ≡ 365
    → (year_of_era doe + 1) % 100 ≡ 0
    → year_of_era doe ≡ 399
unfolding year_of_era day_of_year
long_year_century doe h e c = omega arith

is_leap_intro :
    (yoe era : ℕ)
    → (yoe + 1) % 4 ≡ 0
    → ((yoe + 1) % 100 ≡ 0 → yoe ≡ 399)
    → is_leap (yoe + era * 400 + 1) ≡ true
unfolding is_leap
is_leap_intro yoe era quarter century = elim (Bool-cases ((yoe + 1) % 100 == 0)) [
  | inl even ↦ ground (arith, quarter, century (ground (arith, even)))
  | inr odd ↦ ground (arith, quarter, odd)
]

-- `civil_of` gives the date of its day, counted from the first of March of the year 0.
pub civil_of-IsDateOf : (z : ℕ) → IsDateOf z (civil_of z)
unfolding civil_of
civil_of-IsDateOf z =
    let doe = z % 146097 in
    let low : doe < 146097 = omega arith in
    date_of_year-IsDateOf z (year_of_era doe + z / 146097 * 400) (day_of_year doe)
      (day_of_year_high doe low)
      (ground (
        arith,
        era_days (z / 146097) (year_of_era doe) (day_of_year doe) doe (year_of_era_high doe low)
            (years_and_days doe low),
      ))
      (λ full.
        is_leap_intro (year_of_era doe) (z / 146097) (long_year_quarter doe low full)
          (long_year_century doe low full))
