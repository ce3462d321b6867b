-- ===== src/Kanali/Overlay/Clock.antt =====
-- The date and the time on the panel: `now_text` and `civil_from_days`. The local time is an
-- argument, in seconds since 1970; a year is counted from 0, so that no number is negative.
pub mod Calendar
use tryxctl.Prelude.{
  ℕ, ◌+◌, ◌-◌, ◌*◌, ◌/◌, ◌%◌, ◌≡◌, ◌≤◌, ◌<◌, refl, arith, Bytes, [], ◌∷◌, if◌then◌else◌, ltb, leb,
}
use tryxctl.Prelude.Text.{codes, format, to_decimal, to_two_digits}
use tryxctl.Kanali.Overlay.{Moment}

pub record Civil : Type 0 where
  pub year : ℕ
  pub month : ℕ
  pub day : ℕ

-- The year of its era, for a day of the era; a year begins in March.
pub year_of_era : ℕ → ℕ
year_of_era doe = (doe - doe / 1460 + doe / 36524 - doe / 146096) / 365

pub day_of_year : ℕ → ℕ
unfolding year_of_era
day_of_year doe = let yoe = year_of_era doe in doe - (365 * yoe + yoe / 4 - yoe / 100)

-- The date of a day of a month, of which `mp` are over since the March of the year `y`.
pub date_in : ℕ → ℕ → ℕ → Civil
date_in y mp d =
    let m = if ltb mp 10 then mp + 3 else mp - 9 in
    record { year = if leb m 2 then y + 1 else y; month = m; day = d }

pub date_of_year : ℕ → ℕ → Civil
unfolding date_in
date_of_year y doy = let mp = (5 * doy + 2) / 153 in date_in y mp (doy - (153 * mp + 2) / 5 + 1)

-- The date, for the days since the first of March of the year 0.
pub civil_of : ℕ → Civil
unfolding date_of_year date_in day_of_year year_of_era
civil_of z =
    let era = z / 146097 in
    let doe = z % 146097 in date_of_year (year_of_era doe + era * 400) (day_of_year doe)

pub civil_from_days : ℕ → Civil
civil_from_days days = civil_of (days + 719468)

pub now_text : ℕ → Moment
now_text secs =
    let date = civil_from_days (secs / 86400) in
    let rem = secs % 86400 in
    record {
      date = format (
          to_two_digits date.day
          ∷ codes "/"
          ∷ to_two_digits date.month
          ∷ codes "/"
          ∷ to_decimal date.year
          ∷ []);
      time = format (to_two_digits (rem / 3600) ∷ codes ":" ∷ to_two_digits (rem % 3600 / 60) ∷ []);
    }
