-- ===== src/TennisAbstract/Dates.antt =====
-- The uses of Go's `time` in tennis/tennisabstract, and the tourney dates of backtest_form.go. An
-- instant is its UTC reading: the day, counted from 1 March of the year 0 in the proleptic Gregorian
-- calendar, and the clock within the day.
use calculated_tennis.Base.{
  ℕ, ◌+◌, ◌-◌, ◌*◌, ◌/◌, ◌%◌, Bool, ◌&&◌, ◌||◌, Option, none, some, [], ◌∷◌, ◌++◌, ltb, leb, ◌==◌,
  if◌then◌else◌, Text, padded, length, ℤ, pos, negsuc, atoi,
}
use calculated_tennis.Base.Texts.{trim_space, between}

pub record Time : Type 0 where
  pub day : ℕ
  pub clock : ℕ

-- The day of a month from 1 to 12 of a year that begins in March.
abbrev pub march_day : ℕ → ℕ → ℕ → ℕ
march_day y m d =
    let y' = if leb m 2 then y - 1 else y in
    let mp = (m + 9) % 12 in 365 * y' + y' / 4 - y' / 100 + y' / 400 + (153 * mp + 2) / 5 + d - 1

-- `time.Date(y, m, d, 0, 0, 0, 0, time.UTC)` from the year 1 on: a month or a day out of range is
-- carried over.
unfoldable pub date : ℕ → ℕ → ℕ → Time
date y m d =
    let months = y * 12 + m - 1 in
    record { day = march_day (months / 12) (months % 12 + 1) d; clock = 0 }

-- The year of the era of 400 years, and the day of that year.
abbrev pub year_of_era : ℕ → ℕ
year_of_era e = (e - e / 1460 + e / 36524 - e / 146096) / 365

abbrev pub day_of_year : ℕ → ℕ
day_of_year e = let y = year_of_era e in e - (365 * y + y / 4 - y / 100)

-- The place of the month after March.
abbrev pub month_place : Time → ℕ
month_place t = (5 * day_of_year (t.day % 146097) + 2) / 153

unfoldable pub month : Time → ℕ
month t = let mp = month_place t in if ltb mp 10 then mp + 3 else mp - 9

unfoldable pub year : Time → ℕ
unfolding month
year t =
    let y = year_of_era (t.day % 146097) + t.day / 146097 * 400 in
    if leb (month t) 2 then y + 1 else y

unfoldable pub day_of_month : Time → ℕ
day_of_month t = day_of_year (t.day % 146097) - (153 * month_place t + 2) / 5 + 1

abbrev pub before : Time → Time → Bool
before s t = ltb s.day t.day || s.day == t.day && ltb s.clock t.clock

-- `s.After(t)`.
abbrev pub after : Time → Time → Bool
after s t = before t s

-- The zero time is 1 January of the year 1.
unfoldable pub is_zero : Time → Bool
is_zero t = t.day == 306 && t.clock == 0

abbrev pub utc_date_only : Time → Time
utc_date_only t = record { day = t.day; clock = 0 }

-- `t.Format("2006-01-02")`.
unfoldable pub iso_date : Time → Text
unfolding year month day_of_month
iso_date t = padded 4 (year t) ++ b'-' ∷ padded 2 (month t) ++ b'-' ∷ padded 2 (day_of_month t)

abbrev pub all_digits : Text → Bool
all_digits [] = Bool.true
all_digits (c ∷ cs) = between b'0' b'9' c && all_digits cs

abbrev pub natural : Option ℤ → Option ℕ
natural none = none
natural (some (pos n)) = some n
natural (some (negsuc n)) = none

unfoldable pub parse_tourney_date : Text → Option ℕ
parse_tourney_date raw =
    let s = trim_space raw in if length s == 8 && all_digits s then natural (atoi s) else none

unfoldable pub tourney_date_as_time : ℕ → Option Time
unfolding parse_tourney_date
tourney_date_as_time n = elim (ltb n 10101) [
  | Bool.true ↦ none
  | Bool.false ↦ elim (parse_tourney_date (padded 8 n)) [
    | none ↦ none
    | some _ ↦ some (date (n / 10000) (n / 100 % 100) (n % 100))
  ]
]
