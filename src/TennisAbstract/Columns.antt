-- ===== src/TennisAbstract/Columns.antt =====
-- The columns of the CSV files of tennis/tennisabstract: matches_csv.go, matches_odds_csv.go and
-- odds_join.go. A table is the header and the rows that `encoding/csv` reads; `none` is a read that
-- fails.
use calculated_tennis.Base.{
  ℕ, zero, suc, Bool, ◌||◌, Option, none, some, ok, err, Result, ◌>>=◌, List, [], ◌∷◌,
  if◌then◌else◌, Text, codes, contains, text_test, is_empty, Float64,
}
use calculated_tennis.Base.Texts.{trim_space}
use calculated_tennis.TennisAbstract.Surfaces.{Process, or_fallback}

abbrev pub score_is_incomplete : Text → Bool
score_is_incomplete score =
    contains score (codes "RET") || contains score (codes "W/O") || contains score (codes "DEF")

-- The first column of a name.
abbrev pub column_from : ℕ → List Text → Text → Option ℕ
column_from i [] name = none
column_from i (c ∷ cs) name =
    let rest = column_from (suc i) cs name in if text_test (trim_space c) name then some i else rest

-- `none` is the index -1.
unfoldable pub column : List Text → Text → Option ℕ
column header name = column_from 0 header name

abbrev pub nth : List Text → ℕ → Text
nth [] i = []
nth (c ∷ cs) zero = c
nth (c ∷ cs) (suc i) = nth cs i

unfoldable pub field_at : List Text → Option ℕ → Text
field_at row none = []
field_at row (some i) = trim_space (nth row i)

-- The names of the columns that have no index.
abbrev pub missing : List (Text × Option ℕ) → List Text
missing [] = []
missing ((name, none) ∷ rest) = name ∷ missing rest
missing ((name, some i) ∷ rest) = missing rest

-- The columns, or the error with the missing ones.
abbrev pub checked {ℓ} : {A : Type ℓ} → A → List Text → Result (List Text) A
checked idx [] = ok idx
checked idx (name ∷ names) = err (name ∷ names)

pub record CalibrationColumns : Type 0 where
  pub winner_name : Option ℕ
  pub loser_name : Option ℕ
  pub surface : Option ℕ
  pub score : Option ℕ
  pub best_of : Option ℕ
  pub tourney_date : Option ℕ

unfoldable pub calibration_columns : List Text → CalibrationColumns
unfolding column
calibration_columns header = record {
  winner_name = column header (codes "winner_name");
  loser_name = column header (codes "loser_name");
  surface = column header (codes "surface");
  score = column header (codes "score");
  best_of = column header (codes "best_of");
  tourney_date = column header (codes "tourney_date");
}

unfoldable pub calibration_column_indices : List Text → Result (List Text) CalibrationColumns
unfolding calibration_columns
calibration_column_indices header =
    let idx = calibration_columns header in
    checked idx (
      missing (
        (codes "winner_name", idx.winner_name)
        ∷ (codes "loser_name", idx.loser_name)
        ∷ (codes "surface", idx.surface)
        ∷ (codes "score", idx.score)
        ∷ (codes "best_of", idx.best_of)
        ∷ (codes "tourney_date", idx.tourney_date)
        ∷ []))

pub record MatchWithOddsColumns : Type 0 where
  pub base : CalibrationColumns
  pub tourney_id : Option ℕ
  pub tourney_date : Option ℕ
  pub match_num : Option ℕ
  pub avg_w : Option ℕ
  pub avg_l : Option ℕ

unfoldable pub match_with_odds_columns : CalibrationColumns → List Text → MatchWithOddsColumns
unfolding column
match_with_odds_columns base header = record {
  base = base;
  tourney_id = column header (codes "tourney_id");
  tourney_date = column header (codes "tourney_date");
  match_num = column header (codes "match_num");
  avg_w = column header (codes "AvgW");
  avg_l = column header (codes "AvgL");
}

abbrev pub odds_checked : MatchWithOddsColumns → Result (List Text) MatchWithOddsColumns
odds_checked idx = checked idx (
    missing (
      (codes "tourney_id", idx.tourney_id)
      ∷ (codes "tourney_date", idx.tourney_date)
      ∷ (codes "match_num", idx.match_num)
      ∷ (codes "AvgW", idx.avg_w)
      ∷ (codes "AvgL", idx.avg_l)
      ∷ []))

unfoldable pub match_with_odds_column_indices : List Text → Result (List Text) MatchWithOddsColumns
unfolding calibration_column_indices match_with_odds_columns
match_with_odds_column_indices header =
    calibration_column_indices header >>= λ base. odds_checked (match_with_odds_columns base header)

pub record OddsColumns : Type 0 where
  pub date : Option ℕ
  pub surface : Option ℕ
  pub winner : Option ℕ
  pub loser : Option ℕ
  pub comment : Option ℕ
  pub avg_w : Option ℕ
  pub avg_l : Option ℕ

-- The indices start as 0 here, so a column that is not found is the first.
unfoldable pub column_or_first : List Text → Text → Option ℕ
unfolding column
column_or_first header name = some (or_fallback (column header name) 0)

unfoldable pub odds_columns : List Text → OddsColumns
unfolding column_or_first
odds_columns header = record {
  date = column_or_first header (codes "Date");
  surface = column_or_first header (codes "Surface");
  winner = column_or_first header (codes "Winner");
  loser = column_or_first header (codes "Loser");
  comment = column_or_first header (codes "Comment");
  avg_w = column_or_first header (codes "AvgW");
  avg_l = column_or_first header (codes "AvgL");
}

unfoldable pub odds_column_indices : List Text → Result (List Text) OddsColumns
unfolding odds_columns
odds_column_indices header =
    let idx = odds_columns header in
    checked idx (
      missing (
        (codes "Date", idx.date)
        ∷ (codes "Surface", idx.surface)
        ∷ (codes "Winner", idx.winner)
        ∷ (codes "Loser", idx.loser)
        ∷ (codes "AvgW", idx.avg_w)
        ∷ (codes "AvgL", idx.avg_l)
        ∷ []))

module _ (R : Float64) (P : Process R) where
  abbrev pub or_zero : Option R.F → R.F
  or_zero none = R.zero
  or_zero (some x) = x

  abbrev pub is_dash : Text → Bool
  is_dash s = is_empty s || text_test s (codes "-")

  -- `parseFloat`: what is not a number is 0.
  unfoldable pub parse_stat : Text → R.F
  parse_stat raw = let s = trim_space raw in if is_dash s then R.zero else or_zero (P.parse_float s)

  unfoldable pub parse_optional_float : Text → Option R.F
  unfolding parse_stat
  parse_optional_float raw =
      let s = trim_space raw in if is_dash s then none else some (parse_stat s)
