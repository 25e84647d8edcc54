-- ===== src/TennisAbstract/Rows.antt =====
-- tennis/tennisabstract/matches_csv.go and matches_odds_csv.go: the matches of a table.
pub mod Agree
use calculated_tennis.Base.{
  ℕ, suc, Bool, true, false, ◌||◌, Option, none, some, ok, err, Result, List, [], ◌∷◌, ◌++◌,
  if◌then◌else◌, Text, is_empty, ℤ, pos, eqℤ, atoi, Float64,
}
use calculated_tennis.Base.Options.{◌>>=◌}
use calculated_tennis.Tennis.State.{MatchFormat, default_format, grand_slam_men_format}
use calculated_tennis.TennisAbstract.Dates.{parse_tourney_date}
use calculated_tennis.TennisAbstract.Surfaces.{
  MatchSurface, hard, clay, grass, unknown, normalize_match_surface, Process,
}
use calculated_tennis.TennisAbstract.Names.{Unicode, player_slug}
use calculated_tennis.TennisAbstract.Rates.{MatchWithOdds}
use calculated_tennis.TennisAbstract.Columns.{
  score_is_incomplete, field_at, CalibrationColumns, calibration_column_indices,
  MatchWithOddsColumns, match_with_odds_column_indices, or_zero, parse_optional_float,
}

pub record CalibrationMatch : Type 0 where
  pub surface : MatchSurface
  pub player_a : Text
  pub player_b : Text
  pub player_a_slug : Text
  pub player_b_slug : Text
  pub match_format : MatchFormat
  pub score : Text
  pub best_of : ℤ
  pub tourney_date : ℕ

pub data SkipReason : Type 0 where
  skip_incomplete skip_invalid : SkipReason

unfoldable pub match_format_for_best_of : ℤ → Option MatchFormat
unfolding default_format grand_slam_men_format
match_format_for_best_of best_of =
    if eqℤ best_of (pos 3)
    then some default_format
    else if eqℤ best_of (pos 5)
    then some grand_slam_men_format
    else none

-- The next step, unless the test holds.
abbrev pub unless {ℓ} : {A : Type ℓ} → Bool → Option A → Option A
unless true next = none
unless false next = next

module _ (U : Unicode) where
  -- A row whose score is complete; `none` is invalid.
  unfoldable pub valid_row : List Text → CalibrationColumns → Option CalibrationMatch
  unfolding normalize_match_surface match_format_for_best_of parse_tourney_date player_slug field_at
  valid_row row idx =
      let player_a = field_at row idx.winner_name in
      let player_b = field_at row idx.loser_name in
      let slug_a = player_slug U player_a in
      let slug_b = player_slug U player_b in
      normalize_match_surface (field_at row idx.surface) >>= λ surface.
      atoi (field_at row idx.best_of) >>= λ best_of. match_format_for_best_of best_of >>= λ format.
      unless (is_empty player_a || is_empty player_b) (
        unless (is_empty slug_a || is_empty slug_b) (
          parse_tourney_date (field_at row idx.tourney_date) >>= λ date. some (record {
            surface = surface;
            player_a = player_a;
            player_b = player_b;
            player_a_slug = slug_a;
            player_b_slug = slug_b;
            match_format = format;
            score = field_at row idx.score;
            best_of = best_of;
            tourney_date = date;
          })))

  abbrev pub or_invalid : Option CalibrationMatch → Result SkipReason CalibrationMatch
  or_invalid none = err skip_invalid
  or_invalid (some m) = ok m

  unfoldable pub parse_calibration_row :
      List Text → CalibrationColumns → Result SkipReason CalibrationMatch
  unfolding valid_row field_at
  parse_calibration_row row idx =
      if score_is_incomplete (field_at row idx.score)
      then err skip_incomplete
      else or_invalid (valid_row row idx)

  pub record CalibrationMatchesLoad : Type 0 where
    pub on_hard : List CalibrationMatch
    pub on_clay : List CalibrationMatch
    pub on_grass : List CalibrationMatch
    pub elsewhere : List CalibrationMatch
    pub skipped_incomplete : ℕ
    pub skipped_invalid : ℕ

  abbrev pub nothing_loaded : CalibrationMatchesLoad
  nothing_loaded = record {
    on_hard = [];
    on_clay = [];
    on_grass = [];
    elsewhere = [];
    skipped_incomplete = 0;
    skipped_invalid = 0;
  }

  abbrev pub add_match :
      CalibrationMatchesLoad → MatchSurface → CalibrationMatch → CalibrationMatchesLoad
  add_match out hard m = record out { on_hard = out.on_hard ++ m ∷ [] }
  add_match out clay m = record out { on_clay = out.on_clay ++ m ∷ [] }
  add_match out grass m = record out { on_grass = out.on_grass ++ m ∷ [] }
  add_match out unknown m = record out { elsewhere = out.elsewhere ++ m ∷ [] }

  abbrev pub add_row :
      CalibrationMatchesLoad → Result SkipReason CalibrationMatch → CalibrationMatchesLoad
  add_row out (ok m) = add_match out m.surface m
  add_row out (err skip_incomplete) = record out { skipped_incomplete = suc out.skipped_incomplete }
  add_row out (err skip_invalid) = record out { skipped_invalid = suc out.skipped_invalid }

  -- The rows after the header; a read that fails ends the load.
  unfoldable pub load_rows :
      CalibrationColumns
      → List (Option (List Text))
      → CalibrationMatchesLoad
      → Option CalibrationMatchesLoad
  unfolding parse_calibration_row
  load_rows idx [] out = some out
  load_rows idx (none ∷ rows) out = none
  load_rows idx (some row ∷ rows) out =
      load_rows idx rows (add_row out (parse_calibration_row row idx))

  abbrev pub rows_with :
      Result (List Text) CalibrationColumns
      → List (Option (List Text))
      → Option CalibrationMatchesLoad
  rows_with (err names) rows = none
  rows_with (ok idx) rows = load_rows idx rows nothing_loaded

  -- `LoadCalibrationMatchesCSV`; `none` is an error.
  unfoldable pub load_calibration_matches :
      List (Option (List Text)) → Option CalibrationMatchesLoad
  unfolding load_rows calibration_column_indices
  load_calibration_matches [] = none
  load_calibration_matches (none ∷ rows) = none
  load_calibration_matches (some header ∷ rows) = rows_with (calibration_column_indices header) rows

  module _ (R : Float64) (P : Process R) where
    unfoldable pub parse_match_with_odds_row :
        List Text → MatchWithOddsColumns → Option (MatchWithOdds R)
    unfolding normalize_match_surface match_format_for_best_of parse_tourney_date player_slug
        field_at parse_optional_float
    parse_match_with_odds_row row idx =
        let player_a = field_at row idx.base.winner_name in
        let player_b = field_at row idx.base.loser_name in
        let slug_a = player_slug U player_a in
        let slug_b = player_slug U player_b in
        normalize_match_surface (field_at row idx.base.surface) >>= λ surface.
        atoi (field_at row idx.base.best_of) >>= λ best_of.
        match_format_for_best_of best_of >>= λ format.
        unless (is_empty player_a || is_empty player_b) (
          unless (is_empty slug_a || is_empty slug_b) (
            parse_tourney_date (field_at row idx.tourney_date) >>= λ date.
            atoi (field_at row idx.match_num) >>= λ num. some (record {
              tourney_id = field_at row idx.tourney_id;
              surface = surface;
              player_a = player_a;
              player_b = player_b;
              player_a_slug = slug_a;
              player_b_slug = slug_b;
              match_format = format;
              score = field_at row idx.base.score;
              tourney_date = date;
              match_num = num;
              avg_w = or_zero R P (parse_optional_float R P (field_at row idx.avg_w));
              avg_l = or_zero R P (parse_optional_float R P (field_at row idx.avg_l));
            })))

    abbrev pub kept : Option (MatchWithOdds R) → List (MatchWithOdds R) → List (MatchWithOdds R)
    kept none out = out
    kept (some m) out = out ++ m ∷ []

    unfoldable pub load_odds_rows :
        MatchWithOddsColumns
        → List (Option (List Text))
        → List (MatchWithOdds R)
        → Option (List (MatchWithOdds R))
    unfolding parse_match_with_odds_row
    load_odds_rows idx [] out = some out
    load_odds_rows idx (none ∷ rows) out = none
    load_odds_rows idx (some row ∷ rows) out =
        load_odds_rows idx rows (kept (parse_match_with_odds_row row idx) out)

    abbrev pub odds_rows_with :
        Result (List Text) MatchWithOddsColumns
        → List (Option (List Text))
        → Option (List (MatchWithOdds R))
    odds_rows_with (err names) rows = none
    odds_rows_with (ok idx) rows = load_odds_rows idx rows []

    -- `LoadMatchesWithOddsCSV`; `none` is an error.
    unfoldable pub load_matches_with_odds :
        List (Option (List Text)) → Option (List (MatchWithOdds R))
    unfolding load_odds_rows match_with_odds_column_indices
    load_matches_with_odds [] = none
    load_matches_with_odds (none ∷ rows) = none
    load_matches_with_odds (some header ∷ rows) =
        odds_rows_with (match_with_odds_column_indices header) rows
