-- ===== src/TennisAbstract/Rows/Agree.antt =====
-- tennis/tennisabstract/matches_csv.go and matches_odds_csv.go: how the two parsers of a row agree,
-- and what a load counts.
use calculated_tennis.Base.{
  ◌≡◌, refl, sym, ap, ◌∙◌, false, Option, none, some, ok, err, Result, List, [], ◌∷◌, Text, ℤ, atoi,
  arith, Float64,
}
use calculated_tennis.Base.Options.{◌>>=◌}
use calculated_tennis.Base.Results
use calculated_tennis.TennisAbstract.Surfaces.{Process}
use calculated_tennis.TennisAbstract.Names.{Unicode}
use calculated_tennis.TennisAbstract.Rates.{MatchWithOdds}
use calculated_tennis.TennisAbstract.Columns.{
  score_is_incomplete, field_at, checked, CalibrationColumns, calibration_columns,
  calibration_column_indices, MatchWithOddsColumns, match_with_odds_columns, odds_checked,
  match_with_odds_column_indices, or_zero, parse_optional_float,
}
use calculated_tennis.TennisAbstract.Rows.{
  CalibrationMatch, SkipReason, valid_row, or_invalid, parse_calibration_row,
  parse_match_with_odds_row,
}

checked-ok {ℓ} :
    {A : Type ℓ} (idx used : A) (names : List Text) → checked idx names ≡ ok used → idx ≡ used
checked-ok idx used [] h = ground arith
checked-ok idx used (name ∷ names) h = absurd (ground arith)

-- Both readings of the date are of one column.
same_date :
    (header : List Text) (idx : MatchWithOddsColumns)
    → match_with_odds_column_indices header ≡ ok idx
    → idx.tourney_date ≡ idx.base.tourney_date
unfolding match_with_odds_column_indices calibration_column_indices calibration_columns
    match_with_odds_columns
same_date header idx h =
    let (base, e, last) =
      Results.>>=-eq-ok (calibration_column_indices header)
        (λ b. odds_checked (match_with_odds_columns b header)) h in
    let first : calibration_columns header ≡ base =
      checked-ok (calibration_columns header) base _ e in
    let second : match_with_odds_columns base header ≡ idx =
      checked-ok (match_with_odds_columns base header) idx _ last in
    sym (ap (λ (i : MatchWithOddsColumns). i.tourney_date) second)
    ∙ ap (λ (c : CalibrationColumns). c.tourney_date) first
    ∙ ap (λ (i : MatchWithOddsColumns). i.base.tourney_date) second

module _ (U : Unicode) where
  -- The match that a row stands for, where it does.
  abbrev pub accepted : Result SkipReason CalibrationMatch → Option CalibrationMatch
  accepted (err reason) = none
  accepted (ok m) = some m

  accepted-or_invalid : (o : Option CalibrationMatch) → accepted (or_invalid U o) ≡ o
  accepted-or_invalid none = refl
  accepted-or_invalid (some m) = refl

  complete_row :
      (row : List Text) (idx : CalibrationColumns)
      → score_is_incomplete (field_at row idx.score) ≡ false
      → accepted (parse_calibration_row U row idx) ≡ valid_row U row idx
  unfolding parse_calibration_row
  complete_row row idx h = ap accepted (rw h refl) ∙ accepted-or_invalid (valid_row U row idx)

  module _ (R : Float64) (P : Process R) where
    -- The match with what the other columns of the row say.
    abbrev pub with_odds : List Text → MatchWithOddsColumns → CalibrationMatch → ℤ → MatchWithOdds R
    with_odds row idx m num = record {
      tourney_id = field_at row idx.tourney_id;
      surface = m.surface;
      player_a = m.player_a;
      player_b = m.player_b;
      player_a_slug = m.player_a_slug;
      player_b_slug = m.player_b_slug;
      match_format = m.match_format;
      score = m.score;
      tourney_date = m.tourney_date;
      match_num = num;
      avg_w = or_zero R P (parse_optional_float R P (field_at row idx.avg_w));
      avg_l = or_zero R P (parse_optional_float R P (field_at row idx.avg_l));
    }

    valid_row-with_odds :
        (row : List Text) (idx : MatchWithOddsColumns)
        → idx.tourney_date ≡ idx.base.tourney_date
        → parse_match_with_odds_row U R P row idx ≡ (
            valid_row U row idx.base >>= λ m.
            atoi (field_at row idx.match_num) >>= λ num. some (with_odds row idx m num))
    unfolding parse_match_with_odds_row valid_row
    valid_row-with_odds row idx date = rw date (ground arith)

    -- If the columns of a table of matches with odds are found, then on a row with a complete score
    -- parseMatchWithOddsRow gives a match exactly if parseCalibrationRow accepts the row and the
    -- number of the match is a number; the match is then that of parseCalibrationRow with the
    -- number, the tourney and the odds of the row.
    pub parse_match_with_odds_row-calibration :
        (header row : List Text) (idx : MatchWithOddsColumns)
        → match_with_odds_column_indices header ≡ ok idx
        → score_is_incomplete (field_at row idx.base.score) ≡ false
        → parse_match_with_odds_row U R P row idx ≡ (
            accepted (parse_calibration_row U row idx.base) >>= λ m.
            atoi (field_at row idx.match_num) >>= λ num. some (with_odds row idx m num))
    parse_match_with_odds_row-calibration header row idx found complete =
        valid_row-with_odds row idx (same_date header idx found)
        ∙ rw (complete_row row idx.base complete) refl
