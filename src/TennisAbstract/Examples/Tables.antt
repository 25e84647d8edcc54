-- ===== src/TennisAbstract/Examples/Tables.antt =====
-- The theorems on the tables of tennis/tennisabstract at concrete inputs: a final with two rows of
-- odds, and letters of ASCII only.
use calculated_tennis.Base.{
  ℕ, ◌-◌, ◌≡◌, refl, false, ◌||◌, none, some, ok, List, [], ◌∷◌, if◌then◌else◌, Text, text_test,
  codes, pos,
}
use calculated_tennis.Base.Options.{◌>>=◌}
use calculated_tennis.Base.Texts.{trim_space, trim_left, is_space, between, lower}
use calculated_tennis.Base.Numerals.{atoi}
use calculated_tennis.TennisAbstract.Dates.{date}
use calculated_tennis.Tennis.State.{default_format}
use calculated_tennis.TennisAbstract.Surfaces.{Process, hard}
use calculated_tennis.TennisAbstract.Rates.{Client}
use calculated_tennis.TennisAbstract.Preload.{
  recent_limit_or_default, preload_calibration_match_recent,
}
use calculated_tennis.TennisAbstract.Preload.Direct.{
  direct, preload_calibration_match_recent-direct,
}
use calculated_tennis.TennisAbstract.Examples.{cents}
use calculated_tennis.TennisAbstract.Names.{
  Unicode, fields, fields_from, player_slug, player_key_from_sackmann_name,
  player_key_from_odds_name,
}
use calculated_tennis.Base.Sorting.{sort_stable}
use calculated_tennis.TennisAbstract.PlayerNames.{
  unique_player_names, match_name_column_indices, see_rows, see,
}
use calculated_tennis.TennisAbstract.Columns.{
  score_is_incomplete, column, field_at, calibration_columns, calibration_column_indices,
  MatchWithOddsColumns, match_with_odds_columns, match_with_odds_column_indices, odds_columns,
  column_or_first, odds_column_indices,
}
use calculated_tennis.TennisAbstract.Rows.{
  CalibrationMatch, parse_calibration_row, parse_match_with_odds_row,
}
use calculated_tennis.TennisAbstract.Rows.Agree.{
  accepted, with_odds, parse_match_with_odds_row-calibration,
}
use calculated_tennis.TennisAbstract.Odds.{
  parse_slash_date, date_of, days_apart, MatchOddsJoin, OddsRow, find_best_odds_match,
  build_odds_index, best_of, key_of_odds, key_of_match,
}

abbrev ascii : Unicode
ascii = record {
  is_letter = λ c. between b'A' b'Z' c || between b'a' b'z' c;
  upper = λ c. if between b'a' b'z' c then c - 32 else c;
  lower = lower;
}

abbrev priced : Process cents
priced = record { getenv = λ _. []; parse_float = λ _. some 140 }

slug_run :
    (player_slug ascii (codes " Alex de Minaur ") ≡ codes "AlexDeMinaur")
    × (player_slug ascii (codes "DaniilMedvedev") ≡ codes "DaniilMedvedev")
unfolding player_slug fields fields_from trim_space trim_left is_space
slug_run = (refl, refl)

key_run :
    player_key_from_sackmann_name ascii (codes "Alex de Minaur")
    ≡ player_key_from_odds_name ascii (codes "De Minaur A.")
unfolding player_key_from_sackmann_name player_key_from_odds_name fields fields_from trim_space
    trim_left is_space
key_run = refl

slash_run :
    (parse_slash_date (codes "1/26/2025") ≡ some (date 2025 1 26))
    × (parse_slash_date (codes "02/29/2025") ≡ none)
    × (date_of (pos 2025) (pos 1) (pos 26) ≡ date 2025 1 26)
unfolding parse_slash_date date date_of
slash_run = (refl, refl, refl)

-- Without any of the columns, all of them are the first.
missing_run : odds_column_indices (codes "Other" ∷ []) ≡ ok (odds_columns [])
unfolding odds_column_indices odds_columns column_or_first column trim_space trim_left is_space
missing_run = refl

abbrev header : List Text
header =
    codes "tourney_id"
    ∷ codes "surface"
    ∷ codes "tourney_date"
    ∷ codes "match_num"
    ∷ codes "winner_name"
    ∷ codes "loser_name"
    ∷ codes "score"
    ∷ codes "best_of"
    ∷ codes "AvgW"
    ∷ codes "AvgL"
    ∷ []

abbrev final_row : List Text
final_row =
    codes "2025-580"
    ∷ codes "Hard"
    ∷ codes "20250112"
    ∷ codes "300"
    ∷ codes "Jannik Sinner"
    ∷ codes "Alexander Zverev"
    ∷ codes "6-3 7-6(4) 6-3"
    ∷ codes "5"
    ∷ codes "1.40"
    ∷ codes "3.00"
    ∷ []

names_run :
    unique_player_names (some header ∷ some final_row ∷ some final_row ∷ [])
    ≡ some (codes "Alexander Zverev" ∷ codes "Jannik Sinner" ∷ [])
unfolding unique_player_names match_name_column_indices see_rows see field_at trim_space trim_left
    is_space sort_stable
names_run = refl

abbrev columns : MatchWithOddsColumns
columns = record {
  base = record {
    winner_name = some 4;
    loser_name = some 5;
    surface = some 1;
    score = some 6;
    best_of = some 7;
    tourney_date = some 2;
  };
  tourney_id = some 0;
  tourney_date = some 2;
  match_num = some 3;
  avg_w = some 8;
  avg_l = some 9;
}

columns_found : match_with_odds_column_indices header ≡ ok columns
unfolding match_with_odds_column_indices calibration_column_indices calibration_columns
    match_with_odds_columns column trim_space trim_left is_space
columns_found = refl

is_complete : score_is_incomplete (field_at final_row columns.base.score) ≡ false
unfolding field_at trim_space trim_left is_space
is_complete = refl

parse_match_with_odds_row-calibration_example :
    parse_match_with_odds_row ascii cents priced final_row columns ≡ (
      accepted ascii (parse_calibration_row ascii final_row columns.base) >>= λ m.
      atoi (field_at final_row (some 3)) >>= λ num.
      some (with_odds ascii cents priced final_row columns m num))
parse_match_with_odds_row-calibration_example =
    parse_match_with_odds_row-calibration ascii cents priced header final_row columns columns_found
      is_complete

abbrev final : MatchOddsJoin
final = record {
  tourney_date = record { day = 739600; clock = 0 };
  winner = codes "Jannik Sinner";
  loser = codes "Alexander Zverev";
  surface = codes "Hard";
}

abbrev odds_on : ℕ → OddsRow cents
odds_on day = record {
  date = record { day = day; clock = 0 };
  surface = codes "Hard";
  winner = codes "Sinner J.";
  loser = codes "Zverev A.";
  comment = codes "Completed";
  avg_w = some 140;
  avg_l = some 300;
}

closest_run :
    find_best_odds_match cents ascii
      (build_odds_index cents ascii (odds_on 739400 ∷ odds_on 739614 ∷ []))
      final
    ≡ some (odds_on 739614)
unfolding find_best_odds_match build_odds_index best_of days_apart key_of_odds key_of_match
    player_key_from_sackmann_name player_key_from_odds_name fields fields_from trim_space trim_left
    is_space
closest_run = refl

-- A client that knows one of the players.
abbrev knows : Client cents
knows name t limit =
    if text_test name (codes "Sinner")
    then some (record { date = t; dominance_ratio = some 120 } ∷ [])
    else none

abbrev met : Text → CalibrationMatch
met rival = record {
  surface = hard;
  player_a = codes "Sinner";
  player_b = rival;
  player_a_slug = codes "Sinner";
  player_b_slug = rival;
  match_format = default_format;
  score = [];
  best_of = pos 3;
  tourney_date = 20250112;
}

preload_calibration_match_recent-direct_example :
    preload_calibration_match_recent cents priced
      (some knows)
      (met (codes "Zverev") ∷ met (codes "Sinner") ∷ [])
      (pos 5)
    ≡ direct cents knows (recent_limit_or_default cents priced (pos 5)) (met (codes "Zverev"))
      ∷ direct cents knows (recent_limit_or_default cents priced (pos 5)) (met (codes "Sinner"))
      ∷ []
preload_calibration_match_recent-direct_example =
    preload_calibration_match_recent-direct cents priced knows (λ slug. slug)
      (met (codes "Zverev") ∷ met (codes "Sinner") ∷ []) (pos 5) ((refl, refl), ((refl, refl), tt))
