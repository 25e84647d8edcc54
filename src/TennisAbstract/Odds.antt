-- ===== src/TennisAbstract/Odds.antt =====
-- tennis/tennisabstract/odds_join.go: the odds of a match, joined from another data set by the
-- players, the surface and the date. Dates before the year 1 are not told apart.
pub mod Index
pub mod Closest
pub mod Nearest
use calculated_tennis.Base.{
  ℕ, suc, ◌+◌, ◌-◌, ◌*◌, ◌/◌, ◌%◌, Bool, true, false, not, ◌&&◌, ◌||◌, Option, none, some, ok, err,
  Result, List, [], ◌∷◌, ◌++◌, length, if◌then◌else◌, ltb, leb, ◌==◌, Text, codes, text_test,
  is_empty, ℤ, pos, negsuc, ltℤ, atoi, Float64,
}
use calculated_tennis.Base.Options.{◌>>=◌}
use calculated_tennis.Base.Sorting.{take, drop}
use calculated_tennis.Base.Texts.{trim_space, between}
use calculated_tennis.TennisAbstract.Dates.{Time, march_day, date}
use calculated_tennis.TennisAbstract.Surfaces.{Process}
use calculated_tennis.TennisAbstract.Names.{
  Unicode, PlayerMatchKey, key_test, player_key_from_sackmann_name, player_key_from_odds_name,
}
use calculated_tennis.TennisAbstract.Columns.{
  field_at, column, CalibrationColumns, calibration_column_indices, OddsColumns,
  odds_column_indices, parse_optional_float,
}

-- The days of a month of a year.
abbrev pub is_leap : ℕ → Bool
is_leap y = y % 4 == 0 && (not (y % 100 == 0) || y % 400 == 0)

abbrev pub days_in : ℕ → ℕ → ℕ
days_in m y =
    if m == 2
    then if is_leap y then 29 else 28
    else if m == 4 || m == 6 || m == 9 || m == 11
    then 30
    else 31

abbrev pub digit : ℕ → Option ℕ
digit c = if between b'0' b'9' c then some (c - b'0') else none

-- A number of one digit or two, and the text after it.
abbrev pub one_or_two : Text → Option (ℕ × Text)
one_or_two [] = none
one_or_two (c ∷ []) = digit c >>= λ n. some (n, [])
one_or_two (c ∷ d ∷ cs) =
    digit c >>= λ n. elim (digit d) [ none ↦ some (n, d ∷ cs) | some k ↦ some (n * 10 + k, cs) ]

abbrev pub after_slash : Text → Option Text
after_slash [] = none
after_slash (c ∷ cs) = if c == b'/' then some cs else none

abbrev pub four_digits : Text → Option ℕ
four_digits (c ∷ d ∷ e ∷ f ∷ []) = digit c >>= λ i.
    digit d >>= λ j. digit e >>= λ k. digit f >>= λ l. some (i * 1000 + j * 100 + k * 10 + l)
four_digits other = none

-- A day of the calendar.
abbrev pub calendar_day : ℕ → ℕ → ℕ → Option Time
calendar_day y m d =
    if leb 1 m && leb m 12 && leb 1 d && leb d (days_in m y) then some (date y m d) else none

-- `time.Parse("1/2/2006", s)`.
unfoldable pub parse_slash_date : Text → Option Time
unfolding date
parse_slash_date s = one_or_two s >>= λ m. after_slash m.1 >>= λ s1.
    one_or_two s1 >>= λ d. after_slash d.1 >>= λ s2. four_digits s2 >>= λ y. calendar_day y m.0 d.0

abbrev pub plus : ℕ → ℤ → ℕ
plus n (pos k) = n + k
plus n (negsuc k) = n - suc k

-- `time.Date(y, m, d, 0, 0, 0, 0, time.UTC)` with numbers of either sign.
unfoldable pub date_of : ℤ → ℤ → ℤ → Time
date_of y m d =
    let months = plus (plus 0 y * 12) m - 1 in
    record { day = plus (march_day (months / 12) (months % 12 + 1) 1) d - 1; clock = 0 }

-- The whole days between two days. A difference of time is bounded by that of 106751 days and a
-- part, in either direction; and the least one is its own negation.
unfoldable pub days_apart : Time → Time → ℤ
days_apart a b =
    if leb b.day a.day
    then pos (if leb (a.day - b.day) 106751 then a.day - b.day else 106751)
    else if leb (b.day - a.day) 106751
    then pos (b.day - a.day)
    else negsuc 106750

abbrev pub match_join_max_date_diff : ℕ
match_join_max_date_diff = 21

pub record MatchOddsJoin : Type 0 where
  pub tourney_date : Time
  pub winner : Text
  pub loser : Text
  pub surface : Text

unfoldable pub join_date : Text → Option Time
unfolding date_of
join_date s =
    if not (length s == 8)
    then none
    else atoi (take 4 s) >>= λ y.
        atoi (take 2 (drop 4 s)) >>= λ m. atoi (drop 6 s) >>= λ d. some (date_of y m d)

unfoldable pub parse_match_row_for_odds_join :
    List Text → CalibrationColumns → Option ℕ → Option MatchOddsJoin
unfolding join_date field_at
parse_match_row_for_odds_join row idx date_column =
    let winner = field_at row idx.winner_name in
    let loser = field_at row idx.loser_name in
    let surface = field_at row idx.surface in
    join_date (field_at row date_column) >>= λ date.
    if is_empty winner || is_empty loser || is_empty surface
    then none
    else some (record { tourney_date = date; winner = winner; loser = loser; surface = surface })

pub record OddsMatchKey : Type 0 where
  pub winner : PlayerMatchKey
  pub loser : PlayerMatchKey
  pub surface : Text

abbrev pub match_key_test : OddsMatchKey → OddsMatchKey → Bool
match_key_test k l =
    key_test k.winner l.winner && key_test k.loser l.loser && text_test k.surface l.surface

module _ (R : Float64) where
  open R use {F}

  pub record OddsRow : Type 0 where
    pub date : Time
    pub surface : Text
    pub winner : Text
    pub loser : Text
    pub comment : Text
    pub avg_w : Option F
    pub avg_l : Option F

  -- `oddsMatchKey` to the rows of the key.
  abbrev pub OddsIndex : Type 0
  OddsIndex = List (OddsMatchKey × List OddsRow)

  abbrev pub bucket : OddsIndex → OddsMatchKey → List OddsRow
  bucket [] k = []
  bucket ((j, rows) ∷ rest) k = if match_key_test j k then rows else bucket rest k

  abbrev pub add_to_bucket : OddsIndex → OddsMatchKey → OddsRow → OddsIndex
  add_to_bucket [] k o = (k, o ∷ []) ∷ []
  add_to_bucket ((j, rows) ∷ rest) k o = elim (match_key_test j k) [
    | true ↦ (j, rows ++ o ∷ []) ∷ rest
    | false ↦ (j, rows) ∷ add_to_bucket rest k o
  ]

  abbrev pub is_given : Option F → Bool
  is_given none = false
  is_given (some x) = true

  -- With both odds, of a match that was completed.
  abbrev pub is_usable : OddsRow → Bool
  is_usable o =
      is_given o.avg_w
      && is_given o.avg_l
      && (is_empty (trim_space o.comment) || text_test o.comment (codes "Completed"))

  -- The test that a row is better than the best one so far, at its distance.
  abbrev pub is_better : ℤ → Option OddsRow → ℤ → Bool
  is_better diff none best = true
  is_better diff (some o) best = ltℤ diff best

  unfoldable pub best_of : Time → List OddsRow → Option OddsRow → ℤ → Option OddsRow
  unfolding days_apart
  best_of date [] best diff = best
  best_of date (o ∷ rest) best diff =
      let d = days_apart date o.date in
      elim (not (ltℤ (pos match_join_max_date_diff) d) && is_better d best diff) [
        | true ↦ best_of date rest (some o) d
        | false ↦ best_of date rest best diff
      ]

  module _ (U : Unicode) where
    unfoldable pub key_of_odds : OddsRow → OddsMatchKey
    unfolding player_key_from_odds_name
    key_of_odds o = record {
      winner = player_key_from_odds_name U o.winner;
      loser = player_key_from_odds_name U o.loser;
      surface = trim_space o.surface;
    }

    unfoldable pub key_of_match : MatchOddsJoin → OddsMatchKey
    unfolding player_key_from_sackmann_name
    key_of_match m = record {
      winner = player_key_from_sackmann_name U m.winner;
      loser = player_key_from_sackmann_name U m.loser;
      surface = trim_space m.surface;
    }

    abbrev pub index_row : OddsIndex → OddsRow → OddsIndex
    index_row index o = if is_usable o then add_to_bucket index (key_of_odds o) o else index

    abbrev pub index_rows : OddsIndex → List OddsRow → OddsIndex
    index_rows index [] = index
    index_rows index (o ∷ rest) = index_rows (index_row index o) rest

    unfoldable pub build_odds_index : List OddsRow → OddsIndex
    unfolding key_of_odds
    build_odds_index odds = index_rows [] odds

    unfoldable pub find_best_odds_match : OddsIndex → MatchOddsJoin → Option OddsRow
    unfolding key_of_match best_of
    find_best_odds_match index m =
        best_of m.tourney_date (bucket index (key_of_match m)) none
          (pos (suc match_join_max_date_diff))

  module _ (P : Process R) where
    unfoldable pub parse_odds_row : List Text → OddsColumns → Option OddsRow
    unfolding parse_slash_date field_at parse_optional_float
    parse_odds_row row idx = parse_slash_date (field_at row idx.date) >>= λ date. some (record {
      date = date;
      surface = field_at row idx.surface;
      winner = field_at row idx.winner;
      loser = field_at row idx.loser;
      comment = field_at row idx.comment;
      avg_w = parse_optional_float R P (field_at row idx.avg_w);
      avg_l = parse_optional_float R P (field_at row idx.avg_l);
    })

    -- A read that fails, or a bad date, is an error.
    unfoldable pub odds_rows : OddsColumns → List (Option (List Text)) → Option (List OddsRow)
    unfolding parse_odds_row
    odds_rows idx [] = some []
    odds_rows idx (none ∷ rows) = none
    odds_rows idx (some row ∷ rows) =
        parse_odds_row row idx >>= λ o. odds_rows idx rows >>= λ rest. some (o ∷ rest)

    abbrev pub odds_with :
        Result (List Text) OddsColumns → List (Option (List Text)) → Option (List OddsRow)
    odds_with (err names) rows = none
    odds_with (ok idx) rows = odds_rows idx rows

    -- `LoadOddsCSV`.
    unfoldable pub load_odds : List (Option (List Text)) → Option (List OddsRow)
    unfolding odds_rows odds_column_indices
    load_odds [] = none
    load_odds (none ∷ rows) = none
    load_odds (some header ∷ rows) = odds_with (odds_column_indices header) rows

  pub record JoinMatchesOddsResult : Type 0 where
    pub rows_written : ℕ
    pub rows_matched : ℕ
    pub rows_unmatched : ℕ

  module _ (U : Unicode) (format_odds : F → Text) where
    abbrev pub odds_text : Option F → Text
    odds_text none = []
    odds_text (some x) = format_odds x

    -- The two columns of a match.
    abbrev pub odds_of : Option OddsRow → Text × Text
    odds_of none = ([], [])
    odds_of (some o) = (odds_text o.avg_w, odds_text o.avg_l)

    abbrev pub found_for : OddsIndex → Option MatchOddsJoin → Option OddsRow
    found_for index none = none
    found_for index (some m) = find_best_odds_match U index m

    unfoldable pub join_row : OddsIndex → CalibrationColumns → Option ℕ → List Text → Text × Text
    unfolding parse_match_row_for_odds_join find_best_odds_match
    join_row index idx date_column row =
        odds_of (found_for index (parse_match_row_for_odds_join row idx date_column))

    abbrev pub count_row : JoinMatchesOddsResult → Text × Text → JoinMatchesOddsResult
    count_row stats odds =
        let unmatched = is_empty odds.0 || is_empty odds.1 in
        record {
          rows_written = suc stats.rows_written;
          rows_matched = if unmatched then stats.rows_matched else suc stats.rows_matched;
          rows_unmatched = if unmatched then suc stats.rows_unmatched else stats.rows_unmatched;
        }

    -- The rows that are written, and the count; a read that fails is an error.
    unfoldable pub join_rows :
        OddsIndex
        → CalibrationColumns
        → Option ℕ
        → List (Option (List Text))
        → List (List Text)
        → JoinMatchesOddsResult
        → Option (List (List Text) × JoinMatchesOddsResult)
    unfolding join_row
    join_rows index idx date_column [] out stats = some (out, stats)
    join_rows index idx date_column (none ∷ rows) out stats = none
    join_rows index idx date_column (some row ∷ rows) out stats =
        let odds = join_row index idx date_column row in
        join_rows index idx date_column rows (out ++ (row ++ odds.0 ∷ odds.1 ∷ []) ∷ [])
          (count_row stats odds)

    abbrev pub join_with :
        OddsIndex
        → List Text
        → Result (List Text) CalibrationColumns
        → Option ℕ
        → List (Option (List Text))
        → Option (List (List Text) × JoinMatchesOddsResult)
    join_with index header (err names) date_column rows = none
    join_with index header (ok idx) none rows = none
    join_with index header (ok idx) (some i) rows =
        join_rows index idx (some i) rows ((header ++ codes "AvgW" ∷ codes "AvgL" ∷ []) ∷ [])
          (record { rows_written = 0; rows_matched = 0; rows_unmatched = 0 })

    -- `JoinMatchesWithAvgOddsCSV`, from the rows of both files to those written.
    unfoldable pub join_matches_with_avg_odds :
        List OddsRow → List (Option (List Text)) → Option (List (List Text) × JoinMatchesOddsResult)
    unfolding join_rows build_odds_index calibration_column_indices column
    join_matches_with_avg_odds odds [] = none
    join_matches_with_avg_odds odds (none ∷ rows) = none
    join_matches_with_avg_odds odds (some header ∷ rows) =
        join_with (build_odds_index U odds) header (calibration_column_indices header)
          (column header (codes "tourney_date")) rows
