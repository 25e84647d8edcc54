-- ===== src/TennisAbstract/PlayerNames.antt =====
-- tennis/tennisabstract/matches_csv.go: the names of the players in a table of matches.
use calculated_tennis.Base.{
  ℕ, suc, ◌||◌, Option, none, some, List, [], ◌∷◌, ◌++◌, if◌then◌else◌, Text, codes, text_test,
  is_empty,
}
use calculated_tennis.Base.Options.{◌>>=◌}
use calculated_tennis.Base.Sorting.{sort_stable}
use calculated_tennis.Base.Texts.{trim_space, text_less}
use calculated_tennis.TennisAbstract.Names.{is_one_of}
use calculated_tennis.TennisAbstract.Columns.{field_at}

-- The last column of a name.
abbrev pub last_column_from : ℕ → List Text → Text → Option ℕ → Option ℕ
last_column_from i [] name found = found
last_column_from i (c ∷ cs) name found =
    last_column_from (suc i) cs name (if text_test (trim_space c) name then some i else found)

-- The columns of the winner and of the loser.
unfoldable pub match_name_column_indices : List Text → Option (ℕ × ℕ)
match_name_column_indices header =
    last_column_from 0 header (codes "winner_name") none >>= λ winner.
    last_column_from 0 header (codes "loser_name") none >>= λ loser. some (winner, loser)

-- The set of the names that are seen; an empty cell is no name.
unfoldable pub see : List Text → Text → List Text
see seen name = if is_empty name || is_one_of name seen then seen else seen ++ name ∷ []

unfoldable pub see_rows : ℕ × ℕ → List (Option (List Text)) → List Text → Option (List Text)
unfolding see field_at
see_rows idx [] seen = some seen
see_rows idx (none ∷ rows) seen = none
see_rows idx (some row ∷ rows) seen =
    see_rows idx rows (see (see seen (field_at row (some idx.0))) (field_at row (some idx.1)))

-- `UniquePlayerNamesFromMatchesCSV`; `none` is an error.
unfoldable pub unique_player_names : List (Option (List Text)) → Option (List Text)
unfolding match_name_column_indices see_rows
unique_player_names [] = none
unique_player_names (none ∷ rows) = none
unique_player_names (some header ∷ rows) = match_name_column_indices header >>= λ idx.
    see_rows idx rows [] >>= λ seen. some (sort_stable text_less seen)
