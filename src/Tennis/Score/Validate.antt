-- ===== src/Tennis/Score/Validate.antt =====
-- tennis/tennis/score.go: `ValidateScoreSequence` and what it calls.
use calculated_tennis.Base.{
  ℕ, ◌+◌, ◌*◌, Bool, true, false, not, ◌&&◌, ◌||◌, List, [], ◌∷◌, ltb, leb, ◌==◌, if◌then◌else◌,
  Result, ok, err, ◌>>=◌, ◌>>◌, reject_if, length,
}
use calculated_tennis.Tennis.State.{Player, A, B, Tally, increment, zero_tally, MatchFormat}
use calculated_tennis.Tennis.Rules.{wins_by, points_target}
use calculated_tennis.Tennis.Score.{
  ScoreError, score_empty, invalid_set, score_match_complete, too_many_sets, SetScore, has_tiebreak,
  tiebreak_points,
}

abbrev pub high : ℕ → ℕ → ℕ
high a b = if ltb a b then b else a

abbrev pub low : ℕ → ℕ → ℕ
low a b = if ltb a b then a else b

unfoldable pub impossible_game_score : ℕ → ℕ → MatchFormat → Bool
impossible_game_score a b f =
    let hi = high a b in
    let lo = low a b in
    let at = f.tiebreak_at_games_each in
    if a == b
    then false
    else if ltb (at + 1) hi
    then true
    else if hi == at + 1
    then not (lo == at) && not (lo + 1 == at)
    else false

unfoldable pub validate_game_totals : SetScore → MatchFormat → Result ScoreError (Unit {0})
unfolding impossible_game_score
validate_game_totals s f =
    if impossible_game_score s.games_a s.games_b f
    then err invalid_set
    else if has_tiebreak s.tiebreak
    then if not (s.games_a == s.games_b)
      then err invalid_set
      else if not (s.games_a == f.tiebreak_at_games_each)
      then err invalid_set
      else ok tt
    else ok tt

-- The loop tries the points of A, then those of B; `other` is the opponent's count.
unfoldable pub tiebreak_complete : Tally → MatchFormat → Tally → Bool
tiebreak_complete t f won =
    let target = points_target f won in
    wins_by target f.tiebreak_point_margin t A || wins_by target f.tiebreak_point_margin t B

-- `(completed, winner)` of a set that is classified without an error.
pub data SetClass : Type 0 where
  in_progress : SetClass
  completed : Player → SetClass

unfoldable pub classify_set : SetScore → MatchFormat → Tally → Result ScoreError SetClass
unfolding tiebreak_complete
classify_set s f won =
    let ga = s.games_a in
    let gb = s.games_b in
    let at = f.tiebreak_at_games_each in
    let tb = has_tiebreak s.tiebreak in
    if ga == at && gb == at
    then if tiebreak_complete (tiebreak_points s) f won then err invalid_set else ok in_progress
    else if ga == at + 1 && gb == at
    then if tb then err invalid_set else ok (completed A)
    else if gb == at + 1 && ga == at
    then if tb then err invalid_set else ok (completed B)
    else if leb f.games_per_set (high ga gb) && leb (low ga gb + f.game_margin) (high ga gb)
    then if tb then err invalid_set else ok (completed (if ltb ga gb then B else A))
    else if tb
    then err invalid_set
    else ok in_progress

abbrev pub reject_completed : SetClass → Result ScoreError (Unit {0})
reject_completed in_progress = ok tt
reject_completed (completed w) = err invalid_set

unfoldable pub validate_in_progress_set :
    SetScore → MatchFormat → Tally → Result ScoreError (Unit {0})
unfolding classify_set
validate_in_progress_set s f won =
    let at = f.tiebreak_at_games_each in
    if s.games_a == at && s.games_b == at
    then if tiebreak_complete (tiebreak_points s) f won then err invalid_set else ok tt
    else if has_tiebreak s.tiebreak
    then err invalid_set
    else classify_set s f won >>= reject_completed

-- One side already has the sets that win the match.
abbrev pub is_won : MatchFormat → Tally → Bool
is_won f won = leb f.sets_to_win won.a || leb f.sets_to_win won.b

-- The last token: completed, or a legal set in progress.
abbrev pub validate_last : SetScore → MatchFormat → Tally → SetClass → Result ScoreError (Unit {0})
validate_last s f won (completed w) = ok tt
validate_last s f won in_progress =
    reject_if (is_won f won) score_match_complete >> validate_in_progress_set s f won

-- A token before the last: completed, without winning the match; the sets won after it.
abbrev pub advance_sets : MatchFormat → Tally → SetClass → Result ScoreError Tally
advance_sets f won in_progress = err invalid_set
advance_sets f won (completed w) =
    reject_if (is_won f (increment won w)) score_match_complete >> ok (increment won w)

-- The loop over the tokens from `won` on.
unfoldable pub validate_from : MatchFormat → Tally → List SetScore → Result ScoreError (Unit {0})
validate_from f won [] = ok tt
validate_from f won (s ∷ []) = do
  validate_game_totals s f
  c ← classify_set s f won
  validate_last s f won c
validate_from f won (s ∷ (t ∷ rest)) = do
  validate_game_totals s f
  c ← classify_set s f won
  won' ← advance_sets f won c
  validate_from f won' (t ∷ rest)

unfoldable pub validate_score_sequence : MatchFormat → List SetScore → Result ScoreError (Unit {0})
unfolding validate_from
validate_score_sequence f [] = err score_empty
validate_score_sequence f (s ∷ rest) =
    if ltb (2 * f.sets_to_win) (length (s ∷ rest) + 1)
    then err too_many_sets
    else validate_from f zero_tally (s ∷ rest)
