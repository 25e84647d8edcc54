-- ===== src/Tennis/Score/Hydrate.antt =====
-- tennis/tennis/score.go: `MatchFromScore` from the parsed tokens on. The replays are `for` loops
-- with no bound: they take fuel, one unit for each round, and give `none` when it is used up. The
-- match behind the pointer is dropped on an error, so an error carries none.
pub mod Steps
pub mod SetLoop
pub mod TiebreakLoop
pub mod Tokens
pub mod Sequence
pub mod Regular
pub mod Level
use mathlib.Core.List.{get_last?}
use calculated_tennis.Base.{
  Text, ℕ, zero, suc, ◌+◌, Bool, true, false, not, ◌&&◌, ◌||◌, Option, none, some, List, [], ◌∷◌,
  ltb, ◌==◌, if◌then◌else◌, Result, ok, err, ◌>>=◌, ◌>>◌, length,
}
use calculated_tennis.Tennis.State.{
  Player, A, B, Tally, increment, zero_tally, MatchFormat, SetResult, Match, new_match, is_tiebreak,
}
use calculated_tennis.Tennis.Rules.{
  MatchError, match_complete, win_game, win_tiebreak_point, wins_by, tiebreak_points_to_win,
}
use calculated_tennis.Tennis.Score.{
  ScoreError, invalid_set, score_match_complete, hydration, of_match, SetScore, has_tiebreak,
  tiebreak_points,
}
use calculated_tennis.Tennis.Score.Parse.{parse_score}
use calculated_tennis.Tennis.Score.Validate.{
  SetClass, in_progress, completed, classify_set, validate_score_sequence,
}

abbrev pub Replay : Type 0
Replay = Option (Result ScoreError Match)

abbrev pub and_replay : Replay → (Match → Replay) → Replay
and_replay none k = none
and_replay (some (err e)) k = some (err e)
and_replay (some (ok m)) k = k m

abbrev pub of_result : Result ScoreError (Unit {0}) → Match → Replay
of_result (ok _) m = some (ok m)
of_result (err e) m = some (err e)

-- The rest of a replay after an operation of the match.
abbrev pub after_move : Match × Option MatchError → (Match → Replay) → Replay
after_move (m, none) k = k m
after_move (m, some e) k = some (err (of_match e))

unfoldable pub canonical_game_winner : ℕ → ℕ → Player
canonical_game_winner a b = if ltb a b then A else if ltb b a then B else A

unfoldable pub pick_needed_game_winner : Tally → Tally → Player
unfolding canonical_game_winner
pick_needed_game_winner g target =
    let need_a = ltb g.a target.a in
    let need_b = ltb g.b target.b in
    if need_a && not need_b
    then A
    else if need_b && not need_a
    then B
    else canonical_game_winner g.a g.b

unfoldable pub pick_needed_tiebreak_winner : Tally → Tally → Player
unfolding canonical_game_winner
pick_needed_tiebreak_winner t target =
    let need_a = ltb t.a target.a in
    let need_b = ltb t.b target.b in
    if need_a && not need_b
    then A
    else if need_b && not need_a
    then B
    else canonical_game_winner t.a t.b

unfoldable pub score_needs_tiebreak_hydration : SetScore → MatchFormat → Bool → Bool
score_needs_tiebreak_hydration s f complete =
    let tb = f.tiebreak_at_games_each in
    if s.games_a == tb + 1 && s.games_b == tb
    then true
    else if s.games_b == tb + 1 && s.games_a == tb
    then true
    else if s.games_a == tb && s.games_b == tb
    then has_tiebreak s.tiebreak || not complete
    else false

abbrev pub same_tally : Tally → Tally → Bool
same_tally s t = s.a == t.a && s.b == t.b

-- Some side has more than the target.
abbrev pub exceeds : Tally → Tally → Bool
exceeds s t = ltb t.a s.a || ltb t.b s.b

unfoldable pub replay_regular_games_to : ℕ → Match → Tally → Replay
replay_regular_games_to zero m target = none
replay_regular_games_to (suc fuel) m target =
    let g = m.current.games in
    let rest =
      after_move (win_game m (pick_needed_game_winner g target))
        (λ m'. replay_regular_games_to fuel m' target) in
    if is_tiebreak m.current.phase
    then if same_tally g target then some (ok m) else some (err hydration)
    else if same_tally g target
    then some (ok m)
    else if exceeds g target
    then some (err hydration)
    else rest

-- The last set has the target's games.
abbrev pub result_is : Option SetResult → Tally → Bool
result_is none target = false
result_is (some r) target = r.games_a == target.a && r.games_b == target.b

-- What follows a loop that ends with a set completed.
abbrev pub check_last_set : Tally → Match → Replay
check_last_set target m =
    if not (result_is (get_last? m.completed_sets) target)
    then some (err hydration)
    else some (ok m)

-- The loop runs while `before` sets are completed.
unfoldable pub regular_set_loop : ℕ → ℕ → Match → Tally → Replay
regular_set_loop zero before m target = none
regular_set_loop (suc fuel) before m target =
    let rest =
      after_move (win_game m (pick_needed_game_winner m.current.games target))
        (λ m'. regular_set_loop fuel before m' target) in
    if not (length m.completed_sets == before)
    then check_last_set target m
    else if is_tiebreak m.current.phase
    then some (err hydration)
    else rest

unfoldable pub replay_regular_games_until_set_complete : ℕ → Match → Tally → Replay
unfolding regular_set_loop
replay_regular_games_until_set_complete fuel m target =
    regular_set_loop fuel (length m.completed_sets) m target

unfoldable pub replay_tiebreak_points_to : ℕ → Match → Tally → Replay
replay_tiebreak_points_to zero m target = none
replay_tiebreak_points_to (suc fuel) m target =
    let t = m.current.tiebreak_points in
    let rest = after_move (win_tiebreak_point m (pick_needed_tiebreak_winner t target)) (λ m'.
      let more = replay_tiebreak_points_to fuel m' target in
      if ltb (length m.completed_sets) (length m'.completed_sets)
      then some (err hydration)
      else more) in
    if not (is_tiebreak m.current.phase)
    then some (err hydration)
    else if same_tally t target
    then some (ok m)
    else if exceeds t target
    then some (err hydration)
    else rest

-- The games of a set that `p` wins by the tiebreak.
abbrev pub tiebreak_set_games : MatchFormat → Player → Tally
tiebreak_set_games f A = record { a = f.tiebreak_at_games_each + 1; b = f.tiebreak_at_games_each }
tiebreak_set_games f B = record { a = f.tiebreak_at_games_each; b = f.tiebreak_at_games_each + 1 }

-- One more point for `p` wins the tiebreak, and that gives the target.
abbrev pub clinches : Match → Tally → Player → Bool
clinches m target p =
    wins_by (tiebreak_points_to_win m) m.format.tiebreak_point_margin
      (increment m.current.tiebreak_points p) p
    && same_tally (tiebreak_set_games m.format p) target

unfoldable pub tiebreak_clincher : Match → Tally → Option Player
unfolding tiebreak_points_to_win
tiebreak_clincher m target =
    if clinches m target A then some A else if clinches m target B then some B else none

abbrev pub clincher_or : Option Player → Player → Player
clincher_or none p = p
clincher_or (some w) p = w

unfoldable pub pick_tiebreak_progress_winner : Match → Tally → Player
unfolding tiebreak_clincher canonical_game_winner
pick_tiebreak_progress_winner m target =
    let t = m.current.tiebreak_points in
    clincher_or (tiebreak_clincher m target)
      (if t.a == t.b then if ltb target.a target.b then B else A else canonical_game_winner t.a t.b)

unfoldable pub tiebreak_set_loop : ℕ → ℕ → Match → Tally → Replay
tiebreak_set_loop zero before m target = none
tiebreak_set_loop (suc fuel) before m target =
    let rest =
      after_move (win_tiebreak_point m (pick_tiebreak_progress_winner m target))
        (λ m'. tiebreak_set_loop fuel before m' target) in
    if not (length m.completed_sets == before)
    then check_last_set target m
    else if not (is_tiebreak m.current.phase)
    then some (err hydration)
    else rest

unfoldable pub replay_tiebreak_until_set_complete : ℕ → Match → Tally → Replay
unfolding tiebreak_set_loop
replay_tiebreak_until_set_complete fuel m target =
    tiebreak_set_loop fuel (length m.completed_sets) m target

abbrev pub games_target : SetScore → Tally
games_target s = record { a = s.games_a; b = s.games_b }

unfoldable pub hydrate_set : ℕ → Match → SetScore → MatchFormat → Bool → Replay
hydrate_set fuel m s f complete =
    let tb = f.tiebreak_at_games_each in
    if m.done
    then some (err (of_match match_complete))
    else if score_needs_tiebreak_hydration s f complete
    then and_replay (replay_regular_games_to fuel m (record { a = tb; b = tb })) (λ m'.
      if complete
      then replay_tiebreak_until_set_complete fuel m' (games_target s)
      else replay_tiebreak_points_to fuel m' (tiebreak_points s))
    else if complete
    then replay_regular_games_until_set_complete fuel m (games_target s)
    else replay_regular_games_to fuel m (games_target s)

unfoldable pub assert_in_progress_set :
    Match → SetScore → MatchFormat → Result ScoreError (Unit {0})
assert_in_progress_set m s f =
    let tb = f.tiebreak_at_games_each in
    if not (same_tally m.current.games (games_target s))
    then err hydration
    else if s.games_a == tb && s.games_b == tb
    then if not (is_tiebreak m.current.phase)
      then err hydration
      else if not (same_tally m.current.tiebreak_points (tiebreak_points s))
      then err hydration
      else ok tt
    else if has_tiebreak s.tiebreak
    then err invalid_set
    else if is_tiebreak m.current.phase
    then err hydration
    else ok tt

-- The sets won after a completed token, read off the set that the replay completed.
abbrev pub completed_winner : Option SetResult → SetScore → Result ScoreError Player
completed_winner none s = err hydration
completed_winner (some r) s =
    if not (r.games_a == s.games_a) || not (r.games_b == s.games_b)
    then err hydration
    else ok (if ltb r.games_a r.games_b then B else A)

-- What the loop of `MatchFromScore` checks after a token, with the sets won from there on.
abbrev pub check_token :
    Match → SetScore → MatchFormat → Tally → List SetScore → SetClass → Result ScoreError Tally
check_token m s f won rest (completed _) =
    completed_winner (get_last? m.completed_sets) s >>= λ w. ok (increment won w)
check_token m s f won [] in_progress = assert_in_progress_set m s f >> ok won
check_token m s f won (r ∷ rest) in_progress = ok won

abbrev pub is_completed : SetClass → Bool
is_completed in_progress = false
is_completed (completed w) = true

-- `return m, nil`, unless the match is over.
abbrev pub finish : Match → Replay
finish m = if m.done then some (err score_match_complete) else some (ok m)

abbrev pub with_result : {X : Type 0} → Result ScoreError X → (X → Replay) → Replay
with_result (ok x) k = k x
with_result (err e) k = some (err e)

-- The loop over the tokens, and the return.
unfoldable pub hydrate_sets : ℕ → MatchFormat → Match → Tally → List SetScore → Replay
unfolding assert_in_progress_set
hydrate_sets fuel f m won [] = finish m
hydrate_sets fuel f m won (s ∷ rest) = with_result (classify_set s f won) λ c.
    and_replay (hydrate_set fuel m s f (is_completed c))
      λ m'. with_result (check_token m' s f won rest c) λ won'. hydrate_sets fuel f m' won' rest

-- `MatchFromScore` on the tokens of a score.
unfoldable pub match_from_sets : ℕ → MatchFormat → Player → List SetScore → Replay
unfolding hydrate_sets
match_from_sets fuel f first_server sets =
    with_result (validate_score_sequence f sets)
      λ _. hydrate_sets fuel f (new_match first_server f) zero_tally sets

unfoldable pub match_from_score : ℕ → MatchFormat → Player → Text → Replay
unfolding match_from_sets parse_score
match_from_score fuel f first_server score =
    with_result (parse_score score) (match_from_sets fuel f first_server)
