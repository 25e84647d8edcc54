-- ===== src/Tennis/Simulation.antt =====
-- tennis/tennis/simulate.go. The random generator is the sequence of the numbers that its `Float64`
-- returns, with the place of the next one as the state. The loop of one match takes fuel, one unit
-- for each game or tiebreak point, and gives `none` when it is used up.
pub mod Play
pub mod Runs
pub mod Trace
pub mod Errors
pub mod Straight
use calculated_tennis.Base.{
  ℕ, zero, suc, ◌+◌, Bool, true, false, ◌||◌, Option, none, some, if◌then◌else◌, Result, ok, err,
  Float64, ℤ, pos, negsuc, reject_if, ◌>>◌,
}
pub use calculated_tennis.Base.Draws.{and_then, pure, fail, of_result}
use calculated_tennis.Base.Draws.{Draws, ◌>>=◌}
use calculated_tennis.Tennis.State.{
  Player, A, B, opponent, Tally, get, increment, zero_tally, MatchFormat, is_tiebreak, Match,
  new_match,
}
use calculated_tennis.Tennis.Rules.{MatchError, win_game, win_tiebreak_point}
use calculated_tennis.Tennis.Probability.{
  RateError, invalid_alpha, invalid_rate, outside_unit, game_win_prob,
}

-- `nil_dereference` is a panic.
pub data SimulationError : Type 0 where
  nil_initial_match initial_match_done negative_simulations nil_rng nil_dereference :
      SimulationError
  of_rates : RateError → SimulationError
  of_match : MatchError → SimulationError

-- A simulation draws numbers.
abbrev pub Sim : Type 0 → Type 0
Sim = Draws SimulationError

-- `SimulationResult.WinCount`.
abbrev pub win_count : Tally → Player → ℕ
win_count wins p = get wins p

unfoldable pub apply_simulated_point : Match → Player → Match × Option MatchError
apply_simulated_point m winner =
    if is_tiebreak m.current.phase then win_tiebreak_point m winner else win_game m winner

-- `Match.Clone`: the fields of a copy.
unfoldable pub clone : Match → Match
clone m = record {
  format = m.format;
  first_server = m.first_server;
  sets_won = m.sets_won;
  completed_sets = m.completed_sets;
  current = m.current;
  server = m.server;
  done = m.done;
  winner = m.winner;
}

-- The match that an operation leaves, or its error.
abbrev pub applied : Match × Option MatchError → Result SimulationError Match
applied (m, none) = ok m
applied (m, some e) = err (of_match e)

abbrev pub lift_rates : {X : Type 0} → Result RateError X → Result SimulationError X
lift_rates (ok a) = ok a
lift_rates (err e) = err (of_rates e)

-- `*m.Winner`.
abbrev pub deref : Option Player → Result SimulationError Player
deref none = err nil_dereference
deref (some w) = ok w

module _ (R : Float64) where
  open R use {F, half, lt, le}

  pub record PlayerRates : Type 0 where
    pub hold_pct : F
    pub break_pct : F

  -- `rates[player]`.
  pub record Rates : Type 0 where
    pub of_a : PlayerRates
    pub of_b : PlayerRates

  abbrev pub rates_of : Rates → Player → PlayerRates
  rates_of r A = r.of_a
  rates_of r B = r.of_b

  -- The generator behind a pointer that may be nil.
  abbrev pub Rng : Type 0
  Rng = Option (ℕ → F)

  unfoldable pub validate_player_rates : PlayerRates → Result SimulationError (Unit {0})
  validate_player_rates r =
      reject_if (outside_unit R r.hold_pct || outside_unit R r.break_pct) (of_rates invalid_rate)

  unfoldable pub validate_simulation_params :
      Rates → F → ℤ → Rng → Result SimulationError (Unit {0})
  unfolding validate_player_rates
  validate_simulation_params rates alpha (negsuc k) rng = err negative_simulations
  validate_simulation_params rates alpha (pos zero) rng = ok tt
  validate_simulation_params rates alpha (pos (suc k)) rng =
      reject_if (le alpha (R.zero)) (of_rates invalid_alpha)
      >> (validate_player_rates (rates.of_a)
          >> (validate_player_rates (rates.of_b)
              >> elim rng [ none ↦ err nil_rng | some draws ↦ ok tt ]))

  unfoldable pub first_server_coin_toss : Rng → Sim Player
  first_server_coin_toss none t = some (err nil_rng)
  first_server_coin_toss (some draws) t = some (ok (if lt (draws t) half then A else B, t + 1))

  -- The side that wins the next game or point, by the number drawn.
  abbrev pub point_winner : Match → F → F → Player
  point_winner m p drawn = if lt drawn p then m.server else opponent m.server

  -- The server's chance of the next game or point.
  unfoldable pub server_win_prob : Match → Rates → F → Result SimulationError F
  server_win_prob m rates alpha = lift_rates (
      game_win_prob R (rates_of rates m.server).hold_pct
        (rates_of rates (opponent m.server)).break_pct alpha)

  -- A number is drawn, and its winner takes the game or point.
  abbrev pub draw_point : Match → (ℕ → F) → F → Sim Match
  draw_point m draws p t =
      of_result (applied (apply_simulated_point m (point_winner m p (draws t)))) (t + 1)

  -- One round of the loop.
  unfoldable pub simulate_point : Match → Rates → F → (ℕ → F) → Sim Match
  simulate_point m rates alpha draws =
      of_result (server_win_prob m rates alpha) >>= draw_point m draws

  unfoldable pub run_once : ℕ → Match → Rates → F → (ℕ → F) → Sim Player
  run_once zero m rates alpha draws = if m.done then of_result (deref m.winner) else λ t. none
  run_once (suc fuel) m rates alpha draws = elim m.done [
    | true ↦ of_result (deref m.winner)
    | false ↦ simulate_point m rates alpha draws >>= λ m'. run_once fuel m' rates alpha draws
  ]

  -- The use of a generator that must not be nil.
  abbrev pub with_rng : {X : Type 0} → Rng → ((ℕ → F) → Sim X) → Sim X
  with_rng none f = fail nil_dereference
  with_rng (some draws) f = f draws

  -- How often `for i := 0; i < n; i++` runs.
  abbrev pub rounds : ℤ → ℕ
  rounds (pos n) = n
  rounds (negsuc n) = 0

  -- The loop of `n` matches: each is begun by `start` and counted for its winner.
  unfoldable pub simulate_runs : ℕ → Sim Match → Rates → F → Rng → ℕ → Tally → Sim Tally
  simulate_runs fuel start rates alpha rng zero wins = pure wins
  simulate_runs fuel start rates alpha rng (suc n) wins = do
    m ← start
    winner ← with_rng rng (run_once fuel m rates alpha)
    simulate_runs fuel start rates alpha rng n (increment wins winner)

  -- Every match is a new one, with the first server drawn.
  unfoldable pub fresh_start : MatchFormat → Rng → Sim Match
  unfolding first_server_coin_toss
  fresh_start f rng = do first ← first_server_coin_toss rng; pure (new_match first f)

  unfoldable pub simulate_fresh : ℕ → MatchFormat → Rates → F → ℤ → Rng → Sim Tally
  unfolding validate_simulation_params simulate_runs fresh_start
  simulate_fresh fuel f rates alpha n rng = do
    _ ← of_result (validate_simulation_params rates alpha n rng)
    simulate_runs fuel (fresh_start f rng) rates alpha rng (rounds n) zero_tally

  -- The pointer to the first match may be nil.
  unfoldable pub simulate : ℕ → Option Match → Rates → F → ℤ → Rng → Sim Tally
  unfolding validate_simulation_params simulate_runs clone
  simulate fuel none rates alpha n rng = fail nil_initial_match
  simulate fuel (some initial) rates alpha n rng =
      if initial.done
      then fail initial_match_done
      else of_result (validate_simulation_params rates alpha n rng) >>= λ _.
          simulate_runs fuel (pure (clone initial)) rates alpha rng (rounds n) zero_tally
