-- ===== src/Tennis/Examples/Simulations.antt =====
-- The theorems on tennis/tennis/simulate.go at concrete simulations.
use calculated_tennis.Base.{
  ℕ, ◌+◌, ◌*◌, ◌/◌, ◌^◌, ◌-◌, ◌≡◌, refl, some, ok, err, arith, Float64, pos, negsuc, ltb, leb,
}
use calculated_tennis.Tennis.State.{Player, A, B, default_format, Tally, new_match, opponent, get}
use calculated_tennis.Tennis.Rules.{win_game, complete_set}
use calculated_tennis.Tennis.Probability.{game_win_prob}
use calculated_tennis.Tennis.Rules.Invariant.{IsPlayable, new_match-Inv}
use calculated_tennis.Tennis.Simulation.{
  negative_simulations, simulate_point, apply_simulated_point, Rates, server_win_prob, point_winner,
  validate_simulation_params, run_once, simulate, simulate_fresh,
}
use calculated_tennis.Tennis.Simulation.Runs.{simulate-count}
use calculated_tennis.Tennis.Simulation.Trace.{IsRun, run_once-IsRun}
use calculated_tennis.Tennis.Simulation.Straight.{IsWinnable, Favours, simulate-straight}
use calculated_tennis.Tennis.Simulation.Errors.{simulate-err}

-- Halves as natural numbers: enough arithmetic for rates of 0 and 1 with the exponent 1.
abbrev halves : Float64
halves = record {
  F = ℕ;
  zero = 0;
  one = 2;
  two = 4;
  half = 1;
  lt = ltb;
  le = leb;
  add = λ x y. x + y;
  sub = λ x y. x - y;
  div = λ x y. x * 2 / y;
  pow = λ x y. x;
  mul = λ x y. x * y / 2;
  neg = λ x. 0;
  of_int = elim [ pos n ↦ 2 * n | negsuc n ↦ 0 ];
  literal = λ n k. 2 * n / 10 ^ k;
}

-- A holds and breaks always, B never.
abbrev one_sided : Rates halves
one_sided = record {
  of_a = record { hold_pct = 2; break_pct = 2 };
  of_b = record { hold_pct = 0; break_pct = 0 };
}

abbrev zeros : ℕ → ℕ
zeros _ = 0

one_sided-Favours : Favours halves one_sided 2 zeros A
unfolding server_win_prob opponent game_win_prob
one_sided-Favours m t = by_server m.server refl
  where
    by_server :
        (p : Player)
        → m.server ≡ p
        → (q : ℕ) × (server_win_prob halves m one_sided 2 ≡ ok q) × (point_winner halves m q 0 ≡ A)
    by_server A e = (2, rw (e, server_win_prob), rw e)
    by_server B e = (0, rw (e, server_win_prob), rw e)

default-IsWinnable : IsWinnable default_format
unfolding default_format
default-IsWinnable = omega arith

one_sided_valid : validate_simulation_params halves one_sided 2 (pos 3) (some zeros) ≡ ok tt
unfolding validate_simulation_params
one_sided_valid = refl

simulate-straight_example :
    (wins : Tally) × (simulate halves 12
        (some (new_match B default_format))
        one_sided
        2
        (pos 3)
        (some zeros)
        0
      ≡ some (ok (wins, 0 + 3 * (default_format.sets_to_win * default_format.games_per_set))))
    × (get wins A ≡ 3)
    × (get wins (opponent A) ≡ 0)
unfolding default_format
simulate-straight_example =
    simulate-straight halves one_sided 2 zeros default_format default-IsWinnable A one_sided-Favours
      12 3 0 B (omega arith) (omega arith) one_sided_valid

simulated :
    simulate halves 12 (some (new_match B default_format)) one_sided 2 (pos 3) (some zeros) 0
    ≡ some (ok (record { a = 3; b = 0 }, 36))
unfolding simulate run_once default_format new_match simulate_point server_win_prob game_win_prob
    opponent apply_simulated_point win_game complete_set
simulated = refl

simulate-count_example : pos 3 ≡ pos (3 + 0)
simulate-count_example =
    simulate-count halves 12 (some (new_match B default_format)) one_sided 2 (pos 3) (some zeros) 0
      36 {r = record { a = 3; b = 0 }} simulated

simulated_fresh :
    simulate_fresh halves 12 default_format one_sided 2 (pos 2) (some zeros) 0
    ≡ some (ok (record { a = 2; b = 0 }, 26))
unfolding simulate_fresh run_once default_format new_match simulate_point server_win_prob
    game_win_prob opponent apply_simulated_point win_game complete_set
simulated_fresh = refl

ran_once : run_once halves 12 (new_match B default_format) one_sided 2 zeros 0 ≡ some (ok (A, 12))
unfolding run_once default_format new_match simulate_point server_win_prob game_win_prob opponent
    apply_simulated_point win_game complete_set
ran_once = refl

run_once-IsRun_example : IsRun halves one_sided 2 zeros (new_match B default_format) 0 12 A
run_once-IsRun_example =
    run_once-IsRun halves one_sided 2 zeros 12 (new_match B default_format) 0 12 A ran_once

default-IsPlayable : IsPlayable default_format
unfolding default_format
default-IsPlayable = omega arith

refused :
    simulate halves 12 (some (new_match B default_format)) one_sided 2 (negsuc 4) (some zeros) 0
    ≡ some (err negative_simulations)
unfolding simulate new_match
refused = refl

simulate-err_example :
    validate_simulation_params halves one_sided 2 (negsuc 4) (some zeros) ≡ err negative_simulations
unfolding new_match
simulate-err_example =
    simulate-err halves 12 (new_match B default_format) one_sided 2 (negsuc 4) (some zeros) 0
      negative_simulations default-IsPlayable (new_match-Inv B default_format default-IsPlayable)
      refl refused
