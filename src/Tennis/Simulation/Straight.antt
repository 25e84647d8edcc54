-- ===== src/Tennis/Simulation/Straight.antt =====
-- tennis/tennis/simulate.go: a match in which one side takes everything ends, and is counted for it.
use calculated_tennis.Base.{
  ℕ, zero, suc, ◌+◌, ◌-◌, ◌*◌, ◌≤◌, ◌<◌, ◌≡◌, refl, true, false, Option, some, ok, Float64, arith,
  ◌∙◌, sym, ap, subst, pos, Result,
}
use calculated_tennis.Tennis.State.{
  Player, A, B, opponent, Tally, get, increment, zero_tally, MatchFormat, Match, new_match, regular,
}
use calculated_tennis.Tennis.Rules.{complete_set, win_game}
use calculated_tennis.Tennis.Simulation.{
  SimulationError, applied, apply_simulated_point, of_result, Rates, server_win_prob, point_winner,
  simulate_point, run_once, simulate, simulate_runs, pure, validate_simulation_params,
}
use calculated_tennis.Tennis.Simulation.Play.{apply_live}
use calculated_tennis.Tennis.Simulation.Runs.{run_once_over, run_once_live}

-- `w` has won `k` sets and `j` games of the next, and lost no game of it.
pub record Straight (f : MatchFormat) (w : Player) (k j : ℕ) (m : Match) : Type 0 where
  pub same : m.format ≡ f
  pub live : m.done ≡ false
  pub games : m.current.phase ≡ regular
  pub won : get m.current.games w ≡ j
  pub lost : get m.current.games (opponent w) ≡ 0
  pub sets : get m.sets_won w ≡ k

later :
    {w : Player} {t u : ℕ}
    → t ≡ u
    → ◌≡◌ {A = Option (Result SimulationError (Player × ℕ))} (some (ok (w, t))) (some (ok (w, u)))
later e = rw e

abbrev next : Match → Player → Match
next m w = (apply_simulated_point m w).0

-- A set to 0 is a win under the format.
pub record IsWinnable (f : MatchFormat) : Type 0 where
  pub some_game : 1 ≤ f.games_per_set
  pub by_all : f.game_margin ≤ f.games_per_set
  pub before_tiebreak : 1 ≤ f.tiebreak_at_games_each

format_fields :
    {f g : MatchFormat}
    → f ≡ g
    → (f.sets_to_win ≡ g.sets_to_win)
      × (f.games_per_set ≡ g.games_per_set)
      × (f.game_margin ≡ g.game_margin)
      × (f.tiebreak_at_games_each ≡ g.tiebreak_at_games_each)
format_fields e = (
  ap (λ f. f.sets_to_win) e,
  ap (λ f. f.games_per_set) e,
  ap (λ f. f.game_margin) e,
  ap (λ f. f.tiebreak_at_games_each) e,
)

module _ (f : MatchFormat) (v : IsWinnable f) where
  Straight-game :
      (w : Player) (k j : ℕ) (m : Match)
      → Straight f w k j m
      → suc j < f.games_per_set
      → Straight f w k (suc j) (next m w)
  unfolding apply_simulated_point win_game opponent
  Straight-game A k j m s h = let e = s.same in ground (arith, format_fields e)
  Straight-game B k j m s h = let e = s.same in ground (arith, format_fields e)

  Straight-set :
      (w : Player) (k j : ℕ) (m : Match)
      → Straight f w k j m
      → suc j ≡ f.games_per_set
      → suc k < f.sets_to_win
      → Straight f w (suc k) 0 (next m w)
  unfolding apply_simulated_point win_game opponent complete_set
  Straight-set A k j m s h g = ground (arith, format_fields s.same)
  Straight-set B k j m s h g = ground (arith, format_fields s.same)

  Straight-match :
      (w : Player) (k j : ℕ) (m : Match)
      → Straight f w k j m
      → suc j ≡ f.games_per_set
      → suc k ≡ f.sets_to_win
      → ((next m w).done ≡ true) × ((next m w).winner ≡ some w)
  unfolding apply_simulated_point win_game opponent complete_set
  Straight-match A k j m s h g = ground (arith, format_fields s.same)
  Straight-match B k j m s h g = ground (arith, format_fields s.same)

games_total : (s g : ℕ) → 1 ≤ s → 1 ≤ g → (s - 1) * g + suc (g - 1) ≡ s * g
games_total zero g h k = absurd (omega arith)
games_total (suc s) g h k = let e : suc s - 1 ≡ s = omega arith in rw e (omega arith)

fresh-Straight : (f : MatchFormat) (w p : Player) → Straight f w 0 0 (new_match p f)
unfolding new_match opponent
fresh-Straight f A p = record {
  same = refl;
  live = refl;
  games = refl;
  won = refl;
  lost = refl;
  sets = refl;
}
fresh-Straight f B p = record {
  same = refl;
  live = refl;
  games = refl;
  won = refl;
  lost = refl;
  sets = refl;
}

get_zero : (w : Player) → get zero_tally w ≡ 0
get_zero A = refl
get_zero B = refl

-- `n` more wins of `w`.
abbrev credit : ℕ → Player → Tally → Tally
credit zero w wins = wins
credit (suc n) w wins = credit n w (increment wins w)

credit_lem :
    (n : ℕ) (w : Player) (wins : Tally)
    → (get (credit n w wins) w ≡ n + get wins w)
      × (get (credit n w wins) (opponent w) ≡ get wins (opponent w))
unfolding opponent
credit_lem zero w wins = (omega arith, refl)
credit_lem (suc n) A wins = let ih = credit_lem n A (increment wins A) in (omega arith, ih.1)
credit_lem (suc n) B wins = let ih = credit_lem n B (increment wins B) in (omega arith, ih.1)

module _ (R : Float64) (rates : Rates R) (alpha : R.F) (draws : ℕ → R.F) where
  -- Whatever the match and the place in the sequence, the number drawn gives the point to `w`.
  abbrev pub Favours : Player → Type 0
  Favours w =
      (m : Match) (t : ℕ)
      → (p : R.F) × (server_win_prob R m rates alpha ≡ ok p) × (point_winner R m p (draws t) ≡ w)

  favoured_point :
      (w : Player) (m : Match) (t : ℕ)
      → Favours w
      → m.done ≡ false
      → simulate_point R m rates alpha draws t ≡ some (ok (next m w, t + 1))
  unfolding simulate_point
  favoured_point w m t fav live =
      let (p, e, h) = fav m t in
      rw e (
        subst
          (λ q.
            of_result (applied (apply_simulated_point m q)) (t + 1) ≡ some (ok (next m w, t + 1)))
          (sym h) (rw (apply_live m w live)))

  -- A valid simulation of a live match is the loop over its copies.
  simulate_of_runs :
      (fuel n : ℕ) (p : Player) (f : MatchFormat) (t : ℕ)
      → validate_simulation_params R rates alpha (pos n) (some draws) ≡ ok tt
      → simulate R fuel (some (new_match p f)) rates alpha (pos n) (some draws) t
        ≡ simulate_runs R fuel (pure (new_match p f)) rates alpha (some draws) n zero_tally t
  unfolding simulate new_match
  simulate_of_runs fuel n p f t valid = rw valid

  module _ (f : MatchFormat) (v : IsWinnable f) (w : Player) (fav : Favours w) where
    -- One round: the loop goes on from the match with the point given to `w`.
    favoured_round :
        (fuel : ℕ) (m : Match) (t : ℕ)
        → m.done ≡ false
        → run_once R (suc fuel) m rates alpha draws t
          ≡ run_once R fuel (next m w) rates alpha draws (t + 1)
    favoured_round fuel m t live =
        run_once_live R fuel m rates alpha draws t live ∙ rw (favoured_point w m t fav live)

    -- `r` sets after this one and `d` games after the next are wanting.
    Straight-run :
        (fuel r d k j : ℕ) (m : Match) (t : ℕ)
        → r * f.games_per_set + suc d ≤ fuel
        → f.sets_to_win ≡ suc (r + k)
        → f.games_per_set ≡ suc (d + j)
        → Straight f w k j m
        → run_once R fuel m rates alpha draws t ≡ some (ok (w, t + (r * f.games_per_set + suc d)))
    Straight-run zero r d k j m t h e g s = absurd (omega arith)
    Straight-run (suc fuel) r (suc d) k j m t h e g s =
        favoured_round fuel m t s.live
        ∙ Straight-run fuel r d k (suc j) (next m w) (t + 1) (omega arith) e (omega arith)
            (Straight-game f v w k j m s (omega arith))
        ∙ later (omega arith)
    Straight-run (suc fuel) (suc r) zero k j m t h e g s =
        favoured_round fuel m t s.live
        ∙ Straight-run fuel r j (suc k) 0 (next m w) (t + 1) (omega arith) (omega arith)
            (omega arith) (Straight-set f v w k j m s (omega arith) (omega arith))
        ∙ later (omega arith)
    Straight-run (suc fuel) zero zero k j m t h e g s =
        let (over, won) = Straight-match f v w k j m s (omega arith) (omega arith) in
        favoured_round fuel m t s.live
        ∙ run_once_over R fuel (next m w) rates alpha draws (t + 1) over
        ∙ rw won (later (omega arith))

    -- A simulated match ends, and `w` wins it, after exactly the games of straight sets to 0.
    pub run_once-straight :
        (fuel t : ℕ) (p : Player)
        → f.sets_to_win * f.games_per_set ≤ fuel
        → 1 ≤ f.sets_to_win
        → run_once R fuel (new_match p f) rates alpha draws t
          ≡ some (ok (w, t + f.sets_to_win * f.games_per_set))
    run_once-straight fuel t p h one =
        Straight-run fuel (f.sets_to_win - 1) (f.games_per_set - 1) 0 0 (new_match p f) t
          (omega (arith, games_total f.sets_to_win f.games_per_set one v.some_game)) (omega arith)
          (omega (arith, v.some_game)) (fresh-Straight f w p)
        ∙ later (omega (arith, games_total f.sets_to_win f.games_per_set one v.some_game))

    straight_runs :
        (fuel n t : ℕ) (p : Player) (wins : Tally)
        → f.sets_to_win * f.games_per_set ≤ fuel
        → 1 ≤ f.sets_to_win
        → simulate_runs R fuel (pure (new_match p f)) rates alpha (some draws) n wins t
          ≡ some (ok (credit n w wins, t + n * (f.sets_to_win * f.games_per_set)))
    unfolding simulate_runs
    straight_runs fuel zero t p wins h one = ap (λ u. some (ok (wins, u))) (omega arith)
    straight_runs fuel (suc n) t p wins h one = rw (run_once-straight fuel t p h one) (
        straight_runs fuel n (t + f.sets_to_win * f.games_per_set) p (increment wins w) h one
        ∙ ap (λ u. some (ok (credit n w (increment wins w), u))) (omega arith))

    -- If every number drawn favours one side, simulations from a new match end within sets-to-win
    -- times games-per-set games each, draw exactly that many numbers, and are all counted for that
    -- side.
    pub simulate-straight :
        (fuel n t : ℕ) (p : Player)
        → f.sets_to_win * f.games_per_set ≤ fuel
        → 1 ≤ f.sets_to_win
        → validate_simulation_params R rates alpha (pos n) (some draws) ≡ ok tt
        → (wins : Tally) × (simulate R fuel
              (some (new_match p f))
              rates
              alpha
              (pos n)
              (some draws)
              t
            ≡ some (ok (wins, t + n * (f.sets_to_win * f.games_per_set))))
          × (get wins w ≡ n)
          × (get wins (opponent w) ≡ 0)
    simulate-straight fuel n t p h one valid = (
      credit n w zero_tally,
      simulate_of_runs fuel n p f t valid ∙ straight_runs fuel n t p zero_tally h one,
      omega (arith, (credit_lem n w zero_tally).0, get_zero w),
      omega (arith, (credit_lem n w zero_tally).1, get_zero (opponent w)),
    )
