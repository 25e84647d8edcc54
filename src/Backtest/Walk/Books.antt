-- ===== src/Backtest/Walk/Books.antt =====
-- tennis/cmd/backtestbets/backtest.go: the books after the walk of single bets.
use calculated_tennis.Base.{
  ℕ, suc, ◌+◌, ◌≡◌, refl, subst, Bool, true, false, not, Option, none, some, List, [], ◌∷◌, length,
  if_case, Result, Text, Float64, arith, All, ℤ,
}
use calculated_tennis.Base.Draws.{
  Draws, and_then, ◌>>=◌, pure, of_result, Ends, Ends-errors, and_then-Ends, of_result-Ends,
}
use calculated_tennis.Tennis.Simulation.{Rates, Rng}
use calculated_tennis.MoneyManager.Decimals.{Decimal}
use calculated_tennis.TennisAbstract.Dates.{Time}
use calculated_tennis.TennisAbstract.Surfaces.{Process}
use calculated_tennis.TennisAbstract.Form.{FormOptions, no_options, form_options_from_env}
use calculated_tennis.TennisAbstract.Rates.{
  MatchWithOdds, PlayerRatesMap, Client, match_with_odds_player_rates,
}
use calculated_tennis.TennisAbstract.Sides.{Decision, decide_favorite_bet}
use calculated_tennis.Backtest.Config.{BacktestConfig}
use calculated_tennis.Backtest.Config.Usable.{IsUsable}
use calculated_tennis.Backtest.Log.{Track}
use calculated_tennis.Backtest.Stakes.{Conversions, Allocator}
use calculated_tennis.Backtest.Singles.{
  BacktestError, SimDecision, simulate_and_decide, try_place_sim_bet, place_favorite,
  try_place_favorite_bet, BacktestRunResult, MmWalkAllocators, walk_form, walk_match,
  walk_backtests_singles,
}
use calculated_tennis.Backtest.Accounting.{
  Allows, IsBooked, skip_match-IsBooked, guarded_bet-IsBooked, try_place_sim_bet-IsBooked,
}
use calculated_tennis.Backtest.Walk.{
  IsOfSimulation, Anything, Simulates, HasOdds, simulate_and_decide-Ends,
}

module _ (R : Float64) (M : Decimal) (cfg : BacktestConfig R) (usable : IsUsable R M cfg) where
  module _ (C : Conversions R M) (format_float : R.F → ℕ → Text) where
    -- The books of the three tracks after `n` matches.
    pub record AreBooked (n : ℕ) (out : BacktestRunResult R M C format_float) : Type 0 where
      pub of_sim : IsBooked R n out.sim
      pub of_form : IsBooked R n out.sim_form
      pub of_favorite : IsBooked R n out.favorite

    -- The errors are those of simulations, and those of which `Q` holds besides.
    module _ (Q : BacktestError → Type 0)
        (of_sim : (e : BacktestError) → IsOfSimulation e → Q e) where
      simulated :
          (fuel : ℕ) (m : MatchWithOdds R) (r : Rates R) (rng : Rng R) (t : ℕ)
          → HasOdds R m
          → Simulates R cfg fuel rng m r
          → Ends Q Anything (simulate_and_decide R fuel m r cfg rng t)
      simulated fuel m r rng t o s =
          Ends-errors IsOfSimulation Q Anything (simulate_and_decide R fuel m r cfg rng t) of_sim
            (simulate_and_decide-Ends R M cfg usable fuel m r rng t o s)

      place_favorite-Ends :
          (n : ℕ) (alloc : Option (Allocator R M C)) (track : Track R) (m : MatchWithOdds R)
          (wins : ℤ) (d : Decision R) (t : ℕ)
          → Allows R M C format_float Q alloc
          → (d ≡ none → ⊥)
          → IsBooked R n track
          → Ends Q
              (IsBooked R (suc n))
              (of_result (place_favorite R M C format_float cfg alloc track m wins d) t)
      unfolding place_favorite
      place_favorite-Ends n alloc track m wins none t q h b = absurd (h refl)
      place_favorite-Ends n alloc track m wins (some (side, odds)) t q h b =
          of_result-Ends Q (IsBooked R (suc n)) _ t
            (guarded_bet-IsBooked R M C format_float Q n cfg alloc track m side odds _ q b)

      favorite-Some :
          (m : MatchWithOdds R) → HasOdds R m → decide_favorite_bet R m.avg_w m.avg_l ≡ none → ⊥
      unfolding decide_favorite_bet
      favorite-Some m o h = ground (arith, o.winner, o.loser)

      try_place_favorite_bet-Ends :
          (n : ℕ) (alloc : Option (Allocator R M C)) (track : Track R) (m : MatchWithOdds R)
          (d : SimDecision R) (t : ℕ)
          → Allows R M C format_float Q alloc
          → HasOdds R m
          → IsBooked R n track
          → Ends Q
              (IsBooked R (suc n))
              (of_result (try_place_favorite_bet R M C format_float cfg alloc track m d) t)
      unfolding try_place_favorite_bet
      try_place_favorite_bet-Ends n alloc track m d t q o b =
          let favorite = decide_favorite_bet R m.avg_w m.avg_l in
          if_case
            (λ (r : Result BacktestError (Track R)). Ends Q (IsBooked R (suc n)) (of_result r t))
            (not d.bet) (λ e. skip_match-IsBooked R M C format_float n track m _ R.zero R.zero b)
            (λ e. place_favorite-Ends n alloc track m d.wins_a favorite t q (favorite-Some m o) b)

      module _ (P : Process R) (now : Time) (client : Client R) where
        walk_form-Ends :
            (fuel n : ℕ) (alloc : Option (Allocator R M C)) (rng : Rng R) (m : MatchWithOdds R)
            (r : Option (Rates R)) (track : Track R) (t : ℕ)
            → Allows R M C format_float Q alloc
            → HasOdds R m
            → ((rates : Rates R) → r ≡ some rates → Simulates R cfg fuel rng m rates)
            → IsBooked R n track
            → Ends Q
                (IsBooked R (suc n))
                (walk_form R M C format_float P now client fuel cfg alloc rng m r track t)
        unfolding walk_form
        walk_form-Ends fuel n alloc rng m none track t q o s b =
            skip_match-IsBooked R M C format_float n track m _ R.zero R.zero b
        walk_form-Ends fuel n alloc rng m (some rates) track t q o s b =
            and_then-Ends Q Anything (IsBooked R (suc n))
              (simulate_and_decide R fuel m rates cfg rng t)
              (λ d. of_result (try_place_sim_bet R M C format_float cfg alloc track m d))
              (simulated fuel m rates rng t o (s rates refl))
              (λ d u e.
                of_result-Ends Q (IsBooked R (suc n)) _ u
                  (try_place_sim_bet-IsBooked R M C format_float Q n cfg alloc track m d q b))

        module _ (fuel : ℕ) (allocs : MmWalkAllocators R M C format_float)
            (rates : PlayerRatesMap R) (rng : Rng R) where
          abbrev of_match : MatchWithOdds R → Bool → FormOptions R → Option (Rates R)
          of_match m form opts = match_with_odds_player_rates R P now client m rates form opts

          abbrev pub AreAllowed : Type 0
          AreAllowed =
              Allows R M C format_float Q allocs.sim
              × Allows R M C format_float Q allocs.favorite
              × Allows R M C format_float Q allocs.sim_form

          -- A match with odds, whose simulations end, with season rates and with form.
          pub record IsPlayable (m : MatchWithOdds R) : Type 0 where
            pub has_odds : HasOdds R m
            pub season :
                (r : Rates R)
                → match_with_odds_player_rates R P now client m rates false (no_options R) ≡ some r
                → Simulates R cfg fuel rng m r
            pub form :
                (r : Rates R)
                → match_with_odds_player_rates R P now client m rates true
                    (form_options_from_env R P m.surface)
                  ≡ some r
                → Simulates R cfg fuel rng m r

          walk_match-AreBooked :
              (n : ℕ) (m : MatchWithOdds R) (base : Option (Rates R))
              (out : BacktestRunResult R M C format_float) (t : ℕ)
              → AreAllowed
              → IsPlayable m
              → ((r : Rates R) → base ≡ some r → Simulates R cfg fuel rng m r)
              → AreBooked n out
              → Ends Q (AreBooked (suc n)) (
                  walk_match R M C format_float P now client fuel cfg allocs rates rng m base out t)
          unfolding walk_match
          walk_match-AreBooked n m none out t q p s b = record {
            of_sim = skip_match-IsBooked R M C format_float n out.sim m _ R.zero R.zero b.of_sim;
            of_form =
                skip_match-IsBooked R M C format_float n out.sim_form m _ R.zero R.zero b.of_form;
            of_favorite =
                skip_match-IsBooked R M C format_float n out.favorite m _ R.zero R.zero
                  b.of_favorite;
          }
          walk_match-AreBooked n m (some base) out t q p s b =
              let form = of_match m true (form_options_from_env R P m.surface) in
              let Track' = Draws BacktestError (Track R) in
              let Run = Draws BacktestError (BacktestRunResult R M C format_float) in
              let bet_sim : SimDecision R → Track' =
                λ d. of_result (try_place_sim_bet R M C format_float cfg allocs.sim out.sim m d) in
              let bet_favorite : SimDecision R → Track' = λ d.
                of_result (
                  try_place_favorite_bet R M C format_float cfg allocs.favorite out.favorite m d) in
              let walk_last : Track' =
                walk_form R M C format_float P now client fuel cfg allocs.sim_form rng m form
                  out.sim_form in
              let finish : Track R → Track R → Track R → BacktestRunResult R M C format_float =
                λ sim favorite form. record { sim = sim; sim_form = form; favorite = favorite } in
              let last : Track R → Track R → Run =
                λ sim favorite. walk_last >>= λ form. pure (finish sim favorite form) in
              let next : SimDecision R → Track R → Run = λ d sim. bet_favorite d >>= last sim in
              let Books = AreBooked (suc n) in
              let Booked = IsBooked R (suc n) in
              and_then-Ends Q Anything Books (simulate_and_decide R fuel m base cfg rng t)
                (λ d. bet_sim d >>= next d) (simulated fuel m base rng t p.has_odds (s base refl))
                (λ d u e.
                  and_then-Ends Q Booked Books (bet_sim d u) (next d)
                    (of_result-Ends Q Booked _ u (
                      try_place_sim_bet-IsBooked R M C format_float Q n cfg allocs.sim out.sim m d
                        q.0 b.of_sim))
                    (λ sim v g.
                      and_then-Ends Q Booked Books (bet_favorite d v) (last sim)
                        (try_place_favorite_bet-Ends n allocs.favorite out.favorite m d v q.1
                          p.has_odds b.of_favorite)
                        (λ favorite w f.
                          and_then-Ends Q Booked Books (walk_last w)
                            (λ form. pure (finish sim favorite form))
                            (walk_form-Ends fuel n allocs.sim_form rng m form out.sim_form w q.2
                              p.has_odds p.form b.of_form)
                            (λ form x h. record { of_sim = g; of_form = h; of_favorite = f }))))

          pub walk_backtests_singles-AreBooked :
              (n : ℕ) (ms : List (MatchWithOdds R)) (out : BacktestRunResult R M C format_float)
              (t : ℕ)
              → AreAllowed
              → All IsPlayable ms
              → AreBooked n out
              → Ends Q (AreBooked (n + length ms)) (
                  walk_backtests_singles R M C format_float P now client fuel cfg allocs rates rng
                    ms out t)
          unfolding walk_backtests_singles
          walk_backtests_singles-AreBooked n [] out t q p b =
              subst (λ k. AreBooked k out) (omega arith) b
          walk_backtests_singles-AreBooked n (m ∷ ms) out t q p b =
              let rest =
                walk_backtests_singles R M C format_float P now client fuel cfg allocs rates rng
                  ms in
              let base = of_match m false (no_options R) in
              subst
                (λ k. Ends Q (AreBooked k) (
                  and_then
                    (walk_match R M C format_float P now client fuel cfg allocs rates rng m base out
                      t)
                    rest))
                (omega arith)
                (and_then-Ends Q (AreBooked (suc n)) (AreBooked (suc n + length ms))
                  (walk_match R M C format_float P now client fuel cfg allocs rates rng m base out
                    t)
                  rest (walk_match-AreBooked n m base out t q p.0 p.0.season b)
                  (λ next u e. walk_backtests_singles-AreBooked (suc n) ms next u q p.1 e))
