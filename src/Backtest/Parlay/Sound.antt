-- ===== src/Backtest/Parlay/Sound.antt =====
-- tennis/cmd/backtestbets/parlay.go: what a chosen window is.
use calculated_tennis.Base.{
  ℕ, zero, suc, min, ◌≤◌, ◌≡◌, refl, subst, true, false, Option, none, some, List, [], ◌∷◌, length,
  text_test_iff, ==_iff, ℤ, eqℤ_eq, Float64, arith, All, if_case,
}
use calculated_tennis.Base.Options.{Holds}
use calculated_tennis.Base.Draws.{Draws, pure, Ends, and_then-Ends}
use calculated_tennis.Base.Sorting.{take, All-take}
use calculated_tennis.Tennis.Simulation.{Rates, Rng}
use calculated_tennis.MoneyManager.Decimals.{Decimal}
use calculated_tennis.TennisAbstract.Dates.{Time}
use calculated_tennis.TennisAbstract.Surfaces.{Process}
use calculated_tennis.TennisAbstract.Rates.{MatchWithOdds, PlayerRatesMap, Client}
use calculated_tennis.TennisAbstract.Sides.{
  Decision, bad_counts, decide_sim_favored_side, decide_favorite_bet,
}
use calculated_tennis.Backtest.Config.{BacktestConfig}
use calculated_tennis.Backtest.Config.Usable.{IsUsable}
use calculated_tennis.Backtest.Singles.{BacktestError, simulated_wins}
use calculated_tennis.Backtest.Walk.{IsOfSimulation, Simulates, simulated_wins-Counted}
use calculated_tennis.Backtest.Parlay.Legs.{
  ParlayStrategy, strategy_sim, strategy_favorite, strategy_sim_form, ParlayMatchKey, same_key,
  parlay_match_key_of, ParlayLeg, Cache, cached, decide_leg, leg_of, rates_for, leg_by, build_leg,
  keep, look_up, eval_leg,
}
use calculated_tennis.Backtest.Parlay.Window.{
  parlay_ev_allowed, at_most, with_leg, cons_leg, check_window, build_parlay_legs, try_windows,
  select_parlay_window,
}

same_key_eq : (k l : ParlayMatchKey) → same_key k l ≡ true → k ≡ l
same_key_eq k l h =
    let a : k.tourney_id ≡ l.tourney_id = ground (arith, text_test_iff k.tourney_id l.tourney_id) in
    let b : k.tourney_date ≡ l.tourney_date =
      ground (arith, ==_iff k.tourney_date l.tourney_date) in
    let c : k.match_num ≡ l.match_num = eqℤ_eq k.match_num l.match_num (ground arith) in
    λ i. record { tourney_id = a i; tourney_date = b i; match_num = c i }

module _ (R : Float64) where
  -- A leg on the match of a key, at positive odds.
  pub record IsLegOf (key : ParlayMatchKey) (leg : ParlayLeg R) : Type 0 where
    pub keyed : parlay_match_key_of R leg.of_match ≡ key
    pub priced : R.le leg.odds R.zero ≡ false

  -- The legs of the matches of a list, in order.
  abbrev pub AreLegsOf : List (MatchWithOdds R) → List (ParlayLeg R) → Type 0
  AreLegsOf [] [] = Unit
  AreLegsOf [] (leg ∷ legs) = ⊥
  AreLegsOf (m ∷ ms) [] = ⊥
  AreLegsOf (m ∷ ms) (leg ∷ legs) = IsLegOf (parlay_match_key_of R m) leg × AreLegsOf ms legs

  -- Every entry of the cache is a leg of its key.
  abbrev pub IsCoherent : Cache R → Type 0
  IsCoherent cache = All (λ e. IsLegOf e.0 e.1) cache

  cached-IsLegOf :
      (cache : Cache R) (key : ParlayMatchKey)
      → IsCoherent cache
      → Holds (IsLegOf key) (cached R cache key)
  cached-IsLegOf [] key h = tt
  cached-IsLegOf ((k, leg) ∷ rest) key h =
      let here =
        λ (e : same_key k key ≡ true). subst (λ k. IsLegOf k leg) (same_key_eq k key e) h.0 in
      if_case (Holds (IsLegOf key)) (same_key k key) here (λ e. cached-IsLegOf rest key h.1)

  -- The odds of a decision are positive.
  abbrev IsPriced : Decision R → Type 0
  IsPriced d = Holds (λ b. R.le b.1 R.zero ≡ false) d

  decide_leg-IsPriced :
      (cfg : BacktestConfig R) (strategy : ParlayStrategy) (m : MatchWithOdds R) (n : ℤ)
      → IsPriced (decide_leg R strategy cfg m n)
  unfolding decide_sim_favored_side decide_favorite_bet
  decide_leg-IsPriced cfg strategy_sim m n = ground arith
  decide_leg-IsPriced cfg strategy_sim_form m n = ground arith
  decide_leg-IsPriced cfg strategy_favorite m n = ground arith

  leg_of-IsLegOf :
      (cfg : BacktestConfig R) (m : MatchWithOdds R) (n : ℤ) (d : Decision R)
      → IsPriced d
      → Holds (IsLegOf (parlay_match_key_of R m)) (leg_of R cfg m n d)
  leg_of-IsLegOf cfg m n none h = tt
  leg_of-IsLegOf cfg m n (some (side, odds)) h = record { keyed = refl; priced = h }

  module _ (M : Decimal) (cfg : BacktestConfig R) (usable : IsUsable R M cfg) where
    -- A window of the matches: at least one, no more than there are and than are allowed, each with
    -- a leg at positive odds, and with the expected value that the configuration requires.
    pub record IsWindow (ms : List (MatchWithOdds R)) (legs : List (ParlayLeg R)) (k : ℕ)
        : Type 0 where
      pub some_leg : 1 ≤ k
      pub fits : k ≤ length ms
      pub permitted : k ≤ at_most R cfg.max_parlay_matches
      pub legged : AreLegsOf (take k ms) legs
      pub allowed : parlay_ev_allowed R cfg legs ≡ true

    module _ (P : Process R) (now : Time) (client : Client R) (rates : PlayerRatesMap R) (fuel : ℕ)
        (rng : Rng R) (strategy : ParlayStrategy) where
      -- The simulations of a match with the strategy's rates end.
      abbrev pub IsAnswered : MatchWithOdds R → Type 0
      IsAnswered m =
          (r : Rates R)
          → rates_for R P now client rates strategy m ≡ some r
          → Simulates R cfg fuel rng m r

      leg_by-Ends :
          (m : MatchWithOdds R) (o : Option (Rates R)) (t : ℕ)
          → ((r : Rates R) → o ≡ some r → Simulates R cfg fuel rng m r)
          → Ends IsOfSimulation
              (Holds (IsLegOf (parlay_match_key_of R m)))
              (leg_by R P now client rates fuel cfg rng strategy m o t)
      unfolding leg_by
      leg_by-Ends m none t s = tt
      leg_by-Ends m (some r) t s =
          and_then-Ends IsOfSimulation (λ n. bad_counts R n cfg.sims ≡ false)
            (Holds (IsLegOf (parlay_match_key_of R m))) (simulated_wins R fuel m r cfg rng t)
            (λ n. pure (leg_of R cfg m n (decide_leg R strategy cfg m n)))
            (simulated_wins-Counted R M cfg usable fuel m r rng t (s r refl))
            (λ n u e. leg_of-IsLegOf cfg m n _ (decide_leg-IsPriced cfg strategy m n))

      abbrev pub IsEvaluated : MatchWithOdds R → Option (ParlayLeg R) × Cache R → Type 0
      IsEvaluated m r = Holds (IsLegOf (parlay_match_key_of R m)) r.0 × IsCoherent r.1

      keep-IsEvaluated :
          (m : MatchWithOdds R) (cache : Cache R) (leg : Option (ParlayLeg R))
          → IsCoherent cache
          → Holds (IsLegOf (parlay_match_key_of R m)) leg
          → IsEvaluated m
              (keep R P now client rates fuel cfg rng strategy cache (parlay_match_key_of R m) leg)
      keep-IsEvaluated m cache none c h = (tt, c)
      keep-IsEvaluated m cache (some leg) c h = (h, (h, c))

      look_up-Ends :
          (m : MatchWithOdds R) (cache : Cache R) (found : Option (ParlayLeg R)) (t : ℕ)
          → IsAnswered m
          → IsCoherent cache
          → Holds (IsLegOf (parlay_match_key_of R m)) found
          → Ends IsOfSimulation
              (IsEvaluated m)
              (look_up R P now client rates fuel cfg rng strategy cache m found t)
      unfolding look_up build_leg
      look_up-Ends m cache (some leg) t s c h = (h, c)
      look_up-Ends m cache none t s c h =
          and_then-Ends IsOfSimulation (Holds (IsLegOf (parlay_match_key_of R m))) (IsEvaluated m)
            (build_leg R P now client rates fuel cfg rng strategy m t)
            (λ leg.
              pure (
                keep R P now client rates fuel cfg rng strategy cache (parlay_match_key_of R m)
                  leg))
            (leg_by-Ends m (rates_for R P now client rates strategy m) t s)
            (λ leg u e. keep-IsEvaluated m cache leg c e)

      pub eval_leg-Ends :
          (m : MatchWithOdds R) (cache : Cache R) (t : ℕ)
          → IsAnswered m
          → IsCoherent cache
          → Ends IsOfSimulation
              (IsEvaluated m)
              (eval_leg R P now client rates fuel cfg rng strategy cache m t)
      unfolding eval_leg
      eval_leg-Ends m cache t s c =
          let key = parlay_match_key_of R m in
          look_up-Ends m cache (cached R cache key) t s c (cached-IsLegOf cache key c)

      abbrev IsBuilt : List (MatchWithOdds R) → Option (List (ParlayLeg R)) × Cache R → Type 0
      IsBuilt ms r = Holds (AreLegsOf ms) r.0 × IsCoherent r.1

      cons_leg-IsBuilt :
          (m : MatchWithOdds R) (ms : List (MatchWithOdds R)) (leg : ParlayLeg R)
          (r : Option (List (ParlayLeg R)) × Cache R)
          → IsLegOf (parlay_match_key_of R m) leg
          → IsBuilt ms r
          → IsBuilt (m ∷ ms) (cons_leg R P now client rates fuel cfg rng strategy leg r)
      cons_leg-IsBuilt m ms leg (none, cache) h b = (tt, b.1)
      cons_leg-IsBuilt m ms leg (some legs, cache) h b = ((h, b.0), b.1)

      with_leg-Ends :
          (m : MatchWithOdds R) (ms : List (MatchWithOdds R))
          (later : Cache R → Draws BacktestError (Option (List (ParlayLeg R)) × Cache R))
          (e : Option (ParlayLeg R) × Cache R) (t : ℕ)
          → ((d : Cache R) (u : ℕ) → IsCoherent d → Ends IsOfSimulation (IsBuilt ms) (later d u))
          → IsEvaluated m e
          → Ends IsOfSimulation
              (IsBuilt (m ∷ ms))
              (with_leg R P now client rates fuel cfg rng strategy later e t)
      with_leg-Ends m ms later (none, cache) t b h = (tt, h.1)
      with_leg-Ends m ms later (some leg, cache) t b h =
          and_then-Ends IsOfSimulation (IsBuilt ms) (IsBuilt (m ∷ ms)) (later cache t)
            (λ r. pure (cons_leg R P now client rates fuel cfg rng strategy leg r)) (b cache t h.1)
            (λ r u e. cons_leg-IsBuilt m ms leg r h.0 e)

      build_parlay_legs-Ends :
          (ms : List (MatchWithOdds R)) (cache : Cache R) (t : ℕ)
          → All IsAnswered ms
          → IsCoherent cache
          → Ends IsOfSimulation
              (IsBuilt ms)
              (build_parlay_legs R P now client rates fuel cfg rng strategy ms cache t)
      unfolding build_parlay_legs
      build_parlay_legs-Ends [] cache t s c = (tt, c)
      build_parlay_legs-Ends (m ∷ ms) cache t s c =
          let later = build_parlay_legs R P now client rates fuel cfg rng strategy ms in
          and_then-Ends IsOfSimulation (IsEvaluated m) (IsBuilt (m ∷ ms))
            (eval_leg R P now client rates fuel cfg rng strategy cache m t)
            (with_leg R P now client rates fuel cfg rng strategy later)
            (eval_leg-Ends m cache t s.0 c)
            (λ e u h. with_leg-Ends m ms later e u (λ d v k. build_parlay_legs-Ends ms d v s.1 k) h)

      -- A selection from the matches.
      abbrev pub IsSelected :
          List (MatchWithOdds R) → Option (List (ParlayLeg R) × ℕ) × Cache R → Type 0
      IsSelected ms r = Holds (λ w. IsWindow ms w.0 w.1) r.0 × IsCoherent r.1

      check_window-Ends :
          (ms : List (MatchWithOdds R)) (k : ℕ)
          (smaller : Cache R → Draws BacktestError (Option (List (ParlayLeg R) × ℕ) × Cache R))
          (r : Option (List (ParlayLeg R)) × Cache R) (t : ℕ)
          → 1 ≤ k
          → k ≤ length ms
          → k ≤ at_most R cfg.max_parlay_matches
          → ((d : Cache R) (u : ℕ)
              → IsCoherent d
              → Ends IsOfSimulation (IsSelected ms) (smaller d u))
          → IsBuilt (take k ms) r
          → Ends IsOfSimulation
              (IsSelected ms)
              (check_window R P now client rates fuel cfg rng strategy smaller k r t)
      check_window-Ends ms k smaller (none, cache) t one fits limit s h = s cache t h.1
      check_window-Ends ms k smaller (some legs, cache) t one fits limit s h =
          let chosen : parlay_ev_allowed R cfg legs ≡ true → IsWindow ms legs k = λ allowed.
            record {
              some_leg = one;
              fits = fits;
              permitted = limit;
              legged = h.0;
              allowed = allowed;
            } in
          if_case
            (λ (next : Draws BacktestError (Option (List (ParlayLeg R) × ℕ) × Cache R)).
              Ends IsOfSimulation (IsSelected ms) (next t))
            (parlay_ev_allowed R cfg legs) (λ e. (chosen e, h.1)) (λ e. s cache t h.1)

      try_windows-Ends :
          (k : ℕ) (ms : List (MatchWithOdds R)) (cache : Cache R) (t : ℕ)
          → All IsAnswered ms
          → k ≤ length ms
          → k ≤ at_most R cfg.max_parlay_matches
          → IsCoherent cache
          → Ends IsOfSimulation
              (IsSelected ms)
              (try_windows R P now client rates fuel cfg rng strategy k ms cache t)
      unfolding try_windows
      try_windows-Ends zero ms cache t s fits limit c = (tt, c)
      try_windows-Ends (suc k) ms cache t s fits limit c =
          let smaller = try_windows R P now client rates fuel cfg rng strategy k ms in
          and_then-Ends IsOfSimulation (IsBuilt (take (suc k) ms)) (IsSelected ms)
            (build_parlay_legs R P now client rates fuel cfg rng strategy (take (suc k) ms) cache t)
            (check_window R P now client rates fuel cfg rng strategy smaller (suc k))
            (build_parlay_legs-Ends (take (suc k) ms) cache t (All-take IsAnswered (suc k) ms s) c)
            (λ r u h.
              check_window-Ends ms (suc k) smaller r u (omega arith) fits limit
                (λ d v e. try_windows-Ends k ms d v s (omega arith) (omega arith) e) h)

      -- With a configuration as `validate` leaves it, if the simulations of the matches end and
      -- every leg in the cache is under the key of its match: the choice of a window ends, at worst
      -- with an error of a simulation. The chosen legs, where there are any, are those of the next
      -- matches in order, by their keys, at positive odds, at least one, at most as many as are
      -- allowed, and together of positive expected value where that is required; and the cache is
      -- still right.
      pub select_parlay_window-Ends :
          (ms : List (MatchWithOdds R)) (cache : Cache R) (t : ℕ)
          → All IsAnswered ms
          → IsCoherent cache
          → Ends IsOfSimulation
              (IsSelected ms)
              (select_parlay_window R P now client rates fuel cfg rng strategy ms cache t)
      unfolding select_parlay_window
      select_parlay_window-Ends ms cache t s c =
          let m = at_most R cfg.max_parlay_matches in
          try_windows-Ends (min m (length ms)) ms cache t s (omega arith) (omega arith) c
