-- ===== src/Backtest/Run/Kept.antt =====
-- tennis/cmd/backtestbets/backtest.go: the books after a whole walk.
use calculated_tennis.Base.{
  ℕ, ◌+◌, refl, subst, Bool, true, false, Option, List, [], ◌∷◌, length, Result, ok, err,
  if◌then◌else◌, if_case, Text, text_test, is_empty, Float64, arith, All,
}
use calculated_tennis.Base.Draws.{Draws, ◌>>=◌, pure, Yields, Ends, and_then-Ends}
use calculated_tennis.Base.Sorting.{filter, All-filter, sort_stable-All, All-map-to}
use calculated_tennis.Tennis.Simulation.{Rng}
use calculated_tennis.MoneyManager.Decimals.{Decimal}
use calculated_tennis.TennisAbstract.Dates.{Time}
use calculated_tennis.TennisAbstract.Surfaces.{Process}
use calculated_tennis.TennisAbstract.Rates.{MatchWithOdds, PlayerRatesMap, Client}
use calculated_tennis.Backtest.Config.{BacktestConfig, parlay}
use calculated_tennis.Backtest.Config.Usable.{IsUsable}
use calculated_tennis.Backtest.Eligible.{
  backtest_match_eligible, filter_backtest_matches, earlier, load_eligible_matches,
}
use calculated_tennis.Backtest.Stats.{no_stats}
use calculated_tennis.Backtest.Log.{Track}
use calculated_tennis.Backtest.Stakes.{Conversions, Allocator, LimitError}
use calculated_tennis.Backtest.Singles.{
  BacktestError, BacktestRunResult, MmWalkAllocators, walk_backtests_singles,
}
use calculated_tennis.Backtest.Accounting.{IsSettled, HasRows, Allows, IsBooked}
use calculated_tennis.Backtest.Walk.{HasOdds, eligible-HasOdds}
use calculated_tennis.Backtest.Walk.Books.{AreBooked, IsPlayable, walk_backtests_singles-AreBooked}
use calculated_tennis.Backtest.Parlay.Legs.{
  ParlayStrategy, strategy_sim, strategy_favorite, strategy_sim_form,
}
use calculated_tennis.Backtest.Parlay.Sound.{IsAnswered}
use calculated_tennis.Backtest.Parlay.Track.{walk_parlay_track, walk_backtests_parlay}
use calculated_tennis.Backtest.Parlay.Books.{IsParlayBooked, walk_parlay_track-IsParlayBooked}
use calculated_tennis.Backtest.Run.Panics.{
  IsExplained, of_simulation-IsExplained, AllAllow, new_mm_walk_allocators-Yields,
}
use calculated_tennis.Backtest.Run.{
  new_log, new_track, new_mm_walk_allocators, error_of_limits, walk_by_mode, walk_backtests,
  run_backtests,
}

module _ (R : Float64) (M : Decimal) (cfg : BacktestConfig R) (usable : IsUsable R M cfg)
    (C : Conversions R M) (format_float : R.F → ℕ → Text) where
  -- The books of the three tracks after `n` matches, of parlays or of single bets.
  abbrev pub AreKept : Bool → ℕ → BacktestRunResult R M C format_float → Type 0
  AreKept true n out =
      IsParlayBooked R M cfg n out.sim
      × IsParlayBooked R M cfg n out.favorite
      × IsParlayBooked R M cfg n out.sim_form
  AreKept false n out = AreBooked R M cfg usable C format_float n out

  fresh-IsSettled : (n : ℕ) → IsSettled R (no_stats R n)
  fresh-IsSettled n = record {
    settled = refl;
    on_surfaces = omega arith;
    won_on_surfaces = omega arith;
    hard_wins = omega arith;
    clay_wins = omega arith;
    grass_wins = omega arith;
  }

  new_log-HasRows : HasRows R 0 (new_log R M C format_float cfg)
  new_log-HasRows = if_case (HasRows R 0) (is_empty cfg.bet_log_dir) (λ e. tt) (λ e. refl)

  new_track-IsBooked : (n : ℕ) → IsBooked R 0 (new_track R M C format_float cfg n)
  new_track-IsBooked n = record {
    settled = fresh-IsSettled n;
    counted = refl;
    no_legs = refl;
    rows = new_log-HasRows;
  }

  new_track-IsParlayBooked : (n : ℕ) → IsParlayBooked R M cfg 0 (new_track R M C format_float cfg n)
  new_track-IsParlayBooked n = record {
    settled = fresh-IsSettled n;
    some_legs = omega arith;
    permitted = omega arith;
    within = omega arith;
    rows = new_log-HasRows;
  }

  abbrev Q : BacktestError → Type 0
  Q = IsExplained R M cfg C

  module _ (P : Process R) (now : Time) (client : Client R) (fuel : ℕ) (rates : PlayerRatesMap R)
      (rng : Rng R) where
    -- The simulations of a match end, with the season's rates and with form.
    abbrev pub IsReady : MatchWithOdds R → Type 0
    IsReady m =
        IsAnswered R M cfg usable P now client rates fuel rng strategy_sim m
        × IsAnswered R M cfg usable P now client rates fuel rng strategy_sim_form m

    eligible-HaveOdds :
        (rows : List (MatchWithOdds R)) → All (HasOdds R) (load_eligible_matches R rows rates)
    unfolding load_eligible_matches filter_backtest_matches
    eligible-HaveOdds rows =
        let kept = filter (backtest_match_eligible R rates) rows in
        sort_stable-All (HasOdds R) (earlier R) kept (
          All-map-to kept (eligible-HasOdds R rates)
            (All-filter (backtest_match_eligible R rates) rows))

    ready-ArePlayable :
        (allocs : MmWalkAllocators R M C format_float) (ms : List (MatchWithOdds R))
        → All (HasOdds R) ms
        → All IsReady ms
        → All
            (IsPlayable R M cfg usable C format_float Q
              (of_simulation-IsExplained R M cfg C)
              P
              now
              client
              fuel
              allocs
              rates
              rng)
            ms
    ready-ArePlayable allocs [] o r = tt
    ready-ArePlayable allocs (m ∷ ms) o r = (
      record { has_odds = o.0; season = r.0.0; form = r.0.1 },
      ready-ArePlayable allocs ms o.1 r.1,
    )

    parlays-AreBooked :
        (strategy : ParlayStrategy) (alloc : Option (Allocator R M C)) (ms : List (MatchWithOdds R))
        (track : Track R) (t : ℕ)
        → Allows R M C format_float Q alloc
        → All (IsAnswered R M cfg usable P now client rates fuel rng strategy) ms
        → IsParlayBooked R M cfg 0 track
        → Ends Q (IsParlayBooked R M cfg (length ms)) (
            walk_parlay_track R M C format_float P now client rates fuel cfg rng strategy alloc ms
              track t)
    parlays-AreBooked strategy alloc ms track t q a b =
        let walked =
          walk_parlay_track R M C format_float P now client rates fuel cfg rng strategy alloc ms
            track t in
        subst (λ k. Ends Q (IsParlayBooked R M cfg k) walked) (omega arith)
          (walk_parlay_track-IsParlayBooked R M cfg C format_float usable P now client rates fuel
            rng strategy alloc Q (of_simulation-IsExplained R M cfg C) q 0 ms track t a b)

    walk_backtests_parlay-AreKept :
        (allocs : MmWalkAllocators R M C format_float) (ms : List (MatchWithOdds R))
        (out : BacktestRunResult R M C format_float) (t : ℕ)
        → AllAllow R M cfg C format_float allocs
        → All IsReady ms
        → AreKept true 0 out
        → Ends Q (AreKept true (length ms)) (
            walk_backtests_parlay R M C format_float P now client rates fuel cfg rng allocs ms out
              t)
    unfolding walk_backtests_parlay
    walk_backtests_parlay-AreKept allocs ms out t q r b =
        let n = length ms in
        let Kept = AreKept true n in
        let walk = walk_parlay_track R M C format_float P now client rates fuel cfg rng in
        let season = All-map-to ms (λ m (e : IsReady m). e.0) r in
        let form = All-map-to ms (λ m (e : IsReady m). e.1) r in
        let finish : Track R → Track R → Track R → BacktestRunResult R M C format_float =
          λ sim favorite sim_form. record { sim = sim; sim_form = sim_form; favorite = favorite } in
        let last = walk strategy_sim_form allocs.sim_form ms out.sim_form in
        let middle = walk strategy_favorite allocs.favorite ms out.favorite in
        let ending = λ (sim favorite : Track R). last >>= λ form. pure (finish sim favorite form) in
        and_then-Ends Q (IsParlayBooked R M cfg n) Kept (walk strategy_sim allocs.sim ms out.sim t)
          (λ sim. middle >>= ending sim)
          (parlays-AreBooked strategy_sim allocs.sim ms out.sim t q.0 season b.0)
          (λ sim u s.
            and_then-Ends Q (IsParlayBooked R M cfg n) Kept (middle u) (ending sim)
              (parlays-AreBooked strategy_favorite allocs.favorite ms out.favorite u q.1 season b.1)
              (λ favorite v f.
                and_then-Ends Q (IsParlayBooked R M cfg n) Kept (last v)
                  (λ form. pure (finish sim favorite form))
                  (parlays-AreBooked strategy_sim_form allocs.sim_form ms out.sim_form v q.2 form
                    b.2)
                  (λ form w g. (s, f, g))))

    by_mode :
        (b : Bool) (n : ℕ) (m w : Draws BacktestError (BacktestRunResult R M C format_float))
        (t : ℕ)
        → Ends Q (AreKept true n) (m t)
        → Ends Q (AreKept false (0 + n)) (w t)
        → Ends Q (AreKept b n) ((if b then m else w) t)
    by_mode true n m w t h k = h
    by_mode false n m w t h k = subst (λ j. Ends Q (AreKept false j) (w t)) (omega arith) k

    walk_by_mode-AreKept :
        (ms : List (MatchWithOdds R)) (a : Result LimitError (MmWalkAllocators R M C format_float))
        (t : ℕ)
        → Yields (λ e. Q (error_of_limits R M C format_float e)) (AllAllow R M cfg C format_float) a
        → All (HasOdds R) ms
        → All IsReady ms
        → Ends
            (IsExplained R M cfg C)
            (AreKept (text_test cfg.bet_mode parlay) (length ms))
            (walk_by_mode R M C format_float P now client fuel cfg rates rng ms a t)
    unfolding walk_by_mode
    walk_by_mode-AreKept ms (err e) t h o r = h
    walk_by_mode-AreKept ms (ok allocs) t h o r =
        let n = length ms in
        let track = new_track R M C format_float cfg n in
        let out : BacktestRunResult R M C format_float = record {
          sim = track;
          sim_form = track;
          favorite = track;
        } in
        let fresh = new_track-IsBooked n in
        let new = new_track-IsParlayBooked n in
        let parlays =
          walk_backtests_parlay R M C format_float P now client rates fuel cfg rng allocs ms out in
        let bets =
          walk_backtests_singles R M C format_float P now client fuel cfg allocs rates rng ms out in
        by_mode (text_test cfg.bet_mode parlay) n parlays bets t
          (walk_backtests_parlay-AreKept allocs ms out t h r (new, new, new))
          (walk_backtests_singles-AreBooked R M cfg usable C format_float Q
            (of_simulation-IsExplained R M cfg C) P now client fuel allocs rates rng 0 ms out t h
            (ready-ArePlayable allocs ms o r)
            (record { of_sim = fresh; of_form = fresh; of_favorite = fresh }))

    -- With a configuration as `validate` leaves it, and if the simulations of the eligible matches
    -- end, RunBacktests ends: with an error of a simulation; or, only under the money manager, with
    -- a panic at a float that has no decimal or whose decimal is zero; or with the books of its
    -- three tracks in order. Each bet is a win or a loss, on at most one surface. With single bets,
    -- bets and skips add up to the eligible matches, one row each. With parlays, each has from one
    -- leg to as many as are allowed, legs and skips are at most the matches, and a parlay is logged
    -- as its legs between two rows.
    pub run_backtests-AreKept :
        (rows : List (MatchWithOdds R)) (t : ℕ)
        → All IsReady (load_eligible_matches R rows rates)
        → Ends
            (IsExplained R M cfg C)
            (AreKept (text_test cfg.bet_mode parlay) (length (load_eligible_matches R rows rates)))
            (run_backtests R M C format_float P now client fuel cfg rates rng rows t)
    unfolding run_backtests walk_backtests
    run_backtests-AreKept rows t r =
        walk_by_mode-AreKept (load_eligible_matches R rows rates)
          (new_mm_walk_allocators R M C format_float cfg.money_manager) t
          (new_mm_walk_allocators-Yields R M cfg C format_float cfg.money_manager refl
            usable.funded)
          (eligible-HaveOdds rows) r
