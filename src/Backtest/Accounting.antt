-- ===== src/Backtest/Accounting.antt =====
-- tennis/cmd/backtestbets/backtest.go: the books of a track of single bets.
use calculated_tennis.Base.{
  ℕ, suc, ◌+◌, ◌≤◌, ◌≡◌, refl, not, Option, none, some, List, [], ◌∷◌, length, length-append,
  if_case, Result, ok, err, Text, codes, Float64, arith, subst,
}
use calculated_tennis.Base.Draws.{Yields}
use calculated_tennis.MoneyManager.Decimals.{Decimal}
use calculated_tennis.TennisAbstract.Surfaces.{MatchSurface, hard, clay, grass, unknown}
use calculated_tennis.TennisAbstract.Sides.{BetSide}
use calculated_tennis.TennisAbstract.Rates.{MatchWithOdds}
use calculated_tennis.Backtest.Config.{BacktestConfig}
use calculated_tennis.Backtest.Stats.{BacktestStats, count_bet, apply_bet}
use calculated_tennis.Backtest.Log.{
  Row, StrategyBetLog, Track, logged, record_skip, record_bet, skip_row, bet_row,
}
use calculated_tennis.Backtest.Stakes.{Panic, Conversions, Allocator}
use calculated_tennis.Backtest.Singles.{
  BacktestError, panicked, stake_for, with_stake, skip_match, apply_bet_with_log, try_apply_bet,
  place_bet, guarded_bet, SimDecision, try_place_sim_bet, positive_ev_allowed, odds_allowed,
}

module _ (R : Float64) where
  -- Every bet is a win or a loss, and is counted on at most one surface.
  pub record IsSettled (s : BacktestStats R) : Type 0 where
    pub settled : s.wins + s.losses ≡ s.bets
    pub on_surfaces : s.hard_bets.bets + s.clay_bets.bets + s.grass_bets.bets ≤ s.bets
    pub won_on_surfaces : s.hard_bets.wins + s.clay_bets.wins + s.grass_bets.wins ≤ s.wins
    pub hard_wins : s.hard_bets.wins ≤ s.hard_bets.bets
    pub clay_wins : s.clay_bets.wins ≤ s.clay_bets.bets
    pub grass_wins : s.grass_bets.wins ≤ s.grass_bets.bets

  pub count_bet-IsSettled :
      (s : BacktestStats R) (surface : MatchSurface) (legs : ℕ) (stake pnl : R.F)
      → IsSettled s
      → IsSettled (count_bet R s surface legs stake pnl)
  unfolding count_bet
  count_bet-IsSettled s hard legs stake pnl h = ground arith
  count_bet-IsSettled s clay legs stake pnl h = ground arith
  count_bet-IsSettled s grass legs stake pnl h = ground arith
  count_bet-IsSettled s unknown legs stake pnl h = ground arith

  -- The rows of a log, where there is one.
  abbrev pub HasRows : ℕ → Option (StrategyBetLog R) → Type 0
  HasRows n none = Unit
  HasRows n (some l) = length l.rows ≡ n

  pub logged-HasRows :
      (k n : ℕ) (new : R.F → List Row) (s : BacktestStats R) (l : Option (StrategyBetLog R))
      → ((before : R.F) → length (new before) ≡ k)
      → HasRows n l
      → HasRows (n + k) (logged R new s l)
  logged-HasRows k n new s none e h = tt
  logged-HasRows k n new s (some l) e h = omega (arith, length-append l.rows (new _), e _, h)

  logged_one :
      (n : ℕ) (new : R.F → List Row) (s : BacktestStats R) (l : Option (StrategyBetLog R))
      → ((before : R.F) → length (new before) ≡ 1)
      → HasRows n l
      → HasRows (suc n) (logged R new s l)
  logged_one n new s l e h =
      subst (λ k. HasRows k (logged R new s l)) (omega arith) (logged-HasRows 1 n new s l e h)

  -- The books of a track after `n` matches, with its log.
  pub record IsBooked (n : ℕ) (t : Track R) : Type 0 where
    pub settled : IsSettled t.stats
    pub counted : t.stats.bets + t.stats.skipped ≡ n
    pub no_legs : t.stats.parlay_legs ≡ 0
    pub rows : HasRows n t.log

  module _ (M : Decimal) (C : Conversions R M) (format_float : R.F → ℕ → Text) where
    pub skip_match-IsBooked :
        (n : ℕ) (t : Track R) (m : MatchWithOdds R) (reason : Text) (p odds : R.F)
        → IsBooked n t
        → IsBooked (suc n) (skip_match R M C format_float t m reason p odds)
    unfolding skip_match record_skip
    skip_match-IsBooked n t m reason p odds h = record {
      settled = record {
        settled = h.settled.settled;
        on_surfaces = h.settled.on_surfaces;
        won_on_surfaces = h.settled.won_on_surfaces;
        hard_wins = h.settled.hard_wins;
        clay_wins = h.settled.clay_wins;
        grass_wins = h.settled.grass_wins;
      };
      counted = omega (arith, h.counted);
      no_legs = h.no_legs;
      rows =
          logged_one n (λ b. skip_row R format_float m reason p odds ∷ []) t.stats t.log (λ b. refl)
            h.rows;
    }

    apply_bet_with_log-IsBooked :
        (n : ℕ) (t : Track R) (m : MatchWithOdds R) (picked : BetSide) (odds stake p : R.F)
        (winner : BetSide)
        → IsBooked n t
        → IsBooked (suc n) (apply_bet_with_log R M C format_float t m picked odds stake p winner)
    unfolding apply_bet_with_log record_bet apply_bet
    apply_bet_with_log-IsBooked n t m picked odds stake p winner h = record {
      settled = count_bet-IsSettled t.stats m.surface 0 stake _ h.settled;
      counted = omega (arith, h.counted);
      no_legs = omega (arith, h.no_legs);
      rows =
          logged_one n (λ b. bet_row R format_float m picked odds stake p winner b ∷ []) t.stats
            t.log (λ b. refl) h.rows;
    }

    try_apply_bet-IsBooked :
        (n : ℕ) (stake : Option R.F) (t : Track R) (m : MatchWithOdds R) (picked : BetSide)
        (odds p : R.F) (winner : BetSide)
        → IsBooked n t
        → IsBooked (suc n) (try_apply_bet R M C format_float stake t m picked odds p winner)
    unfolding try_apply_bet
    try_apply_bet-IsBooked n none t m picked odds p winner h =
        skip_match-IsBooked n t m (codes "ALLOC") p odds h
    try_apply_bet-IsBooked n (some stake) t m picked odds p winner h =
        apply_bet_with_log-IsBooked n t m picked odds stake p winner h

    -- The panics of an allocator are ones of which `Q` holds.
    abbrev pub Allows : (BacktestError → Type 0) → Option (Allocator R M C) → Type 0
    Allows Q alloc =
        (stats : BacktestStats R) (odds fixed : R.F) (e : Panic)
        → stake_for R M C format_float alloc stats odds fixed ≡ err e
        → Q (panicked e)

    pub with_stake-Yields :
        (Q : BacktestError → Type 0) (P : Track R → Type 0) (r : Result Panic (Option R.F))
        (bet : Option R.F → Track R)
        → ((e : Panic) → r ≡ err e → Q (panicked e))
        → ((stake : Option R.F) → P (bet stake))
        → Yields Q P (with_stake R M C format_float r bet)
    with_stake-Yields Q P (err e) bet h k = h e refl
    with_stake-Yields Q P (ok stake) bet h k = k stake

    pub guarded_bet-IsBooked :
        (Q : BacktestError → Type 0) (n : ℕ) (cfg : BacktestConfig R)
        (alloc : Option (Allocator R M C)) (t : Track R) (m : MatchWithOdds R) (picked : BetSide)
        (odds p : R.F)
        → Allows Q alloc
        → IsBooked n t
        → Yields Q (IsBooked (suc n)) (guarded_bet R M C format_float cfg alloc t m picked odds p)
    unfolding guarded_bet place_bet
    guarded_bet-IsBooked Q n cfg alloc t m picked odds p q h =
        if_case (Yields Q (IsBooked (suc n))) (not (positive_ev_allowed R cfg p odds))
          (λ e. skip_match-IsBooked n t m (codes "NEG_EV") p odds h)
          (λ e.
            if_case (Yields Q (IsBooked (suc n))) (not (odds_allowed R cfg odds))
              (λ e. skip_match-IsBooked n t m (codes "MIN_ODDS") p odds h)
              (λ e.
                with_stake-Yields Q (IsBooked (suc n)) _ _ (q t.stats odds _)
                  (λ stake. try_apply_bet-IsBooked n stake t m picked odds p _ h)))

    pub try_place_sim_bet-IsBooked :
        (Q : BacktestError → Type 0) (n : ℕ) (cfg : BacktestConfig R)
        (alloc : Option (Allocator R M C)) (t : Track R) (m : MatchWithOdds R) (d : SimDecision R)
        → Allows Q alloc
        → IsBooked n t
        → Yields Q (IsBooked (suc n)) (try_place_sim_bet R M C format_float cfg alloc t m d)
    unfolding try_place_sim_bet
    try_place_sim_bet-IsBooked Q n cfg alloc t m d q h =
        if_case (Yields Q (IsBooked (suc n))) (not d.bet)
          (λ e. skip_match-IsBooked n t m (codes "MINPICK") R.zero R.zero h)
          (λ e. guarded_bet-IsBooked Q n cfg alloc t m d.side d.odds d.win_prob q h)
