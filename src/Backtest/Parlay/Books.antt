-- ===== src/Backtest/Parlay/Books.antt =====
-- tennis/cmd/backtestbets/backtest.go: the books after the walk of a track of parlays.
use calculated_tennis.Base.{
  ℕ, zero, suc, ◌+◌, ◌*◌, ◌≤◌, ◌≡◌, refl, subst, ◌∙◌, Option, none, some, List, [], ◌∷◌, map,
  length, length-append, Text, Float64, arith, All,
}
use calculated_tennis.Base.Draws.{
  Yields, Ends, Ends-errors, and_then-Ends, of_result, of_result-Ends,
}
use calculated_tennis.Base.Sorting.{take, length-take, drop, length-drop, All-drop}
use calculated_tennis.Tennis.Simulation.{Rng}
use calculated_tennis.MoneyManager.Decimals.{Decimal}
use calculated_tennis.TennisAbstract.Dates.{Time}
use calculated_tennis.TennisAbstract.Surfaces.{Process}
use calculated_tennis.TennisAbstract.Rates.{MatchWithOdds, PlayerRatesMap, Client}
use calculated_tennis.Backtest.Config.{BacktestConfig}
use calculated_tennis.Backtest.Config.Usable.{IsUsable}
use calculated_tennis.Backtest.Stats.{BacktestStats, skip, count_bet}
use calculated_tennis.Backtest.Log.{Track, logged, parlay_skip_row, record_parlay_skip}
use calculated_tennis.Backtest.Stakes.{Conversions, Allocator}
use calculated_tennis.Backtest.Singles.{BacktestError}
use calculated_tennis.Backtest.Accounting.{
  IsSettled, count_bet-IsSettled, HasRows, logged-HasRows, Allows, with_stake-Yields,
}
use calculated_tennis.Backtest.Walk.{IsOfSimulation}
use calculated_tennis.Backtest.Parlay.Legs.{ParlayStrategy, ParlayLeg, Cache, eval_leg}
use calculated_tennis.Backtest.Parlay.Window.{at_most, select_parlay_window}
use calculated_tennis.Backtest.Parlay.Place.{
  end_row, parlay_rows, apply_parlay, apply_parlay_with_log, place_parlay, bet_log_parlay_leg_row,
}
use calculated_tennis.Backtest.Parlay.Track.{
  skip_reason, skip_anchor, Rest, with_window, walk_parlay, walk_parlay_track,
}
use calculated_tennis.Backtest.Parlay.Sound.{
  AreLegsOf, IsCoherent, IsWindow, IsAnswered, IsEvaluated, eval_leg-Ends, IsSelected,
  select_parlay_window-Ends,
}

length-map : {A B : Type 0} (f : A → B) (xs : List A) → length (map f xs) ≡ length xs
length-map f [] = refl
length-map f (x ∷ xs) = omega (arith, length-map f xs)

module _ (R : Float64) (M : Decimal) (cfg : BacktestConfig R) where
  -- The books of a track of parlays after `n` matches: every parlay has from one leg to as many as
  -- are allowed; the legs and the skipped anchors are different matches; and a parlay is logged as
  -- its legs between two rows.
  pub record IsParlayBooked (n : ℕ) (t : Track R) : Type 0 where
    pub settled : IsSettled R t.stats
    pub some_legs : t.stats.bets ≤ t.stats.parlay_legs
    pub permitted : t.stats.parlay_legs ≤ t.stats.bets * at_most R cfg.max_parlay_matches
    pub within : t.stats.parlay_legs + t.stats.skipped ≤ n
    pub rows : HasRows R (t.stats.bets * 2 + t.stats.parlay_legs + t.stats.skipped) t.log

  AreLegsOf-length :
      (ms : List (MatchWithOdds R)) (legs : List (ParlayLeg R))
      → AreLegsOf R ms legs
      → length legs ≡ length ms
  AreLegsOf-length [] [] h = refl
  AreLegsOf-length [] (leg ∷ legs) h = absurd h
  AreLegsOf-length (m ∷ ms) [] h = absurd h
  AreLegsOf-length (m ∷ ms) (leg ∷ legs) h = omega (arith, AreLegsOf-length ms legs h.1)

  module _ (C : Conversions R M) (format_float : R.F → ℕ → Text) where
    length-parlay_rows :
        (anchor : ParlayLeg R) (legs : List (ParlayLeg R)) (stake before : R.F)
        → length (parlay_rows R format_float anchor legs stake before) ≡ 2 + length (anchor ∷ legs)
    length-parlay_rows anchor legs stake before = omega (
      arith,
      length-append (map (bet_log_parlay_leg_row R format_float) legs)
          (end_row R format_float anchor legs stake before ∷ []),
      length-map (bet_log_parlay_leg_row R format_float) legs,
    )

    skip-IsSettled : (s : BacktestStats R) → IsSettled R s → IsSettled R (skip R s)
    skip-IsSettled s h = record {
      settled = h.settled;
      on_surfaces = h.on_surfaces;
      won_on_surfaces = h.won_on_surfaces;
      hard_wins = h.hard_wins;
      clay_wins = h.clay_wins;
      grass_wins = h.grass_wins;
    }

    record_parlay_skip-HasRows :
        (t : Track R) (n k : ℕ) (m : MatchWithOdds R) (reason : Text) (p odds : R.F)
        → n + 1 ≡ k
        → HasRows R n t.log
        → HasRows R k (record_parlay_skip R format_float t m reason p odds)
    unfolding record_parlay_skip
    record_parlay_skip-HasRows t n k m reason p odds e h =
        let row = λ (b : R.F). parlay_skip_row R format_float m reason p odds ∷ [] in
        subst (λ k. HasRows R k (logged R row t.stats t.log)) e
          (logged-HasRows R 1 n row t.stats t.log (λ b. refl) h)

    skip_anchor-IsParlayBooked :
        (n : ℕ) (t : Track R) (m : MatchWithOdds R) (leg : Option (ParlayLeg R))
        → IsParlayBooked n t
        → IsParlayBooked (suc n) (skip_anchor R M C format_float t m leg)
    unfolding skip_anchor record_parlay_skip
    skip_anchor-IsParlayBooked n t m leg h = record {
      settled = skip-IsSettled t.stats h.settled;
      some_legs = h.some_legs;
      permitted = h.permitted;
      within = omega (arith, h.within);
      rows =
          record_parlay_skip-HasRows t _ _ m (skip_reason R M C format_float leg) R.zero R.zero
            (omega arith) h.rows;
    }

    apply_parlay_with_log-IsParlayBooked :
        (n : ℕ) (stake : Option R.F) (t : Track R) (anchor : ParlayLeg R)
        (legs : List (ParlayLeg R))
        → length (anchor ∷ legs) ≤ at_most R cfg.max_parlay_matches
        → IsParlayBooked n t
        → IsParlayBooked
            (n + length (anchor ∷ legs))
            (apply_parlay_with_log R format_float M C stake t anchor legs)
    unfolding apply_parlay_with_log apply_parlay record_parlay_skip count_bet
    apply_parlay_with_log-IsParlayBooked n none t anchor legs fit h = record {
      settled = skip-IsSettled t.stats h.settled;
      some_legs = h.some_legs;
      permitted = h.permitted;
      within = omega (arith, h.within);
      rows = record_parlay_skip-HasRows t _ _ anchor.of_match _ _ _ (omega arith) h.rows;
    }
    apply_parlay_with_log-IsParlayBooked n (some stake) t anchor legs fit h =
        let size = length (anchor ∷ legs) in
        record {
          settled = count_bet-IsSettled R t.stats anchor.of_match.surface size stake _ h.settled;
          some_legs = omega (arith, h.some_legs);
          permitted = omega (arith, h.permitted, fit);
          within = omega (arith, h.within);
          rows =
              subst
                (λ k.
                  HasRows R k
                    (logged R (parlay_rows R format_float anchor legs stake) t.stats t.log))
                (omega arith)
                (logged-HasRows R (2 + size) _ (parlay_rows R format_float anchor legs stake)
                  t.stats t.log (length-parlay_rows anchor legs stake) h.rows);
        }

    place_parlay-IsParlayBooked :
        (Q : BacktestError → Type 0) (n : ℕ) (alloc : Option (Allocator R M C)) (t : Track R)
        (legs : List (ParlayLeg R))
        → Allows R M C format_float Q alloc
        → length legs ≤ at_most R cfg.max_parlay_matches
        → IsParlayBooked n t
        → Yields Q
            (IsParlayBooked (n + length legs))
            (place_parlay R format_float M C cfg alloc t legs)
    unfolding place_parlay
    place_parlay-IsParlayBooked Q n alloc t [] q fit h =
        subst (λ k. IsParlayBooked k t) (omega arith) h
    place_parlay-IsParlayBooked Q n alloc t (anchor ∷ legs) q fit h =
        with_stake-Yields R M C format_float Q (IsParlayBooked (n + length (anchor ∷ legs))) _ _
          (q t.stats _ _)
          (λ stake. apply_parlay_with_log-IsParlayBooked n stake t anchor legs fit h)

    module _ (usable : IsUsable R M cfg) (P : Process R) (now : Time) (client : Client R)
        (rates : PlayerRatesMap R) (fuel : ℕ) (rng : Rng R) (strategy : ParlayStrategy)
        (alloc : Option (Allocator R M C)) (Q : BacktestError → Type 0)
        (of_sim : (e : BacktestError) → IsOfSimulation e → Q e)
        (allowed : Allows R M C format_float Q alloc) where
      -- A match whose simulations end.
      abbrev pub Answers : MatchWithOdds R → Type 0
      Answers m = IsAnswered R M cfg usable P now client rates fuel rng strategy m

      -- The rest of the walk ends with its books kept, within so many steps.
      abbrev Continues :
          ℕ → Rest R M C format_float P now client rates fuel cfg rng strategy alloc → Type 0
      Continues steps rest =
          (n : ℕ) (ms : List (MatchWithOdds R)) (cache : Cache R) (track : Track R) (t : ℕ)
          → length ms ≤ steps
          → All Answers ms
          → IsCoherent R cache
          → IsParlayBooked n track
          → Ends Q (IsParlayBooked (n + length ms)) (rest ms cache track t)

      window-length :
          (ms : List (MatchWithOdds R)) (legs : List (ParlayLeg R)) (k : ℕ)
          → IsWindow R M cfg usable ms legs k
          → length legs ≡ k
      window-length ms legs k w =
          AreLegsOf-length (take k ms) legs w.legged ∙ omega (arith, length-take k ms, w.fits)

      with_window-Ends :
          (steps n : ℕ)
          (rest : Rest R M C format_float P now client rates fuel cfg rng strategy alloc)
          (m : MatchWithOdds R) (ms : List (MatchWithOdds R)) (track : Track R)
          (s : Option (List (ParlayLeg R) × ℕ) × Cache R) (t : ℕ)
          → length ms ≤ steps
          → All Answers (m ∷ ms)
          → Continues steps rest
          → IsParlayBooked n track
          → IsSelected R M cfg usable P now client rates fuel rng strategy (m ∷ ms) s
          → Ends Q (IsParlayBooked (n + suc (length ms))) (
              with_window R M C format_float P now client rates fuel cfg rng strategy alloc rest m
                ms track s t)
      unfolding with_window
      with_window-Ends steps n rest m ms track (some (legs, k), cache) t bound a go b h =
          let w = h.0 in
          let size = window-length (m ∷ ms) legs k w in
          let left = length-drop k (m ∷ ms) in
          let placed = place_parlay R format_float M C cfg alloc track legs in
          and_then-Ends Q (IsParlayBooked (n + length legs)) (IsParlayBooked (n + suc (length ms)))
            (of_result placed t) (λ track'. rest (drop k (m ∷ ms)) cache track')
            (of_result-Ends Q (IsParlayBooked (n + length legs)) placed t (
              place_parlay-IsParlayBooked Q n alloc track legs allowed
                (omega (arith, size, w.permitted)) b))
            (λ track' u booked.
              subst (λ j. Ends Q (IsParlayBooked j) (rest (drop k (m ∷ ms)) cache track' u))
                (omega (arith, size, left, w.fits))
                (go (n + length legs) (drop k (m ∷ ms)) cache track' u
                  (omega (arith, left, w.some_leg, w.fits, bound)) (All-drop Answers k (m ∷ ms) a)
                  h.1 booked))
      with_window-Ends steps n rest m ms track (none, cache) t bound a go b h =
          and_then-Ends Q (IsEvaluated R M cfg usable P now client rates fuel rng strategy m)
            (IsParlayBooked (n + suc (length ms)))
            (eval_leg R P now client rates fuel cfg rng strategy cache m t)
            (λ e. rest ms e.1 (skip_anchor R M C format_float track m e.0))
            (Ends-errors IsOfSimulation Q
              (IsEvaluated R M cfg usable P now client rates fuel rng strategy m)
              (eval_leg R P now client rates fuel cfg rng strategy cache m t) of_sim
              (eval_leg-Ends R M cfg usable P now client rates fuel rng strategy m cache t a.0 h.1))
            (λ e u k.
              subst
                (λ j.
                  Ends Q (IsParlayBooked j)
                    (rest ms e.1 (skip_anchor R M C format_float track m e.0) u))
                (omega arith)
                (go (suc n) ms e.1 (skip_anchor R M C format_float track m e.0) u bound a.1 k.1
                  (skip_anchor-IsParlayBooked n track m e.0 b)))

      walk_parlay-Ends :
          (steps : ℕ)
          → Continues steps
              (walk_parlay R M C format_float P now client rates fuel cfg rng strategy alloc steps)
      unfolding walk_parlay
      walk_parlay-Ends steps n [] cache track t bound a c b =
          subst (λ k. IsParlayBooked k track) (omega arith) b
      walk_parlay-Ends zero n (m ∷ ms) cache track t bound a c b = absurd (omega arith)
      walk_parlay-Ends (suc steps) n (m ∷ ms) cache track t bound a c b =
          let rest =
            walk_parlay R M C format_float P now client rates fuel cfg rng strategy alloc steps in
          and_then-Ends Q (IsSelected R M cfg usable P now client rates fuel rng strategy (m ∷ ms))
            (IsParlayBooked (n + suc (length ms)))
            (select_parlay_window R P now client rates fuel cfg rng strategy (m ∷ ms) cache t)
            (with_window R M C format_float P now client rates fuel cfg rng strategy alloc rest m ms
              track)
            (Ends-errors IsOfSimulation Q
              (IsSelected R M cfg usable P now client rates fuel rng strategy (m ∷ ms))
              (select_parlay_window R P now client rates fuel cfg rng strategy (m ∷ ms) cache t)
              of_sim
              (select_parlay_window-Ends R M cfg usable P now client rates fuel rng strategy
                (m ∷ ms) cache t a c))
            (λ s u h.
              with_window-Ends steps n rest m ms track s u (omega (arith, bound)) a
                (walk_parlay-Ends steps) b h)

      pub walk_parlay_track-IsParlayBooked :
          (n : ℕ) (eligible : List (MatchWithOdds R)) (track : Track R) (t : ℕ)
          → All Answers eligible
          → IsParlayBooked n track
          → Ends Q (IsParlayBooked (n + length eligible)) (
              walk_parlay_track R M C format_float P now client rates fuel cfg rng strategy alloc
                eligible track t)
      unfolding walk_parlay_track
      walk_parlay_track-IsParlayBooked n eligible track t a b =
          walk_parlay-Ends (length eligible) n eligible [] track t (omega arith) a tt b
