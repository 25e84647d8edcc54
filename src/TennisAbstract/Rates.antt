-- ===== src/TennisAbstract/Rates.antt =====
-- tennis/tennisabstract/backtest_rates.go and backtest_form.go: the rates that a match is simulated
-- with, and that they are valid for a simulation. The results that the client of Tennis Abstract
-- returns for a player are a parameter.
use calculated_tennis.Base.{
  ℕ, ℤ, ◌≡◌, Bool, true, false, Option, none, some, List, [], ◌∷◌, if◌then◌else◌, ok, Text,
  text_test, Float64, arith,
}
use calculated_tennis.Base.Options.{◌>>=◌, Holds, >>=-Holds, >>=-Holds_of, Holds-some}
use calculated_tennis.Tennis.State.{MatchFormat}
use calculated_tennis.Tennis.Probability.{outside_unit}
use calculated_tennis.Tennis.Simulation.{Rates, PlayerRates, validate_player_rates}
use calculated_tennis.TennisAbstract.Dates.{Time, tourney_date_as_time, year}
use calculated_tennis.TennisAbstract.Surfaces.{Process, MatchSurface}
use calculated_tennis.TennisAbstract.Recent.{RecentResult, recent_results_before}
use calculated_tennis.TennisAbstract.Seasons.{season_baseline}
use calculated_tennis.TennisAbstract.Form.{
  FormOptions, AdjustedRates, PlayerStats, with_defaults, evaluation_date, adjusted_hold_break,
  zero_time, rates_at, clamp_unit_interval, recent_dr_form,
}

module _ (R : Float64) where
  open R use {F}

  -- `PlayerRates2024`.
  pub record SeasonRates : Type 0 where
    pub hold : F
    pub breaks : F
    pub dr : F

  -- A map from slugs.
  abbrev pub PlayerRatesMap : Type 0
  PlayerRatesMap = List (Text × SeasonRates)

  abbrev pub rates_entry : PlayerRatesMap → Text → Option SeasonRates
  rates_entry [] slug = none
  rates_entry ((s, r) ∷ rest) slug = if text_test s slug then some r else rates_entry rest slug

  -- The best-of of a row is not read after it is parsed.
  pub record MatchWithOdds : Type 0 where
    pub tourney_id : Text
    pub surface : MatchSurface
    pub player_a : Text
    pub player_b : Text
    pub player_a_slug : Text
    pub player_b_slug : Text
    pub match_format : MatchFormat
    pub score : Text
    pub tourney_date : ℕ
    pub match_num : ℤ
    pub avg_w : F
    pub avg_l : F

  -- `GetRecentResultsAsOf`: the name, the date and the limit, to the results or an error.
  abbrev pub Client : Type 0
  Client = Text → Time → ℕ → Option (List (RecentResult R))

  unfoldable pub player_stats_for_backtest_form :
      Time → SeasonRates → List (RecentResult R) → PlayerStats R
  player_stats_for_backtest_form as_of season recent = record {
    recent_results = recent;
    tour_level_seasons =
        record {
          year = year as_of;
          is_career = false;
          matches = 100;
          hold_pct = season.hold;
          break_pct = season.breaks;
          dr = season.dr;
        }
        ∷ [];
    challenger_seasons = [];
    fetched_at = zero_time R;
  }

  -- The options with another date of evaluation.
  abbrev pub at_date : FormOptions R → Time → FormOptions R
  at_date o t = record {
    as_of = t;
    min_season_matches = o.min_season_matches;
    recent_match_limit = o.recent_match_limit;
    half_life_matches = o.half_life_matches;
    form_weight_max = o.form_weight_max;
    form_ratio_min = o.form_ratio_min;
    form_ratio_max = o.form_ratio_max;
    challenger_weight = o.challenger_weight;
  }

  -- The results that count are those of the career before the date.
  abbrev pub with_recent : PlayerStats R → List (RecentResult R) → PlayerStats R
  with_recent stats recent = record {
    recent_results = recent;
    tour_level_seasons = stats.tour_level_seasons;
    challenger_seasons = stats.challenger_seasons;
    fetched_at = stats.fetched_at;
  }

  module _ (P : Process R) (now : Time) where
    unfoldable pub adjusted_hold_break_as_of :
        PlayerStats R → List (RecentResult R) → FormOptions R → Option (AdjustedRates R)
    unfolding adjusted_hold_break with_defaults evaluation_date recent_results_before
    adjusted_hold_break_as_of stats career opts =
        let o = with_defaults R P opts in
        let as_of = evaluation_date R o stats now in
        adjusted_hold_break R P now
          (with_recent stats (recent_results_before R career as_of o.recent_match_limit))
          (at_date o as_of)

    abbrev pub player_rates_of : AdjustedRates R → PlayerRates R
    player_rates_of r = record { hold_pct = r.hold_pct; break_pct = r.break_pct }

    unfoldable pub player_rates_with_preloaded_recent :
        SeasonRates → Time → List (RecentResult R) → FormOptions R → Option (PlayerRates R)
    unfolding adjusted_hold_break_as_of player_stats_for_backtest_form
    player_rates_with_preloaded_recent season as_of recent opts =
        adjusted_hold_break_as_of (player_stats_for_backtest_form as_of season []) recent opts
        >>= λ r. some (player_rates_of r)

    module _ (client : Client) where
      unfoldable pub player_rates_with_form :
          Text → SeasonRates → Time → FormOptions R → Option (PlayerRates R)
      unfolding with_defaults player_rates_with_preloaded_recent
      player_rates_with_form name season as_of opts =
          let o = with_defaults R P opts in
          client name as_of o.recent_match_limit >>= λ recent.
          player_rates_with_preloaded_recent season as_of recent o

      -- With the recent form of both players, each at the date of the match.
      unfoldable pub rates_with_form :
          MatchWithOdds → SeasonRates → SeasonRates → FormOptions R → Option (Rates R)
      unfolding player_rates_with_form tourney_date_as_time
      rates_with_form m a b opts = do
        as_of ← tourney_date_as_time m.tourney_date
        ra ← player_rates_with_form m.player_a a as_of (at_date opts as_of)
        rb ← player_rates_with_form m.player_b b as_of (at_date opts as_of)
        some (record { of_a = ra; of_b = rb })

      -- A client is given; `none` is the result `ok = false`.
      unfoldable pub match_with_odds_player_rates :
          MatchWithOdds → PlayerRatesMap → Bool → FormOptions R → Option (Rates R)
      unfolding rates_with_form
      match_with_odds_player_rates m rates use_form opts = do
        a ← rates_entry rates m.player_a_slug
        b ← rates_entry rates m.player_b_slug
        elim use_form [
          | true ↦ rates_with_form m a b opts
          | false ↦ some (record {
            of_a = record { hold_pct = a.hold; break_pct = a.breaks };
            of_b = record { hold_pct = b.hold; break_pct = b.breaks };
          })
        ]

  -- What the comparisons of 0 and 1 give.
  pub record HasUnit : Type 0 where
    pub zero_zero : R.lt R.zero R.zero ≡ false
    pub one_zero : R.lt R.one R.zero ≡ false
    pub one_one : R.lt R.one R.one ≡ false

  clamp_inside : (x : F) → HasUnit → outside_unit R (clamp_unit_interval R x) ≡ false
  clamp_inside x u = ground (arith, u.zero_zero, u.one_zero, u.one_one)

  -- Rates that a simulation accepts.
  abbrev pub IsValid : PlayerRates R → Type 0
  IsValid r = validate_player_rates R r ≡ ok tt

  -- The rates of an adjustment, within the unit interval.
  abbrev pub IsInside : AdjustedRates R → Type 0
  IsInside a = (outside_unit R a.hold_pct ≡ false) × (outside_unit R a.break_pct ≡ false)

  adjusted_hold_break-Inside :
      (P : Process R) (now : Time) (stats : PlayerStats R) (opts : FormOptions R)
      → HasUnit
      → Holds IsInside (adjusted_hold_break R P now stats opts)
  unfolding adjusted_hold_break rates_at
  adjusted_hold_break-Inside P now stats opts u =
      let o = with_defaults R P opts in
      let form = recent_dr_form R stats.recent_results o.recent_match_limit o.half_life_matches in
      >>=-Holds IsInside
        (season_baseline R stats.tour_level_seasons stats.challenger_seasons
          (year (evaluation_date R o stats now)) o.min_season_matches o.challenger_weight)
        (λ s. some (rates_at R o form s)) (λ s. (clamp_inside _ u, clamp_inside _ u))

  player_rates_of-IsValid :
      (P : Process R) (now : Time) (a : AdjustedRates R)
      → IsInside a
      → IsValid (player_rates_of P now a)
  unfolding validate_player_rates
  player_rates_of-IsValid P now a h = ground arith

  module _ (P : Process R) (now : Time) (client : Client) (u : HasUnit) where
    as_of-Inside :
        (stats : PlayerStats R) (career : List (RecentResult R)) (opts : FormOptions R)
        → Holds IsInside (adjusted_hold_break_as_of P now stats career opts)
    unfolding adjusted_hold_break_as_of
    as_of-Inside stats career opts =
        let o = with_defaults R P opts in
        let t = evaluation_date R o stats now in
        adjusted_hold_break-Inside P now
          (with_recent stats (recent_results_before R career t o.recent_match_limit)) (at_date o t)
          u

    preloaded-IsValid :
        (season : SeasonRates) (as_of : Time) (recent : List (RecentResult R))
        (opts : FormOptions R)
        → Holds IsValid (player_rates_with_preloaded_recent P now season as_of recent opts)
    unfolding player_rates_with_preloaded_recent
    preloaded-IsValid season as_of recent opts =
        let stats = player_stats_for_backtest_form as_of season [] in
        >>=-Holds_of IsInside IsValid (adjusted_hold_break_as_of P now stats recent opts)
          (λ r. some (player_rates_of P now r)) (as_of-Inside stats recent opts)
          (player_rates_of-IsValid P now)

    with_form-IsValid :
        (name : Text) (season : SeasonRates) (as_of : Time) (opts : FormOptions R)
        → Holds IsValid (player_rates_with_form P now client name season as_of opts)
    unfolding player_rates_with_form
    with_form-IsValid name season as_of opts =
        let o = with_defaults R P opts in
        >>=-Holds IsValid (client name as_of o.recent_match_limit)
          (λ recent. player_rates_with_preloaded_recent P now season as_of recent o)
          (λ recent. preloaded-IsValid season as_of recent o)

    abbrev pub AreValid : Rates R → Type 0
    AreValid r = IsValid r.of_a × IsValid r.of_b

    rates_with_form-AreValid :
        (m : MatchWithOdds) (a b : SeasonRates) (opts : FormOptions R)
        → Holds AreValid (rates_with_form P now client m a b opts)
    unfolding rates_with_form
    rates_with_form-AreValid m a b opts =
        let of_a =
          λ (t : Time). player_rates_with_form P now client m.player_a a t (at_date opts t) in
        let of_b =
          λ (t : Time). player_rates_with_form P now client m.player_b b t (at_date opts t) in
        let pair = λ (ra rb : PlayerRates R). some (record { of_a = ra; of_b = rb }) in
        >>=-Holds AreValid (tourney_date_as_time m.tourney_date)
          (λ t. of_a t >>= λ ra. of_b t >>= λ rb. pair ra rb)
          (λ t.
            >>=-Holds_of IsValid AreValid (of_a t) (λ ra. of_b t >>= λ rb. pair ra rb)
              (with_form-IsValid m.player_a a t (at_date opts t))
              (λ ra va.
                >>=-Holds_of IsValid AreValid (of_b t) (pair ra)
                  (with_form-IsValid m.player_b b t (at_date opts t)) (λ rb vb. (va, vb))))

    -- Rates that are adjusted by recent form are always ones that a simulation accepts, if 0 is not
    -- less than 0 and 1 is less than neither 0 nor 1.
    pub match_with_odds_player_rates-AreValid :
        (m : MatchWithOdds) (rates : PlayerRatesMap) (opts : FormOptions R) (r : Rates R)
        → match_with_odds_player_rates P now client m rates true opts ≡ some r
        → IsValid r.of_a × IsValid r.of_b
    unfolding match_with_odds_player_rates
    match_with_odds_player_rates-AreValid m rates opts r h =
        let entry = λ (slug : Text). rates_entry rates slug in
        let both = λ (a b : SeasonRates). rates_with_form P now client m a b opts in
        Holds-some AreValid (entry m.player_a_slug >>= λ a. entry m.player_b_slug >>= both a) r
          (>>=-Holds AreValid (entry m.player_a_slug) (λ a. entry m.player_b_slug >>= both a)
            (λ a.
              >>=-Holds AreValid (entry m.player_b_slug) (both a)
                (λ b. rates_with_form-AreValid m a b opts)))
          h
