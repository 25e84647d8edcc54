-- ===== src/TennisAbstract/Form.antt =====
-- tennis/tennisabstract/form.go and the options of form_env.go: hold and break rates adjusted by
-- recent form. A negative count among the options acts as 0, which is what stands for an unset one.
use calculated_tennis.Base.{
  ℕ, suc, Bool, true, false, not, ◌&&◌, ◌||◌, Option, none, some, List, [], ◌∷◌, leb, ltb,
  if◌then◌else◌, pos, codes, Float64, float_eq, is_empty,
}
use calculated_tennis.Base.Options.{◌>>=◌}
use calculated_tennis.Base.Sorting.{sort_stable}
use calculated_tennis.TennisAbstract.Dates.{Time, is_zero, year}
use calculated_tennis.TennisAbstract.Surfaces.{
  MatchSurface, Process, positive_int_from_env, positive_float_from_env, float_form_env,
}
use calculated_tennis.TennisAbstract.Recent.{RecentResult, newer}
use calculated_tennis.TennisAbstract.Seasons.{Season, season_baseline}

module _ (R : Float64) where
  open R use {F, one, half, lt, le, add, sub, mul, div, pow, of_int, literal}

  pub record FormOptions : Type 0 where
    pub as_of : Time
    pub min_season_matches : ℕ
    pub recent_match_limit : ℕ
    pub half_life_matches : F
    pub form_weight_max : F
    pub form_ratio_min : F
    pub form_ratio_max : F
    pub challenger_weight : F

  pub record AdjustedRates : Type 0 where
    pub hold_pct : F
    pub break_pct : F
    pub season_hold : F
    pub season_break : F
    pub dr_season : F
    pub dr_form : F
    pub form_ratio : F
    pub form_weight : F
    pub season_matches : ℕ

  -- What `AdjustedHoldBreak` reads of `models.PlayerStats`.
  pub record PlayerStats : Type 0 where
    pub recent_results : List (RecentResult R)
    pub tour_level_seasons : List (Season R)
    pub challenger_seasons : List (Season R)
    pub fetched_at : Time

  -- By the weight, the half-life and the ratios of the options.
  abbrev pub form_weight_max_explicit_zero : F → F → F → F → Bool
  form_weight_max_explicit_zero weight half_life ratio_min ratio_max =
      float_eq R weight R.zero && lt R.zero half_life && lt R.zero ratio_min && lt R.zero ratio_max

  -- `x` where it is positive.
  abbrev pub float_or : F → F → F
  float_or x default = if le x R.zero then default else x

  abbrev pub count_or : ℕ → ℕ → ℕ
  count_or n default = if leb n 0 then default else n

  -- The fields are set in the order of the code, so the weight is read with the new half-life and
  -- the old ratios.
  unfoldable pub with_defaults : Process R → FormOptions → FormOptions
  unfolding positive_int_from_env positive_float_from_env
  with_defaults p o =
      let env = positive_float_from_env R p in
      let half_life =
        float_or o.half_life_matches
          (env (codes "TENNISABSTRACT_FORM_HALF_LIFE_MATCHES") (literal 5 0)) in
      let explicit =
        form_weight_max_explicit_zero o.form_weight_max half_life o.form_ratio_min
          o.form_ratio_max in
      let unset = float_eq R o.form_weight_max R.zero && not explicit in
      record {
        as_of = o.as_of;
        min_season_matches =
            count_or o.min_season_matches
              (positive_int_from_env R p (codes "TENNISABSTRACT_FORM_MIN_SEASON_MATCHES") 20);
        recent_match_limit =
            count_or o.recent_match_limit
              (positive_int_from_env R p (codes "TENNISABSTRACT_FORM_RECENT_MATCH_LIMIT") 15);
        half_life_matches = half_life;
        form_weight_max =
            if lt o.form_weight_max R.zero || unset
            then env (codes "TENNISABSTRACT_FORM_WEIGHT_MAX") (literal 30 2)
            else o.form_weight_max;
        form_ratio_min =
            float_or o.form_ratio_min (env (codes "TENNISABSTRACT_FORM_RATIO_MIN") (literal 92 2));
        form_ratio_max =
            float_or o.form_ratio_max (env (codes "TENNISABSTRACT_FORM_RATIO_MAX") (literal 108 2));
        challenger_weight =
            float_or o.challenger_weight
              (env (codes "TENNISABSTRACT_FORM_CHALLENGER_WEIGHT") (literal 7 1));
      }

  abbrev pub zero_time : Time
  zero_time = record { day = 306; clock = 0 }

  abbrev pub no_options : FormOptions
  no_options = record {
    as_of = zero_time;
    min_season_matches = 0;
    recent_match_limit = 0;
    half_life_matches = R.zero;
    form_weight_max = R.zero;
    form_ratio_min = R.zero;
    form_ratio_max = R.zero;
    challenger_weight = R.zero;
  }

  unfoldable pub form_options_from_env : Process R → MatchSurface → FormOptions
  unfolding with_defaults float_form_env
  form_options_from_env p surface = with_defaults p (record {
    as_of = zero_time;
    min_season_matches = 0;
    recent_match_limit = 0;
    half_life_matches =
        float_form_env R p surface (codes "HALF_LIFE_MATCHES")
          (codes "TENNISABSTRACT_FORM_HALF_LIFE_MATCHES") (literal 5 0);
    form_weight_max =
        float_form_env R p surface (codes "WEIGHT_MAX") (codes "TENNISABSTRACT_FORM_WEIGHT_MAX")
          (literal 30 2);
    form_ratio_min =
        float_form_env R p surface (codes "RATIO_MIN") (codes "TENNISABSTRACT_FORM_RATIO_MIN")
          (literal 92 2);
    form_ratio_max =
        float_form_env R p surface (codes "RATIO_MAX") (codes "TENNISABSTRACT_FORM_RATIO_MAX")
          (literal 108 2);
    challenger_weight = R.zero;
  })

  -- `now` is the result of `time.Now`.
  unfoldable pub evaluation_date : FormOptions → PlayerStats → Time → Time
  unfolding is_zero
  evaluation_date o stats now =
      if not (is_zero o.as_of)
      then o.as_of
      else if not (is_zero stats.fetched_at)
      then stats.fetched_at
      else now

  abbrev pub clamp_unit_interval : F → F
  clamp_unit_interval x = if lt x R.zero then R.zero else if lt one x then one else x

  -- The sum of the weights, the weighted sum, and the number of the rows that count.
  pub record Average : Type 0 where
    pub sum_w : F
    pub sum_dr : F
    pub n_valid : ℕ

  abbrev pub weigh : Average → F → F → Average
  weigh a half_life dr =
      let w = pow half (div (of_int (pos a.n_valid)) half_life) in
      record { sum_w = add a.sum_w w; sum_dr = add a.sum_dr (mul w dr); n_valid = suc a.n_valid }

  unfoldable pub average : List (RecentResult R) → ℕ → F → Average → Average
  average [] limit half_life a = a
  average (r ∷ rs) limit half_life a = elim r.dominance_ratio [
    | none ↦ average rs limit half_life a
    | some dr ↦ elim (leb limit (suc a.n_valid)) [
      | true ↦ weigh a half_life dr
      | false ↦ average rs limit half_life (weigh a half_life dr)
    ]
  ]

  -- The order that `sort.Slice` leaves results of one instant in is that of the list.
  unfoldable pub recent_dr_form : List (RecentResult R) → ℕ → F → F × ℕ
  unfolding average sort_stable
  recent_dr_form recent limit half_life =
      let a =
        average (sort_stable (newer R) recent) limit half_life
          (record { sum_w = R.zero; sum_dr = R.zero; n_valid = 0 }) in
      if leb limit 0 || is_empty recent
      then (R.zero, 0)
      else if leb a.n_valid 0 || float_eq R a.sum_w R.zero
      then (R.zero, 0)
      else (div a.sum_dr a.sum_w, a.n_valid)

  -- The form as a factor of the season's rates, within the bounds of the options.
  unfoldable pub form_ratio_of : FormOptions → F → F → ℕ → F
  form_ratio_of o dr_season dr_form n_valid =
      let denom = if float_eq R dr_season R.zero then one else dr_season in
      let r = div dr_form denom in
      let r' = if lt r o.form_ratio_min then o.form_ratio_min else r in
      if ltb 0 n_valid then if lt o.form_ratio_max r' then o.form_ratio_max else r' else one

  -- The weight of the form, less where fewer results count than the limit.
  unfoldable pub form_weight_of : FormOptions → ℕ → F
  form_weight_of o n_valid =
      let part = div (of_int (pos n_valid)) (of_int (pos o.recent_match_limit)) in
      if ltb 0 n_valid
      then if lt R.zero (of_int (pos o.recent_match_limit)) && lt part one
        then mul o.form_weight_max part
        else o.form_weight_max
      else R.zero

  abbrev pub adjusted : F → F → F → F
  adjusted rate ratio weight =
      clamp_unit_interval (add (mul (sub one weight) rate) (mul weight (mul rate ratio)))

  unfoldable pub rates_at : FormOptions → F × ℕ → Season R → AdjustedRates
  unfolding form_ratio_of form_weight_of
  rates_at o form s =
      let dr_form = form.0 in
      let n_valid = form.1 in
      let ratio = form_ratio_of o s.dr dr_form n_valid in
      let weight = form_weight_of o n_valid in
      record {
        hold_pct = adjusted s.hold_pct ratio weight;
        break_pct = adjusted s.break_pct ratio weight;
        season_hold = s.hold_pct;
        season_break = s.break_pct;
        dr_season = s.dr;
        dr_form = dr_form;
        form_ratio = ratio;
        form_weight = weight;
        season_matches = s.matches;
      }

  -- `ErrNoSeasonData` is `none`.
  unfoldable pub adjusted_hold_break :
      Process R → Time → PlayerStats → FormOptions → Option AdjustedRates
  unfolding with_defaults evaluation_date year season_baseline recent_dr_form rates_at
  adjusted_hold_break p now stats opts =
      let o = with_defaults p opts in
      let y = year (evaluation_date o stats now) in
      season_baseline R stats.tour_level_seasons stats.challenger_seasons y o.min_season_matches
        o.challenger_weight
      >>= λ s. some (
          rates_at o (recent_dr_form stats.recent_results o.recent_match_limit o.half_life_matches)
            s)
