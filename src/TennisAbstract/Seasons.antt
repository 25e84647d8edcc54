-- ===== src/TennisAbstract/Seasons.antt =====
-- tennis/tennisabstract/form.go: the season rows that a player's rates start from. Of a row of
-- `TourLevelSeason` the fields that this code reads are kept.
use calculated_tennis.Base.{
  ℕ, ◌+◌, ◌-◌, Bool, not, ◌||◌, Option, none, some, List, [], ◌∷◌, leb, ltb, ◌==◌, if◌then◌else◌,
  pos, Float64,
}

module _ (R : Float64) where
  open R use {F, zero, one, add, sub, mul, div, of_int}

  pub record Season : Type 0 where
    pub year : ℕ
    pub is_career : Bool
    pub matches : ℕ
    pub hold_pct : F
    pub break_pct : F
    pub dr : F

  -- `w*a + (1-w)*b`.
  abbrev pub blend : F → F → F → F
  blend w a b = add (mul w a) (mul (sub one w) b)

  -- The share of `n` in `n + m`.
  abbrev pub share : ℕ → ℕ → F
  share n m = div (of_int (pos n)) (of_int (pos (n + m)))

  abbrev pub find_season : List Season → ℕ → Option Season
  find_season [] year = none
  find_season (s ∷ ss) year =
      if s.is_career || not (s.year == year) then find_season ss year else some s

  abbrev pub latest_year : List Season → ℕ → ℕ
  latest_year [] max = max
  latest_year (s ∷ ss) max =
      latest_year ss (if s.is_career then max else if ltb max s.year then s.year else max)

  unfoldable pub most_recent_challenger_year : List Season → ℕ
  most_recent_challenger_year seasons = latest_year seasons 0

  unfoldable pub scale_challenger_season : Season → F → Season
  scale_challenger_season s weight = record {
    year = s.year;
    is_career = s.is_career;
    matches = s.matches;
    hold_pct = mul s.hold_pct weight;
    break_pct = mul s.break_pct weight;
    dr = mul s.dr weight;
  }

  -- The rates of `s` blended with those of `t`, with the matches of both.
  abbrev pub blend_seasons : Season → Season → Season
  blend_seasons s t =
      let w = share s.matches t.matches in
      record {
        year = s.year;
        is_career = s.is_career;
        matches = s.matches + t.matches;
        hold_pct = blend w s.hold_pct t.hold_pct;
        break_pct = blend w s.break_pct t.break_pct;
        dr = blend w s.dr t.dr;
      }

  -- The tour row stands alone, is blended with the challenger row, or is missing.
  unfoldable pub effective : Option Season → Option Season → ℕ → F → Option Season
  unfolding scale_challenger_season
  effective none none min_matches weight = none
  effective none (some c) min_matches weight = some (scale_challenger_season c weight)
  effective (some t) none min_matches weight = some t
  effective (some t) (some c) min_matches weight =
      if leb min_matches t.matches
      then some t
      else some (blend_seasons t (scale_challenger_season c weight))

  -- The matches that the code returns beside the season are those of the season.
  unfoldable pub build_effective_current_season :
      List Season → List Season → ℕ → ℕ → F → Option Season
  unfolding most_recent_challenger_year
  build_effective_current_season tour challenger year min_matches weight =
      let latest =
        if most_recent_challenger_year challenger == year
        then find_season challenger year
        else none in
      effective (find_season tour year) latest min_matches weight

  -- A season with too few matches is blended with the year before.
  abbrev pub with_previous : Season → Option Season → ℕ → Season
  with_previous s none min_matches = s
  with_previous s (some p) min_matches = if ltb s.matches min_matches then blend_seasons s p else s

  -- `SeasonBaseline` at the settings read from the environment, and the first half of
  -- `AdjustedHoldBreak`; the seasons' matches are added, as the latter does.
  unfoldable pub season_baseline : List Season → List Season → ℕ → ℕ → F → Option Season
  unfolding build_effective_current_season
  season_baseline tour challenger year min_matches weight =
      elim (build_effective_current_season tour challenger year min_matches weight) [
        | none ↦ none
        | some s ↦ some (with_previous s (find_season tour (year - 1)) min_matches)
      ]
