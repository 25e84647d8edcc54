-- ===== src/TennisAbstract/Preload.antt =====
-- tennis/tennisabstract/backtest_preload.go, and MatchPlayerRatesFromPreload of backtest_rates.go:
-- the recent results of the players of many matches, each fetched once, and the rates from them.
pub mod Direct
use calculated_tennis.Base.{
  ℕ, zero, suc, Bool, true, false, not, ◌&&◌, Option, none, some, List, [], ◌∷◌, if◌then◌else◌,
  ◌==◌, Text, text_test, ℤ, pos, negsuc, Float64,
}
use calculated_tennis.Base.Options.{◌>>=◌}
use calculated_tennis.Tennis.Simulation.{Rates}
use calculated_tennis.TennisAbstract.Dates.{Time, tourney_date_as_time}
use calculated_tennis.TennisAbstract.Surfaces.{Process}
use calculated_tennis.TennisAbstract.Recent.{RecentResult}
use calculated_tennis.TennisAbstract.Form.{FormOptions, no_options, with_defaults}
use calculated_tennis.TennisAbstract.Rates.{
  PlayerRatesMap, rates_entry, Client, at_date, player_rates_with_preloaded_recent,
}
use calculated_tennis.TennisAbstract.Rows.{CalibrationMatch}

pub record PlayerRecentKey : Type 0 where
  pub slug : Text
  pub tourney_date : ℕ

abbrev pub recent_key_test : PlayerRecentKey → PlayerRecentKey → Bool
recent_key_test k l = text_test k.slug l.slug && k.tourney_date == l.tourney_date

module _ (R : Float64) where
  pub record CalibrationMatchRecent : Type 0 where
    pub recent_a : List (RecentResult R)
    pub recent_b : List (RecentResult R)
    pub is_ok : Bool

  abbrev pub nothing_recent : CalibrationMatchRecent
  nothing_recent = record { recent_a = []; recent_b = []; is_ok = false }

  -- The results by match.
  abbrev pub CalibrationRecentPreload : Type 0
  CalibrationRecentPreload = List CalibrationMatchRecent

  abbrev pub RecentCache : Type 0
  RecentCache = List (PlayerRecentKey × List (RecentResult R))

  abbrev pub recent_entry : RecentCache → PlayerRecentKey → Option (List (RecentResult R))
  recent_entry [] key = none
  recent_entry ((k, results) ∷ rest) key =
      if recent_key_test k key then some results else recent_entry rest key

  abbrev pub fetched :
      RecentCache
      → PlayerRecentKey
      → Option (List (RecentResult R))
      → Option (List (RecentResult R)) × RecentCache
  fetched cache key none = (none, cache)
  fetched cache key (some recent) = (some recent, (key, recent) ∷ cache)

  -- What the cache has, or else what the client gives.
  abbrev pub from_cache :
      Option (List (RecentResult R))
      → RecentCache
      → PlayerRecentKey
      → Option (List (RecentResult R))
      → Option (List (RecentResult R)) × RecentCache
  from_cache (some recent) cache key answer = (some recent, cache)
  from_cache none cache key answer = fetched cache key answer

  module _ (client : Client R) where
    unfoldable pub preload_player_recent :
        RecentCache → Text → Text → ℕ → Time → ℕ → Option (List (RecentResult R)) × RecentCache
    preload_player_recent cache name slug tourney_date as_of limit =
        let key : PlayerRecentKey = record { slug = slug; tourney_date = tourney_date } in
        from_cache (recent_entry cache key) cache key (client name as_of limit)

    abbrev pub match_recent :
        Option (List (RecentResult R)) → Option (List (RecentResult R)) → CalibrationMatchRecent
    match_recent (some ra) (some rb) = record { recent_a = ra; recent_b = rb; is_ok = true }
    match_recent (some ra) none = record { recent_a = ra; recent_b = []; is_ok = false }
    match_recent none (some rb) = record { recent_a = []; recent_b = rb; is_ok = false }
    match_recent none none = nothing_recent

    -- A match on no valid date has no results.
    unfoldable pub preload_match :
        RecentCache → CalibrationMatch → Option Time → ℕ → CalibrationMatchRecent × RecentCache
    unfolding preload_player_recent
    preload_match cache m none limit = (nothing_recent, cache)
    preload_match cache m (some as_of) limit =
        let a = preload_player_recent cache m.player_a m.player_a_slug m.tourney_date as_of limit in
        let b = preload_player_recent a.1 m.player_b m.player_b_slug m.tourney_date as_of limit in
        (match_recent a.0 b.0, b.1)

    unfoldable pub preload_matches :
        RecentCache → List CalibrationMatch → ℕ → CalibrationRecentPreload
    unfolding preload_match tourney_date_as_time
    preload_matches cache [] limit = []
    preload_matches cache (m ∷ ms) limit =
        let r = preload_match cache m (tourney_date_as_time m.tourney_date) limit in
        r.0 ∷ preload_matches r.1 ms limit

  abbrev pub nothing_for : List CalibrationMatch → CalibrationRecentPreload
  nothing_for [] = []
  nothing_for (m ∷ ms) = nothing_recent ∷ nothing_for ms

  module _ (P : Process R) where
    -- A limit that is not positive is unset.
    unfoldable pub recent_limit_or_default : ℤ → ℕ
    unfolding with_defaults
    recent_limit_or_default (pos (suc n)) = suc n
    recent_limit_or_default other = (with_defaults R P (no_options R)).recent_match_limit

    -- `none` is the missing client.
    unfoldable pub preload_calibration_match_recent :
        Option (Client R) → List CalibrationMatch → ℤ → CalibrationRecentPreload
    unfolding preload_matches recent_limit_or_default
    preload_calibration_match_recent none ms limit = nothing_for ms
    preload_calibration_match_recent (some client) ms limit =
        preload_matches client [] ms (recent_limit_or_default limit)

    abbrev pub at_index : CalibrationRecentPreload → ℕ → Option CalibrationMatchRecent
    at_index [] i = none
    at_index (r ∷ rest) zero = some r
    at_index (r ∷ rest) (suc i) = at_index rest i

    abbrev pub match_at : CalibrationRecentPreload → ℤ → Option CalibrationMatchRecent
    match_at preload (pos i) = at_index preload i
    match_at preload (negsuc i) = none

    unfoldable pub match_player_rates_from_preload :
        Time
        → CalibrationMatch
        → PlayerRatesMap R
        → CalibrationRecentPreload
        → ℤ
        → FormOptions R
        → Option (Rates R)
    unfolding player_rates_with_preloaded_recent tourney_date_as_time
    match_player_rates_from_preload now m rates preload index opts = do
      a ← rates_entry R rates m.player_a_slug
      b ← rates_entry R rates m.player_b_slug
      pr ← match_at preload index
      ready ← if pr.is_ok then some pr else none
      as_of ← tourney_date_as_time m.tourney_date
      ra ← player_rates_with_preloaded_recent R P now a as_of ready.recent_a (at_date R opts as_of)
      rb ← player_rates_with_preloaded_recent R P now b as_of ready.recent_b (at_date R opts as_of)
      some (record { of_a = ra; of_b = rb })
