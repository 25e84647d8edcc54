-- ===== src/TennisAbstract/Preload/Direct.antt =====
-- tennis/tennisabstract/backtest_preload.go: the cache does not change what is fetched.
use calculated_tennis.Base.{
  ℕ, ◌≡◌, refl, sym, ap, ◌∙◌, subst, true, Option, none, some, List, [], ◌∷◌, map, All, if_case,
  Text, text_test_iff, ==_iff, arith, Float64, ℤ,
}
use calculated_tennis.TennisAbstract.Surfaces.{Process, or_fallback}
use calculated_tennis.Base.Options.{Holds}
use calculated_tennis.TennisAbstract.Dates.{Time, tourney_date_as_time}
use calculated_tennis.TennisAbstract.Recent.{RecentResult}
use calculated_tennis.TennisAbstract.Rates.{Client}
use calculated_tennis.TennisAbstract.Rows.{CalibrationMatch}
use calculated_tennis.TennisAbstract.Preload.{
  PlayerRecentKey, recent_key_test, CalibrationMatchRecent, nothing_recent, RecentCache,
  recent_entry, from_cache, preload_player_recent, match_recent, preload_match, preload_matches,
  recent_limit_or_default, preload_calibration_match_recent,
}

recent_key_test_eq : (k l : PlayerRecentKey) → recent_key_test k l ≡ true → k ≡ l
recent_key_test_eq k l h =
    let a : k.slug ≡ l.slug = ground (arith, text_test_iff k.slug l.slug) in
    let b : k.tourney_date ≡ l.tourney_date =
      ground (arith, ==_iff k.tourney_date l.tourney_date) in
    λ i. record { slug = a i; tourney_date = b i }

module _ (R : Float64) (client : Client R) (limit : ℕ) where
  -- What the client gives for both players of a match.
  abbrev pub direct_at : CalibrationMatch → Option Time → CalibrationMatchRecent R
  direct_at m none = nothing_recent R
  direct_at m (some t) =
      match_recent R client (client m.player_a t limit) (client m.player_b t limit)

  unfoldable pub direct : CalibrationMatch → CalibrationMatchRecent R
  direct m = direct_at m (tourney_date_as_time m.tourney_date)

  module _ (name_of : Text → Text) where
    -- Both players have the names of their slugs.
    abbrev pub IsNamed : CalibrationMatch → Type 0
    IsNamed m = (m.player_a ≡ name_of m.player_a_slug) × (m.player_b ≡ name_of m.player_b_slug)

    -- The client gives these results for the key.
    abbrev IsFetched : PlayerRecentKey → List (RecentResult R) → Type 0
    IsFetched key recent =
        (t : Time)
        → tourney_date_as_time key.tourney_date ≡ some t
        → client (name_of key.slug) t limit ≡ some recent

    abbrev AreFetched : RecentCache R → Type 0
    AreFetched cache = All (λ e. IsFetched e.0 e.1) cache

    recent_entry-IsFetched :
        (cache : RecentCache R) (key : PlayerRecentKey)
        → AreFetched cache
        → Holds (IsFetched key) (recent_entry R cache key)
    recent_entry-IsFetched [] key h = tt
    recent_entry-IsFetched ((k, results) ∷ rest) key h =
        if_case (Holds (IsFetched key)) (recent_key_test k key)
          (λ e. subst (λ x. IsFetched x results) (recent_key_test_eq k key e) h.0)
          (λ e. recent_entry-IsFetched rest key h.1)

    -- An answer, and the cache after it.
    abbrev IsAnswered :
        Option (List (RecentResult R)) → Option (List (RecentResult R)) × RecentCache R → Type 0
    IsAnswered answer r = (r.0 ≡ answer) × AreFetched r.1

    from_cache-IsAnswered :
        (found answer : Option (List (RecentResult R))) (cache : RecentCache R)
        (key : PlayerRecentKey) (t : Time)
        → tourney_date_as_time key.tourney_date ≡ some t
        → client (name_of key.slug) t limit ≡ answer
        → AreFetched cache
        → Holds (IsFetched key) found
        → IsAnswered answer (from_cache R found cache key answer)
    from_cache-IsAnswered (some recent) answer cache key t d a c h = (sym (h t d) ∙ a, c)
    from_cache-IsAnswered none none cache key t d a c h = (refl, c)
    from_cache-IsAnswered none (some recent) cache key t d a c h = (
      refl,
      (
        (λ u e.
            ap (λ x. client (name_of key.slug) x limit)
              (sym (ap (λ o. or_fallback o t) (sym d ∙ e)))
            ∙ a),
        c,
      ),
    )

    preload_player_recent-IsAnswered :
        (cache : RecentCache R) (name slug : Text) (day : ℕ) (t : Time)
        → tourney_date_as_time day ≡ some t
        → name ≡ name_of slug
        → AreFetched cache
        → IsAnswered
            (client name t limit)
            (preload_player_recent R client cache name slug day t limit)
    unfolding preload_player_recent
    preload_player_recent-IsAnswered cache name slug day t d n c =
        let key : PlayerRecentKey = record { slug = slug; tourney_date = day } in
        from_cache-IsAnswered (recent_entry R cache key) (client name t limit) cache key t d
          (ap (λ x. client x t limit) (sym n)) c (recent_entry-IsFetched cache key c)

    preload_match_lem :
        (cache : RecentCache R) (m : CalibrationMatch) (o : Option Time)
        → tourney_date_as_time m.tourney_date ≡ o
        → IsNamed m
        → AreFetched cache
        → ((preload_match R client cache m o limit).0 ≡ direct_at m o)
          × AreFetched (preload_match R client cache m o limit).1
    unfolding preload_match
    preload_match_lem cache m none d n c = (refl, c)
    preload_match_lem cache m (some t) d n c =
        let a =
          preload_player_recent-IsAnswered cache m.player_a m.player_a_slug m.tourney_date t d n.0
            c in
        let next =
          (preload_player_recent R client cache m.player_a m.player_a_slug m.tourney_date t
            limit).1 in
        let b =
          preload_player_recent-IsAnswered next m.player_b m.player_b_slug m.tourney_date t d n.1
            a.1 in
        (rw (a.0, b.0) refl, b.1)

    preload_matches-fetched :
        (cache : RecentCache R) (ms : List CalibrationMatch)
        → All IsNamed ms
        → AreFetched cache
        → preload_matches R client cache ms limit ≡ map direct ms
    unfolding preload_matches direct
    preload_matches-fetched cache [] n c = refl
    preload_matches-fetched cache (m ∷ ms) n c =
        let h = preload_match_lem cache m (tourney_date_as_time m.tourney_date) refl n.0 c in
        let next = (preload_match R client cache m (tourney_date_as_time m.tourney_date) limit).1 in
        rw (h.0, preload_matches-fetched next ms n.1 h.1) refl

module _ (R : Float64) (P : Process R) where
  -- If both players of every match have the names of their slugs: PreloadCalibrationMatchRecent,
  -- which fetches once for a slug and a date, gives for each match what the client gives for its
  -- two players at its date, or nothing where the date is not valid.
  pub preload_calibration_match_recent-direct :
      (client : Client R) (name_of : Text → Text) (ms : List CalibrationMatch) (limit : ℤ)
      → All (IsNamed R client (recent_limit_or_default R P limit) name_of) ms
      → preload_calibration_match_recent R P (some client) ms limit
        ≡ map (direct R client (recent_limit_or_default R P limit)) ms
  unfolding preload_calibration_match_recent
  preload_calibration_match_recent-direct client name_of ms limit named =
      preload_matches-fetched R client (recent_limit_or_default R P limit) name_of [] ms named tt
