-- ===== src/Tennis/Score/Hydrate/Tokens.antt =====
-- tennis/tennis/score.go: a token that the validator accepts is replayed by `hydrateSet`.
use calculated_tennis.Base.{
  ℕ, ◌+◌, ◌*◌, ◌≤◌, ◌<◌, ◌≡◌, refl, Bool, true, false, ◌&&◌, some, List, inl, inr, ltb, ◌==◌,
  if◌then◌else◌, ok, arith, ◌∙◌, sym, Bool-cases, subst,
}
use calculated_tennis.Tennis.State.{
  Player, A, B, opponent, Tally, zero_tally, MatchFormat, SetResult, Match,
}
use calculated_tennis.Tennis.Rules.{points_target}
use calculated_tennis.Tennis.Score.{SetScore, has_tiebreak, tiebreak_points}
use calculated_tennis.Tennis.Score.Validate.{
  in_progress, completed, validate_game_totals, classify_set, tiebreak_complete,
}
use calculated_tennis.Tennis.Score.Hydrate.{
  tiebreak_set_games, games_target, score_needs_tiebreak_hydration, hydrate_set,
  assert_in_progress_set, replay_regular_games_to, replay_regular_games_until_set_complete,
  replay_tiebreak_until_set_complete, replay_tiebreak_points_to,
}
use calculated_tennis.Tennis.Score.Hydrate.Steps.{
  IsStandard, start-OnWay, IsOpenTarget, InGames, InTiebreak, HasSet,
}
use calculated_tennis.Tennis.Score.Hydrate.Regular.{replay-InGames, replay-InTiebreak}
use calculated_tennis.Tennis.Score.Hydrate.SetLoop.{IsSetOf, replay-HasSet}
use calculated_tennis.Tennis.Score.Hydrate.TiebreakLoop.{replay-points, replay_tiebreak-HasSet}

-- Fuel for the games of a set, and for its tiebreak up to a close win.
pub record HasFuel (f : MatchFormat) (fuel : ℕ) : Type 0 where
  pub games : f.tiebreak_at_games_each + f.tiebreak_at_games_each + 1 < fuel
  pub points : 2 * f.tiebreak_points_to_win + 4 ≤ fuel
  pub final_points : 2 * f.final_set_tiebreak_points_to_win + 4 ≤ fuel

target_fuel :
    (f : MatchFormat) (won : Tally) (fuel : ℕ) → HasFuel f fuel → 2 * points_target f won + 4 ≤ fuel
target_fuel f won fuel h = ground arith

-- The token is what the match shows of the set under way.
pub record Shows (f : MatchFormat) (cs : List SetResult) (won : Tally) (s : SetScore) (m : Match)
    : Type 0 where
  pub same : m.format ≡ f
  pub live : m.done ≡ false
  pub completed : m.completed_sets ≡ cs
  pub sets : m.sets_won ≡ won
  pub games : m.current.games ≡ games_target s
  pub asserted : assert_in_progress_set m s f ≡ ok tt

hydrate_tiebreak :
    (fuel : ℕ) (m m1 : Match) (s : SetScore) (f : MatchFormat) (complete : Bool)
    → m.done ≡ false
    → score_needs_tiebreak_hydration s f complete ≡ true
    → replay_regular_games_to fuel m
        (record { a = f.tiebreak_at_games_each; b = f.tiebreak_at_games_each })
      ≡ some (ok m1)
    → hydrate_set fuel m s f complete ≡ (
        if complete
        then replay_tiebreak_until_set_complete fuel m1 (games_target s)
        else replay_tiebreak_points_to fuel m1 (tiebreak_points s))
unfolding hydrate_set
hydrate_tiebreak fuel m m1 s f complete live needs e = ground arith

hydrate_games :
    (fuel : ℕ) (m : Match) (s : SetScore) (f : MatchFormat) (complete : Bool)
    → m.done ≡ false
    → score_needs_tiebreak_hydration s f complete ≡ false
    → hydrate_set fuel m s f complete ≡ (
        if complete
        then replay_regular_games_until_set_complete fuel m (games_target s)
        else replay_regular_games_to fuel m (games_target s))
unfolding hydrate_set
hydrate_games fuel m s f complete live needs = ground arith

IsSetOf-bound :
    (f : MatchFormat) (v : IsStandard f) (w : Player) (t : Tally)
    → IsSetOf f w t
    → t.a + t.b ≤ f.tiebreak_at_games_each + f.tiebreak_at_games_each
unfolding opponent
IsSetOf-bound f v A t d = ground (arith, v.by_two)
IsSetOf-bound f v B t d = ground (arith, v.by_two)

module _ (f : MatchFormat) (v : IsStandard f) (won : Tally) (s : SetScore)
    (totals : validate_game_totals s f ≡ ok tt) where
  -- A completed token is a set won in the tiebreak, or one that needs none.
  completed_shape :
      (w : Player)
      → classify_set s f won ≡ ok (completed w)
      → score_needs_tiebreak_hydration s f true ≡ true
      → games_target s ≡ tiebreak_set_games f w
  unfolding classify_set score_needs_tiebreak_hydration
  completed_shape A e n = ground arith
  completed_shape B e n = ground arith

  completed-IsSetOf :
      (w : Player)
      → classify_set s f won ≡ ok (completed w)
      → score_needs_tiebreak_hydration s f true ≡ false
      → IsSetOf f w (games_target s)
  unfolding classify_set score_needs_tiebreak_hydration validate_game_totals opponent
  completed-IsSetOf A e n = record {
    wins = ground (arith, v.games, v.by_two);
    needed = ground (arith, v.games, v.by_two);
  }
  completed-IsSetOf B e n = record {
    wins = ground (arith, v.games, v.by_two);
    needed = ground (arith, v.games, v.by_two);
  }

  -- The side that a completed token is for has more games.
  pub completed-ahead :
      (w : Player)
      → classify_set s f won ≡ ok (completed w)
      → (if ltb s.games_a s.games_b then B else A) ≡ w
  unfolding classify_set
  completed-ahead A e = ground (arith, v.by_two)
  completed-ahead B e = ground (arith, v.by_two)

  -- A set under way has a tiebreak that is not over, or games that do not win it.
  points_open :
      classify_set s f won ≡ ok in_progress
      → s.games_a ≡ f.tiebreak_at_games_each
      → s.games_b ≡ f.tiebreak_at_games_each
      → IsOpenTarget (points_target f won) f.tiebreak_point_margin (tiebreak_points s)
  unfolding classify_set tiebreak_complete
  points_open e ea eb = record { open_a = ground arith; open_b = ground arith }

  module _ (e : classify_set s f won ≡ ok in_progress)
      (n : s.games_a ≡ f.tiebreak_at_games_each → s.games_b ≡ f.tiebreak_at_games_each → ⊥) where
    games_open : IsOpenTarget f.games_per_set f.game_margin (games_target s)
    unfolding classify_set
    games_open = record { open_a = ground (arith, v.by_two); open_b = ground (arith, v.by_two) }

    no_points : has_tiebreak s.tiebreak ≡ false
    unfolding classify_set
    no_points = ground arith

    -- Level games above the tiebreak's are the only ones that are accepted and out of bounds.
    games_within :
        (s.games_a ≡ s.games_b → s.games_a ≤ f.tiebreak_at_games_each)
        → (s.games_a ≤ f.tiebreak_at_games_each) × (s.games_b ≤ f.tiebreak_at_games_each)
    unfolding classify_set validate_game_totals
    games_within h = ground (arith, v.games, v.by_two)

    plays_games : score_needs_tiebreak_hydration s f false ≡ false
    unfolding score_needs_tiebreak_hydration classify_set
    plays_games = ground arith

    games_asserted :
        (cs : List SetResult) (m : Match)
        → InGames f cs won (games_target s) m
        → assert_in_progress_set m s f ≡ ok tt
    unfolding assert_in_progress_set
    games_asserted cs m i = ground (arith, no_points)

  module _ (ea : s.games_a ≡ f.tiebreak_at_games_each)
      (eb : s.games_b ≡ f.tiebreak_at_games_each) where
    plays_tiebreak : score_needs_tiebreak_hydration s f false ≡ true
    unfolding score_needs_tiebreak_hydration
    plays_tiebreak = ground arith

    points_asserted :
        (cs : List SetResult) (m : Match)
        → InTiebreak f cs won (tiebreak_points s) m
        → assert_in_progress_set m s f ≡ ok tt
    unfolding assert_in_progress_set
    points_asserted cs m i = ground arith

  module _ (cs : List SetResult) (fuel : ℕ) (h : HasFuel f fuel) (m : Match)
      (i : InGames f cs won zero_tally m) where
    to_level :
        (m' : Match) × (replay_regular_games_to fuel m
            (record { a = f.tiebreak_at_games_each; b = f.tiebreak_at_games_each })
          ≡ some (ok m'))
        × InTiebreak f cs won zero_tally m'
    to_level =
        replay-InTiebreak f cs won _ v
          (record { open_a = ground (arith, v.by_two); open_b = ground (arith, v.by_two) })
          (omega arith) (omega arith) fuel zero_tally m (omega (arith, h.games)) refl refl
          (ground (arith, v.some_game)) (start-OnWay _) i

    pub hydrate-HasSet :
        (w : Player)
        → classify_set s f won ≡ ok (completed w)
        → (m' : Match) × (hydrate_set fuel m s f true ≡ some (ok m'))
          × HasSet f cs won (games_target s) w m'
    hydrate-HasSet w e = elim (Bool-cases (score_needs_tiebreak_hydration s f true)) [
      | inl needs ↦
          let (m1, e1, i1) = to_level in
          let (m', e', r) =
            replay_tiebreak-HasSet f cs won v fuel w m1 (target_fuel f won fuel h) i1 in
          let shape = completed_shape w e needs in
          (
            m',
            hydrate_tiebreak fuel m m1 s f true i.live needs e1 ∙ rw (shape) e',
            subst (λ q. HasSet f cs won q w m') (sym shape) r,
          )
      | inr plain ↦
          let (m', e', r) =
            replay-HasSet f cs won (games_target s) v fuel w m (completed-IsSetOf w e plain)
              (omega (
                arith,
                IsSetOf-bound f v w (games_target s) (completed-IsSetOf w e plain),
                h.games,
              ))
              i in
          (m', hydrate_games fuel m s f true i.live plain ∙ e', r)
    ]

    -- A token under way, and enough fuel for its points.
    pub hydrate-Shows :
        classify_set s f won ≡ ok in_progress
        → (s.games_a ≡ s.games_b → s.games_a ≤ f.tiebreak_at_games_each)
        → (tiebreak_points s).a + (tiebreak_points s).b < fuel
        → (m' : Match) × (hydrate_set fuel m s f false ≡ some (ok m')) × Shows f cs won s m'
    hydrate-Shows e within enough = elim (Bool-cases level) [
      | inl there ↦
          let ea : s.games_a ≡ f.tiebreak_at_games_each = ground arith in
          let eb : s.games_b ≡ f.tiebreak_at_games_each = ground arith in
          let (m1, e1, i1) = to_level in
          let (m', e', r) =
            replay-points f cs won v (tiebreak_points s) (points_open e ea eb) fuel zero_tally m1
              (omega arith) (start-OnWay _) i1 in
          (
            m',
            hydrate_tiebreak fuel m m1 s f false i.live (plays_tiebreak ea eb) e1 ∙ e',
            record {
              same = r.same;
              live = r.live;
              completed = r.completed;
              sets = r.sets;
              games = ground arith;
              asserted = points_asserted ea eb cs m' r;
            },
          )
      | inr away ↦
          let n : s.games_a ≡ f.tiebreak_at_games_each → s.games_b ≡ f.tiebreak_at_games_each → ⊥ =
            λ ea eb. ground arith in
          let (wa, wb) = games_within e n within in
          let (m', e', r) =
            replay-InGames f cs won (games_target s) v (games_open e n) wa wb fuel zero_tally m
              (omega (arith, h.games)) n (start-OnWay _) i in
          (
            m',
            hydrate_games fuel m s f false i.live (plays_games e n) ∙ e',
            record {
              same = r.same;
              live = r.live;
              completed = r.completed;
              sets = r.sets;
              games = r.games;
              asserted = games_asserted e n cs m' r;
            },
          )
    ]
      where
        level : Bool
        level = s.games_a == f.tiebreak_at_games_each && s.games_b == f.tiebreak_at_games_each
