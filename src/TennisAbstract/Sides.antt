-- ===== src/TennisAbstract/Sides.antt =====
-- tennis/tennisabstract/backtest_bet.go: the side that a backtest backs.
use calculated_tennis.Base.{
  ◌≡◌, Bool, true, false, ◌||◌, Option, none, some, if◌then◌else◌, ℤ, pos, ltℤ, Float64, arith, ◌⊎◌,
}

pub data BetSide : Type 0 where
  side_none side_a side_b : BetSide

module _ (R : Float64) where
  open R use {F, zero, one, lt, le, sub, div, of_int}

  -- A side with its odds; `none` is the result `ok = false`.
  abbrev pub Decision : Type 0
  Decision = Option (BetSide × F)

  abbrev pub backed : BetSide → F → Decision
  backed side odds = if le odds zero then none else some (side, odds)

  abbrev pub bad_counts : ℤ → ℤ → Bool
  bad_counts wins_a sims = ltℤ sims (pos 1) || ltℤ wins_a (pos 0) || ltℤ sims wins_a

  abbrev pub win_pct_a : ℤ → ℤ → F
  win_pct_a wins_a sims = div (of_int wins_a) (of_int sims)

  unfoldable pub decide_bet : ℤ → ℤ → F → F → F → Decision
  decide_bet wins_a sims min_pick avg_w avg_l =
      let p = win_pct_a wins_a sims in
      if bad_counts wins_a sims
      then none
      else if le min_pick zero || lt one min_pick
      then none
      else if lt min_pick p
      then backed side_a avg_w
      else if lt min_pick (sub one p)
      then backed side_b avg_l
      else some (side_none, zero)

  unfoldable pub decide_sim_favored_side : ℤ → ℤ → F → F → Decision
  decide_sim_favored_side wins_a sims avg_w avg_l =
      let p = win_pct_a wins_a sims in
      if bad_counts wins_a sims
      then none
      else if lt p (sub one p)
      then backed side_b avg_l
      else backed side_a avg_w

  unfoldable pub decide_favorite_bet : F → F → Decision
  decide_favorite_bet avg_w avg_l =
      if le avg_w zero || le avg_l zero
      then none
      else if lt avg_l avg_w
      then some (side_b, avg_l)
      else some (side_a, avg_w)

  -- The decimal odds of a side.
  abbrev pub quoted : F → F → BetSide → F
  quoted avg_w avg_l side_none = zero
  quoted avg_w avg_l side_a = avg_w
  quoted avg_w avg_l side_b = avg_l

  -- A decision is to back no one, or a side at its own odds, which are positive.
  abbrev pub IsQuoted : F → F → Decision → Type 0
  IsQuoted avg_w avg_l decision =
      (side : BetSide) (odds : F)
      → decision ≡ some (side, odds)
      → (odds ≡ quoted avg_w avg_l side) × ((side ≡ side_none) ⊎ (le odds zero ≡ false))

  -- Each of the three decisions backs no one, or one side at that side's own positive odds; and the
  -- favorite's odds are those of which the other side's are not less, if `<` is asymmetric.
  pub decisions-AreQuoted :
      (wins_a sims : ℤ) (min_pick avg_w avg_l : F)
      → ((x y : F) → lt x y ≡ true → lt y x ≡ false)
      → IsQuoted avg_w avg_l (decide_bet wins_a sims min_pick avg_w avg_l)
        × IsQuoted avg_w avg_l (decide_sim_favored_side wins_a sims avg_w avg_l)
        × IsQuoted avg_w avg_l (decide_favorite_bet avg_w avg_l)
        × ((side : BetSide) (odds : F)
            → decide_favorite_bet avg_w avg_l ≡ some (side, odds)
            → (lt avg_w odds ≡ false) × (lt avg_l odds ≡ false))
  unfolding decide_bet decide_sim_favored_side decide_favorite_bet
  decisions-AreQuoted wins_a sims min_pick avg_w avg_l asym = (
    λ side odds h. ground arith,
    λ side odds h. ground arith,
    λ side odds h. ground arith,
    λ side odds h. ground (arith, asym avg_w avg_w, asym avg_l avg_l, asym avg_l avg_w),
  )
