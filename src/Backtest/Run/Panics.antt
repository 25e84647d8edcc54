-- ===== src/Backtest/Run/Panics.antt =====
-- tennis/cmd/backtestbets/backtest.go: the errors that a walk can end with.
use calculated_tennis.Base.{
  ℕ, ◌≡◌, refl, sym, [], ◌∷◌, is_empty, subst, false, ◌||◌, not, Option, none, some, Result, ok,
  err, ◌>>=◌, Text, Float64, arith, if_case,
}
use calculated_tennis.Base.Draws.{Yields}
use calculated_tennis.MoneyManager.Decimals.{Decimal}
use calculated_tennis.MoneyManager.Risk.{Config}
use calculated_tennis.Backtest.Config.{MoneyManagerConfig, BacktestConfig}
use calculated_tennis.Backtest.Stats.{BacktestStats}
use calculated_tennis.Backtest.Stakes.{
  Panic, not_finite, division_by_zero, Conversions, finite, converted, usdc_total, Allocator,
  reciprocal, price_of, balance_read, allocate_stake, LimitError, read_cap, with_cap, or_panic,
  risk_config_from_money_manager,
}
use calculated_tennis.Backtest.Config.Usable.{IsFunded}
use calculated_tennis.Backtest.Run.{new_mm_walk_allocators, with_limits, error_of_limits}
use calculated_tennis.Backtest.Singles.{
  BacktestError, of_simulation, invalid_decision, invalid_favorite, invalid_cap, panicked,
  MmWalkAllocators, stake_for,
}
use calculated_tennis.Backtest.Accounting.{Allows}
use calculated_tennis.Backtest.Walk.{IsOfSimulation, Anything}

-- A step after one that yields.
pub bind-Yields :
    {E X Y : Type 0} (Q : E → Type 0) (r : Result E X) (next : X → Result E Y)
    → Yields Q Anything r
    → ((x : X) → Yields Q Anything (next x))
    → Yields Q Anything (r >>= next)
bind-Yields Q (err e) next h k = h
bind-Yields Q (ok x) next h k = k x

Yields-err :
    {E X : Type 0} (Q : E → Type 0) (r : Result E X) (e : E) → Yields Q Anything r → r ≡ err e → Q e
Yields-err Q r e h same = subst (Yields Q Anything) same h

module _ (R : Float64) (M : Decimal) (cfg : BacktestConfig R) (C : Conversions R M) where
  -- There is a float that has no decimal, or one whose decimal is zero.
  abbrev pub IsCaused : Panic → Type 0
  IsCaused not_finite = (x : R.F) × (C.of_float x ≡ none)
  IsCaused division_by_zero =
      (x : R.F) × (d : M.D) × (C.of_float x ≡ some d)
      × (M.is_positive d ≡ false)
      × (M.is_negative d ≡ false)

  -- An error of a simulation, or a panic under the money manager.
  abbrev pub IsExplained : BacktestError → Type 0
  IsExplained (of_simulation e) = Unit
  IsExplained invalid_decision = ⊥
  IsExplained invalid_favorite = ⊥
  IsExplained invalid_cap = ⊥
  IsExplained (panicked e) =
      ((mm : MoneyManagerConfig R) × (cfg.money_manager ≡ some mm)) × IsCaused e

  pub of_simulation-IsExplained : (e : BacktestError) → IsOfSimulation e → IsExplained e
  of_simulation-IsExplained (of_simulation e) h = tt
  of_simulation-IsExplained invalid_decision h = absurd h
  of_simulation-IsExplained invalid_favorite h = absurd h
  of_simulation-IsExplained invalid_cap h = absurd h
  of_simulation-IsExplained (panicked e) h = absurd h

  pub converted-Yields : (x : R.F) → Yields IsCaused Anything (converted R M C x)
  unfolding converted
  converted-Yields x = by_value (C.of_float x) refl
    where
      by_value : (o : Option M.D) → C.of_float x ≡ o → Yields IsCaused Anything (finite R M C o)
      by_value none e = (x, e)
      by_value (some d) e = tt

  price_of-Yields : (odds : R.F) → Yields IsCaused Anything (price_of R M C odds)
  unfolding price_of converted
  price_of-Yields odds = by_value (C.of_float odds) refl
    where
      by_value :
          (o : Option M.D)
          → C.of_float odds ≡ o
          → Yields IsCaused Anything (finite R M C o >>= reciprocal R M C)
      by_value none e = (odds, e)
      by_value (some d) e =
          if_case (Yields IsCaused Anything) (M.is_positive d || M.is_negative d) (λ t. tt)
            (λ f. (odds, d, e, ground arith, ground arith))

  usdc_total-Yields :
      (initial : R.F) (stats : BacktestStats R)
      → Yields IsCaused Anything (usdc_total R M C initial stats)
  unfolding usdc_total
  usdc_total-Yields initial stats =
      bind-Yields IsCaused (converted R M C initial) _ (converted-Yields initial) (λ start.
        bind-Yields IsCaused (converted R M C stats.final_balance) _
          (converted-Yields stats.final_balance) (λ profit. tt))

  balance_read-Yields :
      (a : Allocator R M C) (stats : BacktestStats R) (price : M.D)
      → Yields IsCaused Anything (balance_read R M C a stats price)
  unfolding balance_read
  balance_read-Yields a stats price =
      if_case (Yields IsCaused Anything) (not (M.is_positive price)) (λ e. tt)
        (λ e.
          bind-Yields IsCaused (usdc_total R M C a.initial stats) _
            (usdc_total-Yields a.initial stats) (λ raw. tt))

  allocate_stake-Yields :
      (a : Allocator R M C) (stats : BacktestStats R) (odds : R.F)
      → Yields IsCaused Anything (allocate_stake R M C a stats odds)
  unfolding allocate_stake
  allocate_stake-Yields a stats odds =
      bind-Yields IsCaused (price_of R M C odds) _ (price_of-Yields odds) (λ price.
        bind-Yields IsCaused (balance_read R M C a stats price) _
          (balance_read-Yields a stats price) (λ balance. tt))

  module _ (format_float : R.F → ℕ → Text) where
    pub none-Allows : Allows R M C format_float IsExplained none
    unfolding stake_for
    none-Allows stats odds fixed e h = absurd (ground (arith, h))

    pub some-Allows :
        (mm : MoneyManagerConfig R) (a : Allocator R M C)
        → cfg.money_manager ≡ some mm
        → Allows R M C format_float IsExplained (some a)
    unfolding stake_for
    some-Allows mm a m stats odds fixed e h = (
      (mm, m),
      Yields-err IsCaused (allocate_stake R M C a stats odds) e (allocate_stake-Yields a stats odds)
          h,
    )

    -- Every track's allocator fails only with an explained error.
    abbrev pub AllAllow : MmWalkAllocators R M C format_float → Type 0
    AllAllow allocs =
        Allows R M C format_float IsExplained allocs.sim
        × Allows R M C format_float IsExplained allocs.favorite
        × Allows R M C format_float IsExplained allocs.sim_form

    abbrev IsLimit : LimitError → Type 0
    IsLimit e = IsExplained (error_of_limits R M C format_float e)

    -- The text of the cap is read again as it was checked.
    readable :
        (raw : Text)
        → (is_empty raw ≡ false
            → (limit : M.D) × (M.parse raw ≡ some limit) × (M.is_negative limit ≡ false))
        → (limit : M.D) × (read_cap R M C raw ≡ some limit)
    readable [] f = (M.of_int 0, refl)
    readable (c ∷ cs) f = let (limit, e, n) = f refl in (limit, e)

    or_panic-Yields :
        (mm : MoneyManagerConfig R) (r : Result Panic M.D)
        → cfg.money_manager ≡ some mm
        → Yields IsCaused Anything r
        → Yields IsLimit Anything (or_panic R M C r)
    or_panic-Yields mm (ok d) m h = tt
    or_panic-Yields mm (err e) m h = ((mm, m), h)

    limits-Yields :
        (mm : MoneyManagerConfig R)
        → cfg.money_manager ≡ some mm
        → IsFunded R M (some mm)
        → Yields IsLimit Anything (risk_config_from_money_manager R M C mm)
    unfolding risk_config_from_money_manager
    limits-Yields mm m f =
        let (limit, read) = readable mm.max_order_usdc f.4 in
        let convert = λ (x : R.F). or_panic-Yields mm (converted R M C x) m (converted-Yields x) in
        bind-Yields IsLimit (or_panic R M C (converted R M C mm.max_pct_balance)) _
          (convert mm.max_pct_balance)
          (λ pct.
            bind-Yields IsLimit (or_panic R M C (converted R M C mm.min_share_size)) _
              (convert mm.min_share_size)
              (λ size.
                subst (λ cap. Yields IsLimit Anything (with_cap R M C cap pct size)) (sym read) tt))

    pub new_mm_walk_allocators-Yields :
        (mm : Option (MoneyManagerConfig R))
        → cfg.money_manager ≡ mm
        → IsFunded R M mm
        → Yields IsLimit AllAllow (new_mm_walk_allocators R M C format_float mm)
    unfolding new_mm_walk_allocators
    new_mm_walk_allocators-Yields none m f = (none-Allows, none-Allows, none-Allows)
    new_mm_walk_allocators-Yields (some mm) m f =
        by_limits (risk_config_from_money_manager R M C mm) (limits-Yields mm m f)
      where
        by_limits :
            (r : Result LimitError (Config M))
            → Yields IsLimit Anything r
            → Yields IsLimit AllAllow (with_limits R M C format_float mm.initial_balance r)
        by_limits (err e) h = h
        by_limits (ok limits) h =
            let allowed =
              some-Allows mm (record { initial = mm.initial_balance; limits = limits }) m in
            (allowed, allowed, allowed)
