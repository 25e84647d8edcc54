-- ===== src/Backtest/Inputs/Accepted.antt =====
-- tennis/cmd/backtestbets/inputs.go and backtest.go: inputs that are resolved pass the check of the
-- configuration.
use calculated_tennis.Base.{
  ◌≡◌, refl, ◌∙◌, subst, Bool, true, false, Option, none, some, List, [], ◌∷◌, ◌++◌, if◌then◌else◌,
  if_case, Result, ok, err, ◌>>◌, Text, text_test, is_empty, atoi, ℤ, pos, ltℤ, Float64, arith, All,
  ◌⊎◌, inl, inr, to_lower,
}
use calculated_tennis.Base.Texts.{trim_space}
use calculated_tennis.MoneyManager.Decimals.{Decimal}
use calculated_tennis.TennisAbstract.Surfaces.{Process}
use calculated_tennis.Backtest.Config.{
  singles, parlay, outside_share, MoneyManagerConfig, BacktestConfig, normalized, normalized_mode,
  normalized_stake, Check, first_error, range_checks, checks, money_manager_checks, mode_checks,
  max_order_checks, validate,
}
use calculated_tennis.Backtest.Config.Usable.{IsPassed}
use calculated_tennis.Backtest.Inputs.{
  InputError, invalid_bet_mode, Reader, Prompted, continued, lift, accept, is_singles_answer,
  is_parlay_answer, mode_of, sims_of, flag_or_answer, ask, resolve_bet_mode, max_parlay_of,
  max_parlay_answer, resolve_max_parlay_matches, resolve_sims, number_of, resolve_number, bad_odds,
  BacktestInputFlags, resolve_money_manager_config, resolve_backtest_inputs,
}

-- What holds of a value that is given.
abbrev Gives : {X : Type 0} → (X → Type 0) → Result InputError (X × Reader) → Type 0
Gives P (err e) = Unit
Gives P (ok (x, r)) = P x

then-Gives :
    {X Y : Type 0} (Q : X → Type 0) (P : Y → Type 0) (o : Result InputError (X × Reader))
    (next : X → Prompted Y)
    → Gives Q o
    → ((x : X) (r : Reader) → Q x → Gives P (next x r))
    → Gives P (continued o next)
unfolding continued
then-Gives Q P (err e) next h k = tt
then-Gives Q P (ok (x, r)) next h k = k x r h

abbrev Any {ℓ} : {X : Type ℓ} → X → Type 0
Any x = Unit

Gives-Any : {X : Type 0} (o : Result InputError (X × Reader)) → Gives Any o
Gives-Any (err e) = tt
Gives-Any (ok (x, r)) = tt

-- What holds of a value that a text stands for.
abbrev Reads : {X : Type 0} → (X → Type 0) → Result InputError X → Type 0
Reads P (err e) = Unit
Reads P (ok x) = P x

lift-Gives :
    {X : Type 0} (P : X → Type 0) (o : Result InputError X) (r : Reader)
    → Reads P o
    → Gives P (lift o r)
lift-Gives P (err e) r h = tt
lift-Gives P (ok x) r h = h

accept-Reads :
    {X : Type 0} (o : Option X) (bad : X → Bool) (e : InputError)
    → Reads (λ x. bad x ≡ false) (accept o bad e)
accept-Reads none bad e = tt
accept-Reads (some x) bad e = if_case (Reads (λ x. bad x ≡ false)) (bad x) (λ h. tt) (λ h. h)

-- One of the two modes.
abbrev IsMode : Text → Type 0
IsMode mode = (mode ≡ singles) ⊎ (mode ≡ parlay)

by_answer :
    (b c : Bool)
    → Reads IsMode (if b then ok singles else if c then ok parlay else err invalid_bet_mode)
by_answer true c = inl refl
by_answer false true = inr refl
by_answer false false = tt

mode_of-IsMode : (raw : Text) → Reads IsMode (mode_of raw)
mode_of-IsMode raw =
    let s = to_lower (trim_space raw) in by_answer (is_singles_answer s) (is_parlay_answer s)

resolve_bet_mode-IsMode :
    (flag : Bool) (max : Text) (r : Reader) → Gives IsMode (resolve_bet_mode flag max r)
unfolding resolve_bet_mode
resolve_bet_mode-IsMode true max r = inr refl
resolve_bet_mode-IsMode false max r =
    if_case (λ (m : Prompted Text). Gives IsMode (m r)) (is_empty (trim_space max))
      (λ e.
        then-Gives Any IsMode (ask r) (λ raw. lift (mode_of raw)) (Gives-Any (ask r))
          (λ raw s h. lift-Gives IsMode (mode_of raw) s (mode_of-IsMode raw)))
      (λ e. inr refl)

-- In parlay mode, at least one leg is allowed.
abbrev IsLimit : Text → ℤ → Type 0
IsLimit mode n = text_test mode parlay ≡ true → ltℤ n (pos 1) ≡ false

max_parlay_of-Reads :
    (raw : Text) (r : Reader) → Reads (λ n. ltℤ n (pos 1) ≡ false) (max_parlay_of raw r)
max_parlay_of-Reads [] none = tt
max_parlay_of-Reads [] (some lines) = refl
max_parlay_of-Reads (c ∷ cs) r = accept-Reads (atoi (c ∷ cs)) (λ n. ltℤ n (pos 1)) _

limited :
    (mode : Text) (o : Result InputError ℤ)
    → Reads (λ n. ltℤ n (pos 1) ≡ false) o
    → Reads (IsLimit mode) o
limited mode (err e) h = tt
limited mode (ok n) h = λ _. h

resolve_max_parlay_matches-IsLimit :
    (mode flag : Text) (r : Reader) → Gives (IsLimit mode) (resolve_max_parlay_matches mode flag r)
unfolding resolve_max_parlay_matches
resolve_max_parlay_matches-IsLimit mode flag r =
    if_case (λ (m : Prompted ℤ). Gives (IsLimit mode) (m r)) (text_test mode parlay)
      (λ e.
        then-Gives Any (IsLimit mode) (flag_or_answer flag r) max_parlay_answer
          (Gives-Any (flag_or_answer flag r))
          (λ raw s h.
            lift-Gives (IsLimit mode) (max_parlay_of raw s) s
              (limited mode (max_parlay_of raw s) (max_parlay_of-Reads raw s))))
      (λ e h. absurd (ground arith))

abbrev IsCount : ℤ → Type 0
IsCount n = ltℤ n (pos 1) ≡ false

sims_of-Reads : (raw : Text) → Reads IsCount (sims_of raw)
sims_of-Reads [] = refl
sims_of-Reads (c ∷ cs) = accept-Reads (atoi (c ∷ cs)) (λ n. ltℤ n (pos 1)) _

resolve_sims-IsCount : (flag : Text) (r : Reader) → Gives IsCount (resolve_sims flag r)
unfolding resolve_sims
resolve_sims-IsCount flag r =
    then-Gives Any IsCount (flag_or_answer flag r) (λ raw. lift (sims_of raw))
      (Gives-Any (flag_or_answer flag r))
      (λ raw s h. lift-Gives IsCount (sims_of raw) s (sims_of-Reads raw))

module _ (R : Float64) (P : Process R) where
  open R use {F, zero, one, lt, le, literal}

  -- The defaults are in their ranges.
  pub record HasDefaults : Type 0 where
    pub stake : le (literal 1 0) zero ≡ false
    pub min_pick : outside_share R (literal 5 1) ≡ false
    pub min_odds : bad_odds R P zero ≡ false
    pub max_pct : outside_share R (literal 5 2) ≡ false
    pub min_share : le (literal 5 0) zero ≡ false

  number_of-Reads :
      (raw : Text) (default : Result InputError F) (bad : F → Bool) (e : InputError)
      → Reads (λ x. bad x ≡ false) default
      → Reads (λ x. bad x ≡ false) (number_of R P raw default bad e)
  number_of-Reads [] default bad e h = h
  number_of-Reads (c ∷ cs) default bad e h = accept-Reads (P.parse_float (c ∷ cs)) bad e

  resolve_number-Gives :
      (flag : Text) (default : Result InputError F) (bad : F → Bool) (e : InputError) (r : Reader)
      → Reads (λ x. bad x ≡ false) default
      → Gives (λ x. bad x ≡ false) (resolve_number R P flag default bad e r)
  unfolding resolve_number
  resolve_number-Gives flag default bad e r h =
      then-Gives Any (λ x. bad x ≡ false) (flag_or_answer flag r)
        (λ raw. lift (number_of R P raw default bad e)) (Gives-Any (flag_or_answer flag r))
        (λ raw s k.
          lift-Gives (λ x. bad x ≡ false) (number_of R P raw default bad e) s
            (number_of-Reads raw default bad e h))

  -- A bankroll whose numbers are in their ranges.
  abbrev IsRanged : Option (MoneyManagerConfig R) → Type 0
  IsRanged none = Unit
  IsRanged (some mm) =
      (le mm.initial_balance zero ≡ false)
      × (outside_share R mm.max_pct_balance ≡ false)
      × (le mm.min_share_size zero ≡ false)

  resolve_money_manager_config-IsRanged :
      (use_mm : Bool) (flags : BacktestInputFlags R P) (r : Reader)
      → HasDefaults
      → Gives IsRanged (resolve_money_manager_config R P use_mm flags r)
  unfolding resolve_money_manager_config
  resolve_money_manager_config-IsRanged false flags r d = tt
  resolve_money_manager_config-IsRanged true flags r d =
      then-Gives (λ x. le x zero ≡ false) IsRanged _ _ (resolve_number-Gives _ _ _ _ r tt)
        (λ balance r1 b. then-Gives Any IsRanged _ _ (Gives-Any _) (λ limit r2 l.
          then-Gives (λ x. outside_share R x ≡ false) IsRanged _ _
            (resolve_number-Gives _ _ _ _ r2 d.max_pct)
            (λ pct r3 p.
              then-Gives (λ x. le x zero ≡ false) IsRanged _ _
                (resolve_number-Gives _ _ _ _ r3 d.min_share) (λ share r4 s. (b, p, s)))))

  -- A configuration whose numbers are in their ranges, but for `alpha` and the cap.
  record IsResolved (alpha : F) (cfg : BacktestConfig R) : Type 0 where
    same_alpha : cfg.alpha ≡ alpha
    staked : le cfg.stake zero ≡ false
    pick : outside_share R cfg.min_pick ≡ false
    counted : IsCount cfg.sims
    odds : bad_odds R P cfg.min_odds ≡ false
    mode : IsMode cfg.bet_mode
    limit : IsLimit cfg.bet_mode cfg.max_parlay_matches
    ranged : IsRanged cfg.money_manager

  resolve_backtest_inputs-IsResolved :
      (alpha : F) (dir : Text) (flags : BacktestInputFlags R P) (r : Reader)
      → HasDefaults
      → Gives (IsResolved alpha) (resolve_backtest_inputs R P alpha dir flags r)
  unfolding resolve_backtest_inputs
  resolve_backtest_inputs-IsResolved alpha dir flags r d =
      let Done = IsResolved alpha in
      then-Gives (λ x. le x zero ≡ false) Done _ _ (resolve_number-Gives _ _ _ _ r d.stake)
        (λ stake r1 a.
          then-Gives (λ x. outside_share R x ≡ false) Done _ _
            (resolve_number-Gives _ _ _ _ r1 d.min_pick)
            (λ pick r2 b. then-Gives IsCount Done _ _ (resolve_sims-IsCount _ r2) (λ sims r3 c.
              then-Gives (λ x. bad_odds R P x ≡ false) Done _ _
                (resolve_number-Gives _ _ _ _ r3 d.min_odds)
                (λ odds r4 e. then-Gives Any Done _ _ (Gives-Any _) (λ ev r5 f.
                  then-Gives IsMode Done _ _ (resolve_bet_mode-IsMode _ _ r5) (λ mode r6 g.
                    then-Gives (IsLimit mode) Done _ _
                      (resolve_max_parlay_matches-IsLimit mode _ r6)
                      (λ limit r7 h. then-Gives Any Done _ _ (Gives-Any _) (λ managed r8 i.
                        then-Gives IsRanged Done _ _
                          (resolve_money_manager_config-IsRanged managed flags r8 d)
                          (λ mm r9 j. record {
                            same_alpha = refl;
                            staked = a;
                            pick = b;
                            counted = c;
                            odds = e;
                            mode = g;
                            limit = h;
                            ranged = j;
                          })))))))))

  module _ (M : Decimal) where
    -- The checks of the cap alone.
    abbrev pub only_cap : Option (MoneyManagerConfig R) → List Check
    only_cap none = []
    only_cap (some mm) = max_order_checks R M mm.max_order_usdc

    mode_checks-Passed :
        (mode : Text) (n : ℤ) → IsMode mode → IsLimit mode n → All IsPassed (mode_checks R M mode n)
    mode_checks-Passed mode n (inl e) l = rw e tt
    mode_checks-Passed mode n (inr e) l =
        let limit : ltℤ n (pos 1) ≡ false = l (rw e refl) in rw e (limit, tt)

    first_error-behind :
        (cs ds : List Check) → All IsPassed cs → first_error (cs ++ ds) ≡ first_error ds
    unfolding first_error
    first_error-behind [] ds h = refl
    first_error-behind ((bad, e) ∷ cs) ds h = rw h.0 (first_error-behind cs ds h.1)

    first_error-before :
        (cs ds : List Check) → All IsPassed ds → first_error (cs ++ ds) ≡ first_error cs
    unfolding first_error
    first_error-before [] [] h = refl
    first_error-before [] ((bad, e) ∷ ds) h = rw h.0 (first_error-before [] ds h.1)
    first_error-before ((true, e) ∷ cs) ds h = refl
    first_error-before ((false, e) ∷ cs) ds h = first_error-before cs ds h

    only_cap_lem :
        (mm : Option (MoneyManagerConfig R)) (ds : List Check)
        → IsRanged mm
        → first_error (money_manager_checks R M mm ++ ds) ≡ first_error (only_cap mm ++ ds)
    unfolding first_error
    only_cap_lem none ds h = refl
    only_cap_lem (some mm) ds h = rw (h.0, h.1, h.2) refl

    mode_normalized : (mode : Text) → IsMode mode → normalized_mode R mode ≡ mode
    mode_normalized mode (inl e) = rw e refl
    mode_normalized mode (inr e) = rw e refl

    stake_normalized : (x : F) → le x zero ≡ false → normalized_stake R x ≡ x
    stake_normalized x h = ground arith

    resolved_lem :
        (alpha : F) (cfg : BacktestConfig R)
        → le alpha zero ≡ false
        → IsResolved alpha cfg
        → first_error (checks R M cfg) ≡ first_error (only_cap cfg.money_manager)
    resolved_lem alpha cfg h v =
        let modes = mode_checks R M (normalized_mode R cfg.bet_mode) cfg.max_parlay_matches in
        let stake : le (normalized_stake R cfg.stake) zero ≡ false =
          rw (stake_normalized cfg.stake v.staked) v.staked in
        let sound : le cfg.alpha zero ≡ false = rw v.same_alpha h in
        first_error-behind (range_checks R M cfg)
          (money_manager_checks R M cfg.money_manager ++ modes)
          (
            v.counted,
            (sound, (v.pick, (ground (arith, v.odds), (ground (arith, v.odds), (stake, tt))))),
          )
        ∙ only_cap_lem cfg.money_manager modes v.ranged
        ∙ first_error-before (only_cap cfg.money_manager) modes (
            rw (mode_normalized cfg.bet_mode v.mode)
              (mode_checks-Passed cfg.bet_mode cfg.max_parlay_matches v.mode v.limit))

    -- If the defaults are in their ranges and alpha is positive, the configuration that is resolved
    -- from flags and answers passes every check of `validate` but that of the cap on orders: its
    -- result is that check's, followed by the normalized configuration.
    pub resolve_backtest_inputs-validate :
        (alpha : F) (dir : Text) (flags : BacktestInputFlags R P) (r rest : Reader)
        (cfg : BacktestConfig R)
        → HasDefaults
        → le alpha zero ≡ false
        → resolve_backtest_inputs R P alpha dir flags r ≡ ok (cfg, rest)
        → validate R M cfg ≡ (first_error (only_cap cfg.money_manager) >> ok (normalized R cfg))
    unfolding validate
    resolve_backtest_inputs-validate alpha dir flags r rest cfg d positive h =
        let resolved : IsResolved alpha cfg =
          subst (Gives (IsResolved alpha)) h
            (resolve_backtest_inputs-IsResolved alpha dir flags r d) in
        rw (resolved_lem alpha cfg positive resolved) refl
