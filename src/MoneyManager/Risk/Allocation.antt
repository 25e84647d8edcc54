-- ===== src/MoneyManager/Risk/Allocation.antt =====
-- moneymanager/pkg/risk/allocator.go and ev.go: the limits that an allocation keeps.
use calculated_tennis.Base.{
  ◌≡◌, refl, true, false, ◌&&◌, Option, none, some, if◌then◌else◌, ok, Text, text_test,
  text_test_iff, ℤ, arith, ◌↔◌, Float64,
}
use calculated_tennis.MoneyManager.Decimals.{Decimal}
use calculated_tennis.MoneyManager.Risk.{
  Config, allocated, size_of, allocate, side_buy, side_sell, validate_win_probability,
  expected_value_buy_price, validate_positive_ev,
}

-- `GreaterThan` is a strict order of the values.
pub record IsOrdered (M : Decimal) : Type 0 where
  pub irrefl : (a : M.D) → M.greater a a ≡ false
  pub asym : (a b : M.D) → M.greater a b ≡ true → M.greater b a ≡ false
  pub trans : (a b c : M.D) → M.greater a b ≡ false → M.greater b c ≡ false → M.greater a c ≡ false

module _ (M : Decimal) (cfg : Config M) where
  -- What the configuration allows one order to cost.
  pub record IsWithin (available capital : M.D) : Type 0 where
    pub balance : M.greater capital available ≡ false
    pub share : M.greater capital (M.mul available cfg.max_pct_balance) ≡ false
    pub cap : M.is_positive cfg.max_order_usdc ≡ true → M.greater capital cfg.max_order_usdc ≡ false

  allocated-IsWithin : (a : M.D) → IsOrdered M → IsWithin a (allocated M cfg a)
  allocated-IsWithin a o =
      let share = M.mul a cfg.max_pct_balance in
      let m = cfg.max_order_usdc in
      let capped = if M.is_positive m && M.greater share m then m else share in
      let x : M.greater capped share ≡ false = ground (arith, o.irrefl share, o.asym share m) in
      let y : M.is_positive m ≡ true → M.greater capped m ≡ false = ground (arith, o.irrefl m) in
      let z = o.asym capped a in
      record {
        balance = ground (arith, o.irrefl a);
        share = ground (arith, z, o.trans a capped share, x);
        cap = λ p. ground (arith, z, o.trans a capped m, y p);
      }

  -- An order that the rules permit, with its size.
  pub record IsPermitted (balance : Option ℤ) (side : Text) (price size : M.D) : Type 0 where
    pub buys : side ≡ side_buy
    pub priced : M.is_positive price ≡ true
    pub raw : ℤ
    pub read : balance ≡ some raw
    pub funded : M.is_positive (M.of_micro raw) ≡ true
    pub capital : M.D
    pub within : IsWithin (M.of_micro raw) capital
    pub positive : M.is_positive capital ≡ true
    pub sized : size ≡ M.truncate (M.div capital price)
    pub enough : M.less size cfg.min_share_size ≡ false

  -- If the comparison of decimals is a strict order: a size that Allocate returns is for a BUY at a
  -- positive price, on a balance that was read and is positive; it is the truncated quotient by the
  -- price of a positive capital that exceeds neither the balance nor its permitted share nor the
  -- cap, where there is one; and it is not below the least size.
  pub allocate-IsPermitted :
      (balance : Option ℤ) (side : Text) (price size : M.D)
      → IsOrdered M
      → allocate M cfg balance side price ≡ ok size
      → IsPermitted balance side price size
  unfolding allocate size_of
  allocate-IsPermitted none side price size o e = ground arith
  allocate-IsPermitted (some raw) side price size o e =
      let a = M.of_micro raw in
      let b = text_test_iff side side_buy in
      record {
        buys = ground arith;
        priced = ground arith;
        raw = raw;
        read = refl;
        funded = ground arith;
        capital = allocated M cfg a;
        within = allocated-IsWithin a o;
        positive = ground arith;
        sized = ground arith;
        enough = ground arith;
      }

module _ (M : Decimal) (N : Float64) (of_float : N.F → M.D) where
  -- ValidatePositiveEV accepts exactly a BUY at a positive price whose probability is a number
  -- above 0 and at most 1, and whose expected value at that price is positive.
  pub validate_positive_ev_iff :
      (p : N.F) (side : Text) (price : M.D)
      → (validate_positive_ev M N of_float p side price ≡ ok tt) ↔ (
          (side ≡ side_buy)
          × (M.is_positive price ≡ true)
          × (N.le p p ≡ true)
          × (N.le p N.zero ≡ false)
          × (N.lt N.one p ≡ false)
          × (M.is_positive (M.sub (M.div (of_float p) price) (M.of_int 1)) ≡ true))
  unfolding validate_positive_ev validate_win_probability expected_value_buy_price
  validate_positive_ev_iff p side price =
      let b = text_test_iff side side_buy in
      let other : side ≡ side_buy → text_test side side_sell ≡ false = λ e. rw e refl in
      ground arith
