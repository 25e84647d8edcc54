-- ===== src/Polymarket/Examples/Traders.antt =====
-- The theorems on polymarket/core/atp_market_discovery.go at concrete markets.
use calculated_tennis.Base.{
  ℕ, ◌≡◌, refl, Bool, true, false, Option, some, List, [], ◌∷◌, Text, codes, pos, ◌==◌, ◌⊎◌,
  if◌then◌else◌,
}
use calculated_tennis.Base.Texts.{trim_space}
use calculated_tennis.Polymarket.Markets.{GammaMarket}
use calculated_tennis.Polymarket.Discovery.{
  is_in, new_discovery, mark_started, begin_start, end_start, hydrate_by_slug, start_market,
}
use calculated_tennis.Polymarket.Discovery.Retries.{IsFirstAnswer, hydrate_by_slug-IsFirstAnswer}
use calculated_tennis.Polymarket.Discovery.Once.{
  Call, begins, ends, calls, IsOnce, calls-new-IsOnce, failed_start-is_in,
}
use calculated_tennis.Polymarket.Discovery.Starts.{
  IsToStart, IsStartable, IsStarted, start_market-IsStarted,
}

-- A moneyline market with two tokens; decimals and times are numbers.
abbrev final_market : GammaMarket ℕ ℕ
final_market = record {
  condition_id = codes "0xa";
  slug = codes "atp-final";
  question = codes "Who wins?";
  category = [];
  end_date = 0;
  active = true;
  closed = false;
  archived = false;
  accepting_orders = true;
  enable_order_book = true;
  neg_risk = false;
  clob_token_ids = codes "[]";
  outcome_prices = [];
  outcomes = [];
  liquidity_num = 0;
  volume_num = 0;
  last_trade_price = 0;
  best_bid = 0;
  best_ask = 0;
  order_min_size = pos 5;
  order_price_min_tick_size = 1;
  maker_base_fee = pos 0;
  taker_base_fee = pos 0;
  game_start_time = [];
  events = [];
  tags = [];
}

-- Two empty answers, and then the market.
abbrev third_time : ℕ → Option (List (GammaMarket ℕ ℕ))
third_time n = some (if n == 2 then final_market ∷ [] else [])

third_time-run : hydrate_by_slug 3 third_time (λ _. false) ≡ some (final_market ∷ [])
unfolding hydrate_by_slug
third_time-run = refl

hydrate_by_slug-IsFirstAnswer_example :
    IsFirstAnswer third_time (λ _. false) 0 3 (final_market ∷ [])
hydrate_by_slug-IsFirstAnswer_example =
    hydrate_by_slug-IsFirstAnswer third_time (λ _. false) 3 (final_market ∷ []) third_time-run

-- Two overlapping starts of a condition, and a failed start of another.
abbrev overlapping : List Call
overlapping =
    begins (codes "0xa")
    ∷ begins (codes " 0xa ")
    ∷ begins (codes "0xb")
    ∷ ends (codes "0xb") false
    ∷ ends (codes "0xa") true
    ∷ []

calls-new-IsOnce_example : IsOnce (codes "0xa") (calls overlapping (new_discovery []))
calls-new-IsOnce_example = calls-new-IsOnce [] overlapping (codes "0xa")

abbrev two_texts : Text → Option (List Text)
two_texts _ = some (codes "yes" ∷ codes "no" ∷ [])

abbrev works : GammaMarket ℕ ℕ → Bool
works _ = true

start_market-IsStarted_example :
    ((¬ IsToStart two_texts (some final_market) (new_discovery []))
      × (start_market two_texts works (some final_market) (new_discovery []) ≡ new_discovery []))
    ⊎ ((m : GammaMarket ℕ ℕ) × (some final_market ≡ some m)
        × IsStartable two_texts m (new_discovery [])
        × IsStarted m.condition_id
            (works m)
            (new_discovery [])
            (start_market two_texts works (some final_market) (new_discovery []))
        × (start_market two_texts works (some final_market) (new_discovery [])
            ≡ calls
                (begins m.condition_id ∷ ends m.condition_id (works m) ∷ [])
                (new_discovery [])))
start_market-IsStarted_example =
    start_market-IsStarted two_texts works (some final_market) (new_discovery [])

mark_started-run : (mark_started (codes "0xa") (new_discovery [])).1 ≡ true
unfolding mark_started new_discovery trim_space
mark_started-run = refl

failed_start-is_in_example :
    is_in
      (codes "0xa")
      (end_start (codes "0xa") false (begin_start (codes "0xa") (new_discovery []))).started_set
    ≡ is_in (codes "0xa") (new_discovery []).started_set
failed_start-is_in_example =
    failed_start-is_in (codes "0xa") (codes "0xa") (new_discovery []) mark_started-run
