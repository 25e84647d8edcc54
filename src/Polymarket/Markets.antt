-- ===== src/Polymarket/Markets.antt =====
-- polymarket/models/market.go, and the filters of polymarket/core/atp_trader.go. `D` is
-- `decimal.Decimal`, `T` is `time.Time`; `strings_of` decodes a JSON array of strings.
use calculated_tennis.Base.{
  Bool, true, false, not, ◌&&◌, ◌||◌, Option, none, some, List, [], ◌∷◌, ◌++◌, if◌then◌else◌, Text,
  codes, is_empty, has_prefix, contains, to_lower, ℤ,
}
use calculated_tennis.Base.Texts.{trim_space}

pub record GammaMarketEventMetadata : Type 0 where
  pub context_description : Text
  pub league : Text

pub record GammaMarketEvent : Type 0 where
  pub game_id : ℤ
  pub event_metadata : GammaMarketEventMetadata

pub record Tag : Type 0 where
  pub id : Text
  pub label : Text
  pub slug : Text

pub record GammaMarket (D T : Type 0) : Type 0 where
  pub condition_id : Text
  pub slug : Text
  pub question : Text
  pub category : Text
  pub end_date : T
  pub active : Bool
  pub closed : Bool
  pub archived : Bool
  pub accepting_orders : Bool
  pub enable_order_book : Bool
  pub neg_risk : Bool
  pub clob_token_ids : Text
  pub outcome_prices : Text
  pub outcomes : Text
  pub liquidity_num : D
  pub volume_num : D
  pub last_trade_price : D
  pub best_bid : D
  pub best_ask : D
  pub order_min_size : ℤ
  pub order_price_min_tick_size : D
  pub maker_base_fee : ℤ
  pub taker_base_fee : ℤ
  pub game_start_time : Text
  pub events : List GammaMarketEvent
  pub tags : List Tag

-- One round of the loop of `marketContextDescribesATPChallenger`.
unfoldable pub describes_challenger : GammaMarketEventMetadata → Bool
describes_challenger m =
    let league = trim_space m.league in
    let context = trim_space m.context_description in
    if not (is_empty league) && contains (to_lower league) (codes "challenger")
    then true
    else if is_empty context
    then false
    else contains (to_lower context) (codes "atp challenger")
      || contains (to_lower context) (to_lower league ++ codes " challenger")

unfoldable pub any_challenger : List GammaMarketEvent → Bool
unfolding describes_challenger
any_challenger [] = false
any_challenger (e ∷ es) = describes_challenger e.event_metadata || any_challenger es

abbrev pub has_tokens : Option (List Text) → Bool
has_tokens none = false
has_tokens (some ids) = not (is_empty ids)

abbrev pub is_decoded : Option (List Text) → Bool
is_decoded none = false
is_decoded (some names) = true

module _ {D T : Type 0} (strings_of : Text → Option (List Text)) where
  -- A market that none of the `continue`s skips.
  unfoldable pub passes_filters : GammaMarket D T → Bool
  passes_filters m =
      m.enable_order_book
      && has_prefix m.slug (codes "atp-")
      && not (contains (to_lower m.slug) (codes "doubles"))
      && has_tokens (strings_of m.clob_token_ids)
      && is_decoded (strings_of m.outcomes)
      && not (any_challenger m.events)

  unfoldable pub filter_atp_markets : List (GammaMarket D T) → List (GammaMarket D T)
  unfolding passes_filters
  filter_atp_markets [] = []
  filter_atp_markets (m ∷ ms) =
      let rest = filter_atp_markets ms in if passes_filters m then m ∷ rest else rest
