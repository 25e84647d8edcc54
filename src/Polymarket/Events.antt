-- ===== src/Polymarket/Events.antt =====
-- polymarket/models: the messages of the feeds. `D` is `decimal.Decimal` and `T` is `time.Time`.
use calculated_tennis.Base.{Bool, List, Text, codes, ℤ}

abbrev pub order_side_buy : Text
order_side_buy = codes "BUY"

abbrev pub order_side_sell : Text
order_side_sell = codes "SELL"

pub record PriceChange : Type 0 where
  pub asset_id : Text
  pub price : Text
  pub size : Text
  pub side : Text
  pub hash : Text

pub record PriceEvent : Type 0 where
  pub event_type : Text
  pub market : Text
  pub price_changes : List PriceChange
  pub timestamp : Text

pub record PriceLevel (D : Type 0) : Type 0 where
  pub price : D
  pub size : D

pub record BookEvent (D : Type 0) : Type 0 where
  pub event_type : Text
  pub asset_id : Text
  pub market : Text
  pub bids : List (PriceLevel D)
  pub asks : List (PriceLevel D)
  pub timestamp : Text
  pub hash : Text

pub record MarketResolvedEvent : Type 0 where
  pub event_type : Text
  pub id : Text
  pub market : Text
  pub asset_ids : List Text
  pub winning_asset_id : Text
  pub winning_outcome : Text
  pub timestamp : Text
  pub tags : List Text

pub record NewMarketEvent : Type 0 where
  pub event_type : Text
  pub id : Text
  pub slug : Text
  pub sports_market_type : Text
  pub market : Text
  pub condition_id : Text
  pub asset_ids : List Text
  pub outcomes : List Text
  pub timestamp : Text

pub record SportsEventState (T : Type 0) : Type 0 where
  pub kind : Text
  pub start_time : T
  pub last_update : T
  pub score : Text
  pub period : Text
  pub live : Bool
  pub ended : Bool
  pub tournament_name : Text
  pub tennis_round : Text

pub record SportsEvent (T : Type 0) : Type 0 where
  pub game_id : ℤ
  pub league_abbreviation : Text
  pub home_team : Text
  pub away_team : Text
  pub status : Text
  pub score : Text
  pub period : Text
  pub live : Bool
  pub ended : Bool
  pub event_state : SportsEventState T

-- What a channel of type `chan any` carries; `failure` is an `error`.
pub data Event (D T : Type 0) : Type 0 where
  price : PriceEvent → Event D T
  book : BookEvent D → Event D T
  resolved : MarketResolvedEvent → Event D T
  sports : SportsEvent T → Event D T
  failure : Text → Event D T
