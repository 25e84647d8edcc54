-- ===== src/Polymarket/MarketFeed.antt =====
-- polymarket/core/market_feed.go: the feed, its subscriptions, and what it writes and passes on. A
-- duration is in nanoseconds; every use treats 0 and a negative one alike, so it is a natural
-- number. The result of `WriteJSON` is an argument. The locks make each function one step.
pub mod Loop
pub mod Coverage
pub mod Delivery
pub mod Race
pub mod Shutdown
pub mod Keeps
pub mod Turns
pub mod Subscribed
use calculated_tennis.Base.{
  ℕ, ◌*◌, min, Bool, true, false, not, ◌&&◌, Option, none, some, List, [], ◌∷◌, ◌++◌, ◌==◌,
  if◌then◌else◌, Text, text_test, text_eq, codes, is_empty,
}
use calculated_tennis.Polymarket.Channels.{Channels, offer, offers}
use calculated_tennis.Polymarket.Subscribers.{
  Subscriber, Subscribers, channels_of, entry, has_key, delete_entry, add_subscriber,
  drop_subscriber, all_channels,
}
use calculated_tennis.Polymarket.Events.{
  PriceChange, PriceEvent, BookEvent, MarketResolvedEvent, NewMarketEvent, Event, price, book,
  resolved, failure,
}

abbrev pub ws_url : Text
ws_url = codes "wss://ws-subscriptions-clob.polymarket.com/ws/market"

abbrev pub second : ℕ
second = 1000000000

abbrev pub reconnect_delay : ℕ
reconnect_delay = 5 * second

abbrev pub reconnect_max_delay : ℕ
reconnect_max_delay = 60 * second

abbrev pub heartbeat_interval : ℕ
heartbeat_interval = 10 * second

-- The value of the field `dialContext`: `defaultWSDialContext` or another function.
pub data Dialer : Type 0 where
  default_dialer : Dialer
  custom_dialer : ℕ → Dialer

-- The context is in the state of the loop. Connections and handlers are known by numbers;
-- `stopped` is the state of `stopOnce`.
pub record MarketFeed : Type 0 where
  pub category : Text
  pub subscribers : Subscribers Text
  pub conn : Option ℕ
  pub stopped : Bool
  pub on_new_market : Option ℕ
  pub url : Text
  pub dial_context : Option Dialer
  pub reconnect : ℕ
  pub reconnect_max : ℕ
  pub heartbeat : ℕ

unfoldable pub new_market_feed : Text → MarketFeed
new_market_feed category = record {
  category = category;
  subscribers = [];
  conn = none;
  stopped = false;
  on_new_market = none;
  url = ws_url;
  dial_context = some default_dialer;
  reconnect = reconnect_delay;
  reconnect_max = reconnect_max_delay;
  heartbeat = heartbeat_interval;
}

abbrev or_dialer : Option Dialer → Option Dialer
or_dialer none = some default_dialer
or_dialer (some d) = some d

abbrev or_delay : ℕ → ℕ → ℕ
or_delay d default = if d == 0 then default else d

unfoldable pub ensure_defaults : MarketFeed → MarketFeed
ensure_defaults f = record f {
  url = if is_empty f.url then ws_url else f.url;
  dial_context = or_dialer f.dial_context;
  reconnect = or_delay f.reconnect reconnect_delay;
  reconnect_max = or_delay f.reconnect_max reconnect_max_delay;
  heartbeat = or_delay f.heartbeat heartbeat_interval;
}

-- What is written to a connection.
pub data Frame : Type 0 where
  subscribe_frame : List Text → Frame
  unsubscribe_frame : List Text → Frame
  ping : Frame

-- The feed and what it has done: the channels that it sends to, the frames written to connections,
-- the connections closed, and the handlers started on new markets.
pub record World (D T : Type 0) : Type 0 where
  pub feed : MarketFeed
  pub channels : Channels (Event D T)
  pub written : List (ℕ × Frame)
  pub closed : List ℕ
  pub started : List (ℕ × NewMarketEvent)

-- The functions of the JSON decoder: the field `event_type` of a message, and each kind of event.
pub record Decoder (D : Type 0) : Type 0 where
  pub is_json : Text → Bool
  pub base : Text → Option Text
  pub price_event : Text → Option PriceEvent
  pub book_event : Text → Option (BookEvent D)
  pub resolved_event : Text → Option MarketResolvedEvent
  pub new_market_event : Text → Option NewMarketEvent

abbrev pub is_connected : Option ℕ → Bool
is_connected none = false
is_connected (some c) = true

module _ {D T : Type 0} where
  -- `conn.WriteJSON`, which fails unless `works`; no connection is no error. `true` is an error.
  unfoldable pub write : Bool → Frame → World D T → World D T × Bool
  write works frame w = on w.feed.conn
    where
      on : Option ℕ → World D T × Bool
      on none = (w, false)
      on (some c) =
          if works then (record w { written = w.written ++ (c, frame) ∷ [] }, false) else (w, true)

  unfoldable pub send_subscribe : Bool → List Text → World D T → World D T × Bool
  unfolding write
  send_subscribe works ids w = write works (subscribe_frame ids) w

  unfoldable pub send_unsubscribe : Bool → List Text → World D T → World D T × Bool
  unfolding write
  send_unsubscribe works ids w = write works (unsubscribe_frame ids) w

  abbrev pub with_subscribers : Subscribers Text → World D T → World D T
  with_subscribers m w = record w { feed = record (w.feed) { subscribers = m } }

  unfoldable pub subscribe : Bool → Text → Text → ℕ → World D T → World D T
  unfolding send_subscribe
  subscribe works token name ch w =
      let m = w.feed.subscribers in
      let exists = has_key text_eq token m in
      let w1 =
        with_subscribers (add_subscriber text_eq token (record { name = name; ch = ch }) m) w in
      if not exists && is_connected w.feed.conn
      then (send_subscribe works (token ∷ []) w1).0
      else w1

  -- The error of the write is returned.
  unfoldable pub unsubscribe : Bool → Text → ℕ → World D T → World D T × Bool
  unfolding send_unsubscribe
  unsubscribe works token ch w =
      let m = drop_subscriber text_eq token ch w.feed.subscribers in
      let w1 = with_subscribers (delete_entry text_eq token m) w in
      if is_empty (entry text_eq token m)
      then if is_connected w.feed.conn then send_unsubscribe works (token ∷ []) w1 else (w1, false)
      else (with_subscribers m w, false)

  unfoldable pub register_handler : Option ℕ → World D T → World D T
  register_handler handler w = record w { feed = record (w.feed) { on_new_market = handler } }

  -- `go handler(event)`.
  unfoldable pub notify_new_market_async : NewMarketEvent → World D T → World D T
  notify_new_market_async event w = start w.feed.on_new_market
    where
      start : Option ℕ → World D T
      start none = w
      start (some h) = record w { started = w.started ++ (h, event) ∷ [] }

  unfoldable pub broadcast_to : Text → Event D T → World D T → World D T
  broadcast_to token event w = record w {
    channels = offers (channels_of (entry text_eq token w.feed.subscribers)) event w.channels;
  }

  unfoldable pub broadcast_error : Text → World D T → World D T
  broadcast_error reason w = record w {
    channels = offers (all_channels w.feed.subscribers) (failure reason) w.channels;
  }

  unfoldable pub broadcast_changes : List PriceChange → PriceEvent → World D T → World D T
  unfolding broadcast_to
  broadcast_changes [] e w = w
  broadcast_changes (c ∷ cs) e w = broadcast_changes cs e (broadcast_to c.asset_id (price e) w)

  unfoldable pub broadcast_assets : List Text → MarketResolvedEvent → World D T → World D T
  unfolding broadcast_to
  broadcast_assets [] e w = w
  broadcast_assets (a ∷ ids) e w = broadcast_assets ids e (broadcast_to a (resolved e) w)

  -- `if err := json.Unmarshal(msg, &e); err != nil { return }`.
  abbrev pub decoded : {X : Type 0} → Option X → (X → World D T) → World D T → World D T
  decoded none k w = w
  decoded (some x) k w = k x

  unfoldable pub dispatch : Decoder D → Text → World D T → World D T
  unfolding broadcast_changes broadcast_assets notify_new_market_async
  dispatch j msg w =
      decoded (j.base msg)
        (λ kind.
          if text_test kind (codes "price_change")
          then decoded (j.price_event msg) (λ e. broadcast_changes e.price_changes e w) w
          else if text_test kind (codes "book")
          then decoded (j.book_event msg) (λ e. broadcast_to e.asset_id (book e) w) w
          else if text_test kind (codes "market_resolved")
          then decoded (j.resolved_event msg) (λ e. broadcast_assets e.asset_ids e w) w
          else if text_test kind (codes "new_market")
          then decoded (j.new_market_event msg) (λ e. notify_new_market_async e w) w
          else w)
        w

  -- The close frame before the close is best effort.
  unfoldable pub stop : World D T → World D T
  stop w = if w.feed.stopped then w else close w.feed.conn
    where
      once : Option ℕ → MarketFeed
      once c = record (w.feed) { stopped = true; conn = c }

      close : Option ℕ → World D T
      close none = record w { feed = once none }
      close (some c) = record w { feed = once none; closed = w.closed ++ c ∷ [] }
