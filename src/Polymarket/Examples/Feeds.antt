-- ===== src/Polymarket/Examples/Feeds.antt =====
-- The theorems on polymarket/core/market_feed.go at a concrete feed.
use mathlib.Core.List.{Permᴰ}
use calculated_tennis.Base.{
  ℕ, ◌+◌, ◌*◌, ◌^◌, ◌≤◌, min, ◌≡◌, refl, true, false, Option, none, some, List, [], ◌∷◌, Text,
  codes, text_eq, All, length, inl,
}
use calculated_tennis.Polymarket.Channels.{occurrences}
use calculated_tennis.Polymarket.Subscribers.{
  Subscriber, Subscribers, add_subscriber, has_key, entry, all_channels, channels_of,
}
use calculated_tennis.Polymarket.Subscribers.Entries.{Tidy, add_subscriber-Tidy, nil-Tidy}
use calculated_tennis.Polymarket.Events.{failure}
use calculated_tennis.Polymarket.MarketFeed.{
  World, Decoder, new_market_feed, subscribe, broadcast_error, broadcast_to,
}
use calculated_tennis.Polymarket.MarketFeed.Loop.{
  Loop, Action, Turn, own, subscribes, unsubscribes, proceed, dial_gives, sends, run, start,
  checking, opened, looking,
}
use calculated_tennis.Polymarket.MarketFeed.Coverage.{is_wired}
use calculated_tennis.Polymarket.MarketFeed.Keeps.{healthy}
use calculated_tennis.Polymarket.MarketFeed.Subscribed.{run-subscribed}
use calculated_tennis.Polymarket.MarketFeed.Shutdown.{
  failed_rounds, failed_rounds-delay, owns, rank, run-ends,
}
use calculated_tennis.Polymarket.MarketFeed.Race.{unsubscribe-race}
use calculated_tennis.Polymarket.MarketFeed.Delivery.{
  filled, broadcast_error-filled, broadcast_to-filled,
}

-- A decoder that knows no message; decimals are numbers, times are not needed.
abbrev blind : Decoder ℕ
blind = record {
  is_json = λ _. false;
  base = λ _. none;
  price_event = λ _. none;
  book_event = λ _. none;
  resolved_event = λ _. none;
  new_market_event = λ _. none;
}

abbrev quiet : World ℕ ℕ
quiet = record {
  feed = new_market_feed (codes "ATP");
  channels = λ _. record { buffer = []; capacity = 2 };
  written = [];
  closed = [];
  started = [];
}

abbrev yes_token : Text
yes_token = codes "yes"

-- The loop connects; a token is subscribed after the tokens are collected.
abbrev connects : List Action
connects =
    own proceed
    ∷ own (dial_gives 7)
    ∷ own proceed
    ∷ own proceed
    ∷ subscribes true yes_token (codes "Yes") 3
    ∷ own (sends true)
    ∷ []

abbrev last_of : Option (Loop ℕ ℕ) → Loop ℕ ℕ
last_of none = start quiet
last_of (some l) = l

connected : Loop ℕ ℕ
connected = last_of (run blind connects (start quiet))

run-connects : run blind connects (start quiet) ≡ some connected
unfolding connected run start new_market_feed subscribe has_key
run-connects = refl

connects-healthy : All (λ a. healthy a ≡ true) connects
connects-healthy = (refl, (refl, (refl, (refl, (refl, (refl, tt))))))

connected-checking : connected.phase ≡ checking 7
unfolding connected run start new_market_feed subscribe has_key
connected-checking = refl

connected-conn : connected.world.feed.conn ≡ some 7
unfolding connected run start new_market_feed subscribe has_key
connected-conn = refl

connected-has_key : has_key text_eq yes_token connected.world.feed.subscribers ≡ true
unfolding connected run start new_market_feed subscribe has_key add_subscriber
connected-has_key = refl

run-subscribed_example : is_wired 7 yes_token false connected.world.written ≡ true
run-subscribed_example =
    run-subscribed blind quiet (codes "ATP") connects connected 7 yes_token refl run-connects
      connects-healthy (inl connected-checking) connected-conn connected-has_key

-- A listener of the token on channel 3.
abbrev listener : Subscriber
listener = record { name = codes "Yes"; ch = 3 }

abbrev one_listener : World ℕ ℕ
one_listener = subscribe true yes_token (codes "Yes") 3 quiet

-- Two listeners of two tokens, on channel 3.
abbrev shared_channel : World ℕ ℕ
shared_channel = subscribe true (codes "no") (codes "No") 3 one_listener

abbrev reversed : Subscribers Text
reversed = (codes "no", record { name = codes "No"; ch = 3 } ∷ []) ∷ (yes_token, listener ∷ []) ∷ []

shared_channel-Permᴰ : Permᴰ shared_channel.feed.subscribers reversed
unfolding subscribe has_key new_market_feed add_subscriber
shared_channel-Permᴰ = Permᴰ.swap refl refl

broadcast_error-filled_example :
    ((broadcast_error (codes "down") shared_channel).channels 3).buffer
    ≡ filled
        (occurrences 3 (all_channels reversed))
        (failure (codes "down"))
        (shared_channel.channels 3)
broadcast_error-filled_example =
    broadcast_error-filled (codes "down") shared_channel reversed 3 shared_channel-Permᴰ

broadcast_to-filled_example :
    ((broadcast_to yes_token (failure []) one_listener).channels 3).buffer
    ≡ filled
        (occurrences 3 (channels_of (entry text_eq yes_token one_listener.feed.subscribers)))
        (failure [])
        (one_listener.channels 3)
broadcast_to-filled_example = broadcast_to-filled yes_token (failure []) one_listener 3

begun : Loop ℕ ℕ
begun = start quiet

begun-looking : begun.phase ≡ looking
unfolding begun start
begun-looking = refl

begun-live : begun.cancelled ≡ false
unfolding begun start
begun-live = refl

failed_rounds-delay_example :
    (l' : Loop ℕ ℕ) × (run blind (failed_rounds (codes "refused") 3) begun ≡ some l')
    × (l'.phase ≡ looking)
    × (l'.cancelled ≡ false)
    × (l'.world.feed ≡ begun.world.feed)
    × (l'.delay ≡ min (begun.delay * 2 ^ 3) begun.world.feed.reconnect_max)
failed_rounds-delay_example =
    failed_rounds-delay blind (codes "refused") 2 begun begun-looking begun-live

-- The loop at the step that collects the tokens, with one listener.
abbrev collecting : Loop ℕ ℕ
collecting = record {
  world = record one_listener { feed = record (one_listener.feed) { conn = some 7 } };
  delay = 1;
  phase = opened 7;
  cancelled = true;
}

one_listener-Tidy : Tidy text_eq one_listener.feed.subscribers
unfolding subscribe has_key new_market_feed
one_listener-Tidy = add_subscriber-Tidy text_eq yes_token listener [] (nil-Tidy text_eq)

one_listener-entry : entry text_eq yes_token one_listener.feed.subscribers ≡ listener ∷ []
unfolding subscribe has_key new_market_feed entry add_subscriber
one_listener-entry = refl

unsubscribe-race_example :
    (l' : Loop ℕ ℕ) × (run blind
        (own proceed ∷ unsubscribes true yes_token 3 ∷ own (sends true) ∷ [])
        collecting
      ≡ some l')
    × (l'.phase ≡ checking 7)
    × (has_key text_eq yes_token l'.world.feed.subscribers ≡ false)
    × (is_wired 7 yes_token false l'.world.written ≡ true)
unsubscribe-race_example =
    unsubscribe-race blind collecting 7 yes_token listener refl refl one_listener-Tidy
      one_listener-entry

abbrev last_turns : List Turn
last_turns = proceed ∷ sends true ∷ proceed ∷ []

stopping : Loop ℕ ℕ
stopping = last_of (run blind (owns last_turns) collecting)

run-stopping : run blind (owns last_turns) collecting ≡ some stopping
unfolding stopping run subscribe has_key new_market_feed add_subscriber
run-stopping = refl

run-ends_example : length last_turns + rank stopping.phase ≤ rank collecting.phase
run-ends_example = run-ends blind last_turns collecting stopping refl run-stopping
