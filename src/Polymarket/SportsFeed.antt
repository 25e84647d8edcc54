-- ===== src/Polymarket/SportsFeed.antt =====
-- polymarket/core/sports_feed.go: subscriptions by game, and what is done with a message. The JSON
-- decoder is a parameter, and the result of a write an argument. The connection loop is that of the
-- market feed without the subscription of tokens, and is not repeated here.
pub mod Sessions
use calculated_tennis.Base.{
  ℕ, ◌≡◌, refl, Bool, true, false, not, ◌||◌, Option, none, some, List, [], ◌∷◌, ◌++◌, ◌==◌, ◌↔◌,
  ==_iff, if◌then◌else◌, Text, codes, Eq, ℤ, pos, negsuc, is_empty, equal_fold, arith,
}
use calculated_tennis.Base.Texts.{trim_space}
use calculated_tennis.Polymarket.Channels.{Channels, offers}
use calculated_tennis.Polymarket.Subscribers.{
  Subscriber, Subscribers, channels_of, entry, delete_entry, add_subscriber, drop_subscriber,
  all_channels,
}
use calculated_tennis.Polymarket.Events.{SportsEvent, Event, sports, failure}

abbrev pub int_test : ℤ → ℤ → Bool
int_test (pos m) (pos n) = m == n
int_test (pos m) (negsuc n) = false
int_test (negsuc m) (pos n) = false
int_test (negsuc m) (negsuc n) = m == n

pub int_test_iff : (a b : ℤ) → (int_test a b ≡ true) ↔ (a ≡ b)
int_test_iff (pos m) (pos n) = ground (arith, ==_iff m n)
int_test_iff (pos m) (negsuc n) = ground arith
int_test_iff (negsuc m) (pos n) = ground arith
int_test_iff (negsuc m) (negsuc n) = ground (arith, ==_iff m n)

-- Game ids, of type `int64`.
abbrev pub game_eq : Eq ℤ
game_eq = record { test = int_test; test_iff = int_test_iff }

-- The feed's subscribers, the channels it sends to, and the connections that a `pong` was written to.
pub record Sports (D T : Type 0) : Type 0 where
  pub subscribers : Subscribers ℤ
  pub channels : Channels (Event D T)
  pub pongs : List ℕ

module _ {D T : Type 0} where
  unfoldable pub subscribe_game : ℤ → Text → ℕ → Sports D T → Sports D T
  subscribe_game game name ch f = if int_test game (pos 0) then f else record f {
    subscribers = add_subscriber game_eq game (record { name = name; ch = ch }) f.subscribers;
  }

  unfoldable pub unsubscribe_game : ℤ → ℕ → Sports D T → Sports D T
  unsubscribe_game game ch f =
      let m = drop_subscriber game_eq game ch f.subscribers in
      if is_empty (entry game_eq game m)
      then record f { subscribers = delete_entry game_eq game m }
      else record f { subscribers = m }

  unfoldable pub broadcast_to_game : ℤ → Event D T → Sports D T → Sports D T
  broadcast_to_game game event f = record f {
    channels = offers (channels_of (entry game_eq game f.subscribers)) event f.channels;
  }

  unfoldable pub broadcast_sports_error : Text → Sports D T → Sports D T
  broadcast_sports_error reason f = record f {
    channels = offers (all_channels f.subscribers) (failure reason) f.channels;
  }

  unfoldable pub dispatch_sports : (Text → Option (SportsEvent T)) → Text → Sports D T → Sports D T
  unfolding broadcast_to_game
  dispatch_sports decode msg f = decoded (decode msg)
    where
      decoded : Option (SportsEvent T) → Sports D T
      decoded none = f
      decoded (some e) =
          if int_test e.game_id (pos 0) then f else broadcast_to_game e.game_id (sports e) f

  -- A message of `readLoop`: `is_text` says its kind, and `true` in the result ends the loop.
  unfoldable pub read_sports :
      (Text → Bool)
      → (Text → Option (SportsEvent T))
      → ℕ
      → Bool
      → Text
      → Bool
      → Sports D T
      → Sports D T × Bool
  unfolding dispatch_sports
  read_sports is_json decode conn is_text msg works f =
      let m = trim_space msg in
      if not is_text || is_empty m
      then (f, false)
      else if equal_fold m (codes "ping")
      then if works then (record f { pongs = f.pongs ++ conn ∷ [] }, false) else (f, true)
      else if not (is_json m)
      then (f, false)
      else (dispatch_sports decode m f, false)
