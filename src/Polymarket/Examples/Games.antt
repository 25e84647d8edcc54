-- ===== src/Polymarket/Examples/Games.antt =====
-- The theorems on polymarket/core/sports_feed.go at a concrete feed.
use calculated_tennis.Base.{ℕ, ◌≡◌, refl, [], pos, codes, false}
use calculated_tennis.Polymarket.Subscribers.{entry, has_key, listens}
use calculated_tennis.Polymarket.Subscribers.Entries.{nil-Tidy}
use calculated_tennis.Polymarket.SportsFeed.{Sports, game_eq, subscribe_game, unsubscribe_game}
use calculated_tennis.Polymarket.SportsFeed.Sessions.{unsubscribe-subscribe}

abbrev silent : Sports ℕ ℕ
silent = record {
  subscribers = [];
  channels = λ _. record { buffer = []; capacity = 2 };
  pongs = [];
}

abbrev ended : Sports ℕ ℕ
ended = unsubscribe_game (pos 7) 3 (subscribe_game (pos 7) (codes "Final") 3 silent)

silent-fresh : listens 3 (entry game_eq (pos 7) silent.subscribers) ≡ false
unfolding entry
silent-fresh = refl

unsubscribe-subscribe_example :
    (entry game_eq (pos 7) ended.subscribers ≡ entry game_eq (pos 7) silent.subscribers)
    × (has_key game_eq (pos 7) ended.subscribers ≡ has_key game_eq (pos 7) silent.subscribers)
    × (ended.channels ≡ silent.channels)
unsubscribe-subscribe_example =
    unsubscribe-subscribe (pos 7) (pos 7) (codes "Final") 3 silent refl (nil-Tidy game_eq)
      silent-fresh
