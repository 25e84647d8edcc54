-- ===== src/Polymarket/Subscribers.antt =====
-- The map of subscribers that polymarket/core/market_feed.go and sports_feed.go both keep: from a
-- key to the listeners in their order. A Go map is an association list; the order of its entries
-- stands for the order in which `range` visits them.
pub mod Entries
use mathlib.Core.List.{append-nil}
use calculated_tennis.Base.{
  ℕ, ◌≡◌, refl, sym, ap, ◌∙◌, Bool, true, false, not, List, [], ◌∷◌, ◌++◌, map, ◌==◌, if◌then◌else◌,
  arith, Text, Eq, is_empty, Bool-cases, ◌⊎◌, inl, inr, ◌||◌,
}
use calculated_tennis.Polymarket.Channels.{Channels, offers}

-- `tokenMeta`, `sportsSubscriberMeta`. A channel is known by its number.
pub record Subscriber : Type 0 where
  pub name : Text
  pub ch : ℕ

abbrev pub Subscribers : Type 0 → Type 0
Subscribers K = List (K × List Subscriber)

abbrev pub channels_of : List Subscriber → List ℕ
channels_of [] = []
channels_of (s ∷ ss) = s.ch ∷ channels_of ss

abbrev pub listens : ℕ → List Subscriber → Bool
listens c [] = false
listens c (s ∷ ss) = s.ch == c || listens c ss

-- The entry without the first listener on the channel.
abbrev pub remove_first : ℕ → List Subscriber → List Subscriber
remove_first c [] = []
remove_first c (s ∷ ss) = if s.ch == c then ss else s ∷ remove_first c ss

abbrev pub keys : {K : Type 0} → Subscribers K → List K
keys [] = []
keys ((k, ss) ∷ m) = k ∷ keys m

module _ {K : Type 0} (E : Eq K) where
  -- The entry of a key; the empty slice for a missing key.
  unfoldable pub entry : K → Subscribers K → List Subscriber
  entry k [] = []
  entry k ((j, ss) ∷ m) = if E.test j k then ss else entry k m

  unfoldable pub has_key : K → Subscribers K → Bool
  has_key k [] = false
  has_key k ((j, ss) ∷ m) = E.test j k || has_key k m

  unfoldable pub set_entry : K → List Subscriber → Subscribers K → Subscribers K
  set_entry k ss [] = (k, ss) ∷ []
  set_entry k ss ((j, old) ∷ m) = if E.test j k then (j, ss) ∷ m else (j, old) ∷ set_entry k ss m

  unfoldable pub delete_entry : K → Subscribers K → Subscribers K
  delete_entry k [] = []
  delete_entry k ((j, ss) ∷ m) =
      let rest = delete_entry k m in if E.test j k then rest else (j, ss) ∷ rest

  unfoldable pub add_subscriber : K → Subscriber → Subscribers K → Subscribers K
  unfolding entry set_entry
  add_subscriber k s m = set_entry k (entry k m ++ s ∷ []) m

  -- The loop of `Unsubscribe`: the first listener on the channel goes, if there is one.
  unfoldable pub drop_subscriber : K → ℕ → Subscribers K → Subscribers K
  unfolding entry set_entry
  drop_subscriber k c m =
      if listens c (entry k m) then set_entry k (remove_first c (entry k m)) m else m

module _ {K : Type 0} where
  -- Every listener of every entry, as `broadcastError` visits them.
  abbrev pub all_channels : Subscribers K → List ℕ
  all_channels [] = []
  all_channels ((k, ss) ∷ m) = channels_of ss ++ all_channels m
