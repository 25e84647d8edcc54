-- ===== src/Polymarket/MarketFeed/Race.antt =====
-- polymarket/core/market_feed.go: an Unsubscribe between the two steps in which `connectLoop`
-- collects the tokens and sends them.
use calculated_tennis.Base.{
  ℕ, ◌≡◌, refl, true, false, some, [], ◌∷◌, ◌++◌, Text, text_eq, is_empty, arith,
}
use calculated_tennis.Polymarket.Subscribers.{
  Subscriber, has_key, entry, keys, drop_subscriber, delete_entry,
}
use calculated_tennis.Polymarket.Subscribers.Entries.{
  Tidy, test_refl, entry-drop_subscriber, has_key-delete_entry,
}
use calculated_tennis.Polymarket.MarketFeed.{
  Decoder, subscribe_frame, unsubscribe_frame, send_subscribe, send_unsubscribe, write, unsubscribe,
}
use calculated_tennis.Polymarket.MarketFeed.Loop.{
  opened, checking, Loop, proceed, sends, own, unsubscribes, run, step, advance, resubscribe,
}
use calculated_tennis.Polymarket.MarketFeed.Coverage.{
  is_wired, is_wired-snoc, is_among, has_key-keys,
}

module _ {D T : Type 0} where
  -- A connection is about to be told its tokens, and one token has a single listener, which is
  -- removed after the tokens are collected and before they are sent. Then, if both writes work, no
  -- listener is left for the token, and the connection stays subscribed to it.
  pub unsubscribe-race :
      (j : Decoder D) (l : Loop D T) (c : ℕ) (token : Text) (s : Subscriber)
      → l.phase ≡ opened c
      → l.world.feed.conn ≡ some c
      → Tidy text_eq l.world.feed.subscribers
      → entry text_eq token l.world.feed.subscribers ≡ s ∷ []
      → (l' : Loop D T) × (run j
            (own proceed ∷ unsubscribes true token s.ch ∷ own (sends true) ∷ [])
            l
          ≡ some l')
        × (l'.phase ≡ checking c)
        × (has_key text_eq token l'.world.feed.subscribers ≡ false)
        × (is_wired c token false l'.world.written ≡ true)
  unfolding run step advance resubscribe send_subscribe send_unsubscribe write unsubscribe Tidy
  unsubscribe-race j l c token s p on tidy one =
      let m = l.world.feed.subscribers in
      let m' = drop_subscriber text_eq token s.ch m in
      let there : is_among token (keys m) ≡ true =
        ground (arith, has_key-keys token m, tidy token) in
      let gone : is_empty (entry text_eq token m') ≡ true =
        ground (arith, entry-drop_subscriber text_eq token token s.ch m, test_refl text_eq token) in
      let some_key : is_empty (keys m) ≡ false = ground (arith, there) in
      let log = l.world.written ++ (c, unsubscribe_frame (token ∷ [])) ∷ [] in
      let last = record l {
        world = record (l.world) {
          feed = record (l.world.feed) { subscribers = delete_entry text_eq token m' };
          written = log ++ (c, subscribe_frame (keys m)) ∷ [];
        };
        phase = checking c;
      } in
      (
        last,
        rw (p, gone, on, some_key),
        refl,
        ground (arith, has_key-delete_entry text_eq token token m', test_refl text_eq token),
        ground (arith, is_wired-snoc c token false log c (subscribe_frame (keys m)), there),
      )
