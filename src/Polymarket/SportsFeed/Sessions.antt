-- ===== src/Polymarket/SportsFeed/Sessions.antt =====
-- polymarket/core/sports_feed.go: a subscription and its end.
use calculated_tennis.Base.{
  ℕ, ◌≡◌, refl, false, Text, ℤ, pos, arith, is_empty, Bool-cases, inl, inr,
}
use calculated_tennis.Polymarket.Subscribers.{
  Subscriber, Subscribers, entry, has_key, listens, add_subscriber, drop_subscriber,
}
use calculated_tennis.Polymarket.Subscribers.Entries.{
  Tidy, entry-add_subscriber, entry-drop_subscriber, entry-delete_entry, has_key-add_subscriber,
  has_key-drop_subscriber, has_key-delete_entry, remove_first-append, add_subscriber-Tidy,
  test_refl,
}
use calculated_tennis.Polymarket.SportsFeed.{
  Sports, game_eq, int_test, int_test_iff, subscribe_game, unsubscribe_game,
}

dropped-entry :
    (game j : ℤ) (name : Text) (ch : ℕ) (m : Subscribers ℤ)
    → listens ch (entry game_eq game m) ≡ false
    → entry game_eq j (
        drop_subscriber game_eq game ch
          (add_subscriber game_eq game (record { name = name; ch = ch }) m))
      ≡ entry game_eq j m
dropped-entry game j name ch m fresh =
    let s : Subscriber = record { name = name; ch = ch } in
    let m1 = add_subscriber game_eq game s m in
    let a = entry-drop_subscriber game_eq j game ch m1 in
    let b = entry-add_subscriber game_eq game game s m in
    let c = entry-add_subscriber game_eq j game s m in
    let d = remove_first-append game_eq ch (entry game_eq game m) s fresh refl in
    let t = int_test_iff game j in let r = test_refl game_eq game in ground arith

module _ {D T : Type 0} where
  -- In a map whose keys are those with listeners, a channel that does not listen to a game other
  -- than 0 is subscribed to it and unsubscribed: each game has the listeners that it had before,
  -- and an entry exactly if it had one; no channel is touched.
  pub unsubscribe-subscribe :
      (game j : ℤ) (name : Text) (ch : ℕ) (f : Sports D T)
      → int_test game (pos 0) ≡ false
      → Tidy game_eq f.subscribers
      → listens ch (entry game_eq game f.subscribers) ≡ false
      → let f' = unsubscribe_game game ch (subscribe_game game name ch f) in
        (entry game_eq j f'.subscribers ≡ entry game_eq j f.subscribers)
        × (has_key game_eq j f'.subscribers ≡ has_key game_eq j f.subscribers)
        × (f'.channels ≡ f.channels)
  unfolding subscribe_game unsubscribe_game Tidy
  unsubscribe-subscribe game j name ch f some_game tidy fresh =
      let m = f.subscribers in
      let s : Subscriber = record { name = name; ch = ch } in
      let m1 = add_subscriber game_eq game s m in
      let m2 = drop_subscriber game_eq game ch m1 in
      let here = dropped-entry game game name ch m fresh in
      let there = dropped-entry game j name ch m fresh in
      let tidy1 = add_subscriber-Tidy game_eq game s m tidy in
      let k1 = has_key-drop_subscriber game_eq j game ch m1 tidy1 in
      let k2 = has_key-add_subscriber game_eq j game s m in
      let e = entry-delete_entry game_eq j game m2 in
      let k = has_key-delete_entry game_eq j game m2 in
      let t = int_test_iff game j in
      let a = tidy game in
      let b = tidy j in
      elim (Bool-cases (is_empty (entry game_eq game m2))) [
        | inl gone ↦ rw (some_game, gone) (ground arith, ground arith, refl)
        | inr kept ↦ rw (some_game, kept) (there, ground arith, refl)
      ]
