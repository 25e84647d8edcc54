-- ===== src/Polymarket/MarketFeed/Keeps.antt =====
-- polymarket/core/market_feed.go: the steps that leave the subscriptions alone.
use calculated_tennis.Base.{
  ℕ, ◌≡◌, refl, sym, ◌∙◌, Bool, true, false, Option, none, some, List, [], ◌∷◌, if◌then◌else◌, Text,
  text_eq, arith, inl, inr, Option-cases,
}
use calculated_tennis.Polymarket.Subscribers.{Subscribers, has_key}
use calculated_tennis.Polymarket.Events.{
  PriceChange, PriceEvent, MarketResolvedEvent, NewMarketEvent,
}
use calculated_tennis.Polymarket.MarketFeed.{
  Frame, World, Decoder, dispatch, decoded, broadcast_to, broadcast_changes, broadcast_assets,
  notify_new_market_async,
}
use calculated_tennis.Polymarket.MarketFeed.Loop.{
  Phase, Turn, sends, Action, own, subscribes, unsubscribes,
}
use calculated_tennis.Polymarket.MarketFeed.Coverage.{Covers, awaits, phase_conn}

-- A step that goes on with the same connection.
pub moved-Covers :
    (p q : Phase) (conn : Option ℕ) (m : Subscribers Text) (log : List (ℕ × Frame))
    → phase_conn p ≡ phase_conn q
    → ((k : Text) → has_key text_eq k m ≡ true → awaits p k ≡ true → awaits q k ≡ true)
    → Covers p conn m log
    → Covers q conn m log
moved-Covers p q conn m log e a h = record {
  tidy = h.tidy;
  own = λ c r. sym e ∙ h.own c r;
  covered = λ c k r here. ground (arith, h.covered c k r here, a k here);
}

-- The write of a step works.
abbrev pub works : Turn → Bool
works (sends b) = b
works _ = true

abbrev pub healthy : Action → Bool
healthy (own turn) = works turn
healthy (subscribes b token name ch) = b
healthy (unsubscribes b token ch) = b
healthy _ = true

module _ {D T : Type 0} where
  -- The feed and the log are as before.
  pub record Keeps (w w' : World D T) : Type 0 where
    pub feed : w'.feed ≡ w.feed
    pub written : w'.written ≡ w.written

  pub changes-Keeps :
      (cs : List PriceChange) (e : PriceEvent) (w : World D T) → Keeps w (broadcast_changes cs e w)
  unfolding broadcast_changes
  changes-Keeps [] e w = record { feed = refl; written = refl }
  changes-Keeps (c ∷ cs) e w =
      let k = changes-Keeps cs e (broadcast_to c.asset_id _ w) in
      record { feed = k.feed; written = k.written }

  pub assets-Keeps :
      (ids : List Text) (e : MarketResolvedEvent) (w : World D T)
      → Keeps w (broadcast_assets ids e w)
  unfolding broadcast_assets
  assets-Keeps [] e w = record { feed = refl; written = refl }
  assets-Keeps (c ∷ cs) e w =
      let k = assets-Keeps cs e (broadcast_to c _ w) in
      record { feed = k.feed; written = k.written }

  notify-Keeps : (e : NewMarketEvent) (w : World D T) → Keeps w (notify_new_market_async e w)
  unfolding notify_new_market_async
  notify-Keeps e w = elim (Option-cases w.feed.on_new_market) [
    | inl o ↦ rw o (record { feed = refl; written = refl })
    | inr (h, o) ↦ rw o (record { feed = refl; written = refl })
  ]

  decoded-Keeps :
      {X : Type 0} (o : Option X) (k : X → World D T) (w : World D T)
      → ((x : X) → Keeps w (k x))
      → Keeps w (decoded o k w)
  decoded-Keeps none k w h = record { feed = refl; written = refl }
  decoded-Keeps (some x) k w h = h x

  either-Keeps :
      (b : Bool) (w x y : World D T) → Keeps w x → Keeps w y → Keeps w (if b then x else y)
  either-Keeps true w x y h k = h
  either-Keeps false w x y h k = k

  pub dispatch-Keeps : (j : Decoder D) (msg : Text) (w : World D T) → Keeps w (dispatch j msg w)
  unfolding dispatch broadcast_to
  dispatch-Keeps j msg w = decoded-Keeps (j.base msg) _ w λ kind.
      either-Keeps _ w _ _
        (decoded-Keeps (j.price_event msg) _ w (λ e. changes-Keeps e.price_changes e w))
        (either-Keeps _ w _ _
          (decoded-Keeps (j.book_event msg) _ w (λ e. record { feed = refl; written = refl }))
          (either-Keeps _ w _ _
            (decoded-Keeps (j.resolved_event msg) _ w (λ e. assets-Keeps e.asset_ids e w))
            (either-Keeps _ w _ _
              (decoded-Keeps (j.new_market_event msg) _ w (λ e. notify-Keeps e w))
              (record { feed = refl; written = refl }))))

  pub Keeps-Covers :
      (p : Phase) (w w' : World D T)
      → Keeps w w'
      → Covers p w.feed.conn w.feed.subscribers w.written
      → Covers p w'.feed.conn w'.feed.subscribers w'.written
  Keeps-Covers p w w' k h = rw (k.feed, k.written) h
