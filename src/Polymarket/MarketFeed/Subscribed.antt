-- ===== src/Polymarket/MarketFeed/Subscribed.antt =====
-- polymarket/core/market_feed.go: on every interleaving of the loop with the calls of other
-- goroutines, the server knows the tokens that have listeners.
use calculated_tennis.Base.{
  ℕ, ◌≡◌, true, false, some, List, [], ◌∷◌, Text, text_eq, arith, ◌⊎◌, inl, inr, Bool-cases,
  Option-cases, All, subst,
}
use calculated_tennis.Polymarket.Subscribers.{has_key}
use calculated_tennis.Polymarket.Subscribers.Entries.{nil-Tidy}
use calculated_tennis.Polymarket.MarketFeed.{
  new_market_feed, ensure_defaults, World, Decoder, stop, register_handler,
}
use calculated_tennis.Polymarket.MarketFeed.Loop.{
  Phase, looking, checking, reading, Loop, Action, step, own, subscribes, unsubscribes, beats, run,
  start, registers, takes, stops, cancels,
}
use calculated_tennis.Polymarket.MarketFeed.Keeps.{healthy}
use calculated_tennis.Polymarket.MarketFeed.Turns.{advance-Covered, beat-Covered}
use calculated_tennis.Polymarket.MarketFeed.Coverage.{
  Covers, Covered, is_wired, subscribe-Covered, unsubscribe-Covered, unconnected-Covers,
}

some_eq {ℓ} : {A : Type ℓ} {a b : A} → some a ≡ some b → a ≡ b
some_eq e = ground arith

module _ {D T : Type 0} where
  stop-Covered :
      (p : Phase) (w : World D T)
      → Covers p w.feed.conn w.feed.subscribers w.written
      → Covers p (stop w).feed.conn (stop w).feed.subscribers (stop w).written
  unfolding stop
  stop-Covered p w h = elim (Bool-cases w.feed.stopped) [
    | inl old ↦ rw old h
    | inr new ↦ elim (Option-cases w.feed.conn) [
      | inl e ↦ rw (new, e) (unconnected-Covers p _ _ h.tidy)
      | inr (c, e) ↦ rw (new, e) (unconnected-Covers p _ _ h.tidy)
    ]
  ]

  step-Covered :
      (j : Decoder D) (a : Action) (l l' : Loop D T)
      → step j a l ≡ some l'
      → healthy a ≡ true
      → Covered l
      → Covered l'
  unfolding step register_handler
  step-Covered j (own turn) l l' e w h = advance-Covered j l l' l.phase turn e w h
  step-Covered j (subscribes true token name ch) l l' e w h =
      subst Covered (some_eq e) (subscribe-Covered token name ch l.phase l.world h)
  step-Covered j (subscribes false token name ch) l l' e w h = ground arith
  step-Covered j (unsubscribes true token ch) l l' e w h =
      subst Covered (some_eq e) (unsubscribe-Covered token ch l.phase l.world h)
  step-Covered j (unsubscribes false token ch) l l' e w h = ground arith
  step-Covered j (registers handler) l l' e w h = subst Covered (some_eq e) h
  step-Covered j (beats b) l l' e w h = beat-Covered j l l' b e h
  step-Covered j (takes ch) l l' e w h = subst Covered (some_eq e) h
  step-Covered j stops l l' e w h = subst Covered (some_eq e) (stop-Covered l.phase l.world h)
  step-Covered j cancels l l' e w h = subst Covered (some_eq e) h

  pub run-Covered :
      (j : Decoder D) (acts : List Action) (l l' : Loop D T)
      → run j acts l ≡ some l'
      → All (λ a. healthy a ≡ true) acts
      → Covered l
      → Covered l'
  unfolding run
  run-Covered j [] l l' e w h = subst Covered (some_eq e) h
  run-Covered j (a ∷ acts) l l' e w h = elim (Option-cases (step j a l)) [
    | inl stuck ↦ ground arith
    | inr (l1, first) ↦
        run-Covered j acts l1 l' (ground arith) w.1 (step-Covered j a l l1 first w.0 h)
  ]

  -- A feed without subscribers is started, and no write fails. After any interleaving of the loop
  -- with calls of Subscribe, Unsubscribe, OnNewMarket and Stop, heartbeats, listeners that take
  -- events and the end of the context: while a connection that the feed has is read, each token
  -- with listeners is subscribed on it, by the frames written so far.
  pub run-subscribed :
      (j : Decoder D) (w : World D T) (category : Text) (acts : List Action) (l : Loop D T) (c : ℕ)
      (token : Text)
      → w.feed ≡ new_market_feed category
      → run j acts (start w) ≡ some l
      → All (λ a. healthy a ≡ true) acts
      → (l.phase ≡ checking c) ⊎ (l.phase ≡ reading c)
      → l.world.feed.conn ≡ some c
      → has_key text_eq token l.world.feed.subscribers ≡ true
      → is_wired c token false l.world.written ≡ true
  unfolding new_market_feed start ensure_defaults
  run-subscribed j w category acts l c token new e ok at conn has =
      let begun : Covered (start w) =
        rw new (unconnected-Covers looking [] w.written (nil-Tidy text_eq)) in
      let h = run-Covered j acts (start w) l e ok begun in
      elim at [
        | inl p ↦ ground (arith, h.covered c token conn has)
        | inr p ↦ ground (arith, h.covered c token conn has)
      ]
