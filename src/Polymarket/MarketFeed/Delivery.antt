-- ===== src/Polymarket/MarketFeed/Delivery.antt =====
-- polymarket/core/market_feed.go: what the channels hold after a broadcast.
use mathlib.Core.List.{Permᴰ}
use calculated_tennis.Base.{
  ℕ, ◌+◌, ◌-◌, min, ◌≡◌, refl, sym, ap, ◌∙◌, List, [], ◌∷◌, ◌++◌, Text, text_eq, arith, length,
}
use calculated_tennis.Polymarket.Channels.{Channel, occurrences, repeat, offers-buffer}
use calculated_tennis.Polymarket.Subscribers.{Subscribers, entry, channels_of, all_channels}
use calculated_tennis.Polymarket.Events.{Event, failure}
use calculated_tennis.Polymarket.MarketFeed.{World, broadcast_to, broadcast_error}

occurrences-append :
    (c : ℕ) (xs ys : List ℕ) → occurrences c (xs ++ ys) ≡ occurrences c xs + occurrences c ys
occurrences-append c [] ys = omega arith
occurrences-append c (x ∷ xs) ys = let h = occurrences-append c xs ys in ground arith

-- The number of listeners of a channel does not depend on the order of the map.
occurrences-Permᴰ :
    (c : ℕ) {m m' : Subscribers Text}
    → Permᴰ m m'
    → occurrences c (all_channels m) ≡ occurrences c (all_channels m')
occurrences-Permᴰ c Permᴰ.nil = refl
occurrences-Permᴰ c (Permᴰ.cons {a} {b} {l₁} {l₂} e p) =
    let h = occurrences-Permᴰ c p in
    let x = occurrences-append c (channels_of a.1) (all_channels l₁) in
    let y = occurrences-append c (channels_of b.1) (all_channels l₂) in
    let z = ap (λ q. occurrences c (channels_of q.1)) e in x ∙ omega (arith, h, z) ∙ sym y
occurrences-Permᴰ c (Permᴰ.swap {a} {b} {a'} {b'} {l} e f) =
    let x = occurrences-append c (channels_of a.1) (channels_of b.1 ++ all_channels l) in
    let y = occurrences-append c (channels_of b.1) (all_channels l) in
    let x' = occurrences-append c (channels_of a'.1) (channels_of b'.1 ++ all_channels l) in
    let y' = occurrences-append c (channels_of b'.1) (all_channels l) in
    let p = ap (λ q. occurrences c (channels_of q.1)) e in
    let q = ap (λ q. occurrences c (channels_of q.1)) f in omega (arith, x, y, x', y', p, q)
occurrences-Permᴰ c (Permᴰ.trans p q) = occurrences-Permᴰ c p ∙ occurrences-Permᴰ c q

module _ {D T : Type 0} where
  -- What a channel holds after `n` offers of an event.
  abbrev pub filled : ℕ → Event D T → Channel (Event D T) → List (Event D T)
  filled n e ch = ch.buffer ++ repeat (min n (ch.capacity - length ch.buffer)) e

  -- broadcastError leaves in each channel what it had, and the error once for each of its listeners
  -- as far as there is room, in whatever order the map is visited.
  pub broadcast_error-filled :
      (reason : Text) (w : World D T) (visited : Subscribers Text) (c : ℕ)
      → Permᴰ w.feed.subscribers visited
      → ((broadcast_error reason w).channels c).buffer
        ≡ filled (occurrences c (all_channels visited)) (failure reason) (w.channels c)
  unfolding broadcast_error
  broadcast_error-filled reason w visited c p =
      offers-buffer (all_channels w.feed.subscribers) (failure reason) w.channels c
      ∙ ap (λ n. filled n (failure reason) (w.channels c)) (occurrences-Permᴰ c p)

  -- broadcastTo leaves in each channel what it had, and the event once for each of its listeners of
  -- that token as far as there is room.
  pub broadcast_to-filled :
      (token : Text) (e : Event D T) (w : World D T) (c : ℕ)
      → ((broadcast_to token e w).channels c).buffer
        ≡ filled
            (occurrences c (channels_of (entry text_eq token w.feed.subscribers)))
            e
            (w.channels c)
  unfolding broadcast_to
  broadcast_to-filled token e w c =
      offers-buffer (channels_of (entry text_eq token w.feed.subscribers)) e w.channels c
