-- ===== src/Polymarket/MarketFeed/Turns.antt =====
-- polymarket/core/market_feed.go: each step of the loop leaves the tokens with listeners subscribed.
use calculated_tennis.Base.{
  ℕ, ◌≡◌, refl, sym, ◌∙◌, Bool, true, false, none, some, List, [], ◌∷◌, ==_iff, if◌then◌else◌, Text,
  arith, inl, inr, Option-cases,
}
use calculated_tennis.Base.Texts.{trim_space}
use calculated_tennis.Polymarket.Subscribers.{keys}
use calculated_tennis.Polymarket.MarketFeed.{
  subscribe_frame, ping, Decoder, write, send_subscribe, broadcast_error,
}
use calculated_tennis.Polymarket.MarketFeed.Loop.{
  Phase, looking, dialling, ended, sleeping, finished, dialled, opened, checking, reading, closing,
  collected, Loop, Turn, message, advance, beat, dial_failed, dial_succeeded, resubscribe,
  read_message, give_up, with_conn,
}
use calculated_tennis.Polymarket.MarketFeed.Keeps.{
  moved-Covers, works, Keeps, dispatch-Keeps, Keeps-Covers,
}
use calculated_tennis.Polymarket.MarketFeed.Coverage.{
  Covers, Covered, is_wired, is_wired-snoc, phase_conn, has_key-keys, unconnected-Covers,
}

module _ {D T : Type 0} where
  resubscribe-Covered :
      (c : ℕ) (ids : List Text) (l : Loop D T)
      → Covers (collected c ids) l.world.feed.conn l.world.feed.subscribers l.world.written
      → Covered (resubscribe true c ids l)
  unfolding resubscribe send_subscribe write
  resubscribe-Covered c [] l h =
      moved-Covers (collected c []) (checking c) _ _ _ refl (λ k a b. b) h
  resubscribe-Covered c (i ∷ ids) l h = elim (Option-cases l.world.feed.conn) [
    | inl e ↦ rw e (unconnected-Covers (checking c) _ _ h.tidy)
    | inr (d, e) ↦ rw e (record {
      tidy = h.tidy;
      own = λ x r. h.own x (e ∙ r);
      covered = λ x k r b.
          let w = is_wired-snoc x k false l.world.written d (subscribe_frame (i ∷ ids)) in
          ground (arith, w, h.covered x k (e ∙ r) b, ==_iff d x);
    })
  ]

module _ {D T : Type 0} (j : Decoder D) (l l' : Loop D T) where
  abbrev CoversAt : Phase → Type 0
  CoversAt p = Covers p l.world.feed.conn l.world.feed.subscribers l.world.written

  looking-Covered :
      (turn : Turn) → advance j looking turn l ≡ some l' → CoversAt looking → Covered l'
  unfolding advance
  looking-Covered turn e h =
      let to : l' ≡ record l { phase = if l.cancelled then finished else dialling } =
        ground arith in
      rw to (moved-Covers looking _ _ _ _ (ground arith) (λ k a b. ground arith) h)

  dialling-Covered :
      (turn : Turn) → advance j dialling turn l ≡ some l' → CoversAt dialling → Covered l'
  unfolding advance dial_failed dial_succeeded broadcast_error
  dialling-Covered turn e h =
      let same : l'.world.feed ≡ l.world.feed = ground arith in
      let log : l'.world.written ≡ l.world.written = ground arith in
      let to : phase_conn l'.phase ≡ none = ground arith in
      rw (same, log) (moved-Covers dialling l'.phase _ _ _ (sym to) (λ k a b. ground arith) h)

  dialled-Covered :
      (c : ℕ) (turn : Turn)
      → advance j (dialled c) turn l ≡ some l'
      → CoversAt (dialled c)
      → Covered l'
  unfolding advance
  dialled-Covered c turn e h =
      let to : l' ≡ record l { world = with_conn (some c) l.world; phase = opened c } =
        ground arith in
      rw to (record { tidy = h.tidy; own = λ d r. r; covered = λ d k r b. ground arith })

  opened-Covered :
      (c : ℕ) (turn : Turn)
      → advance j (opened c) turn l ≡ some l'
      → CoversAt (opened c)
      → Covered l'
  unfolding advance
  opened-Covered c turn e h =
      let to : l' ≡ record l { phase = collected c (keys l.world.feed.subscribers) } =
        ground arith in
      rw to (moved-Covers (opened c) _ _ _ _ refl (λ k a b. sym (has_key-keys k _) ∙ a) h)

  collected-Covered :
      (c : ℕ) (ids : List Text) (turn : Turn)
      → advance j (collected c ids) turn l ≡ some l'
      → works turn ≡ true
      → CoversAt (collected c ids)
      → Covered l'
  unfolding advance resubscribe
  collected-Covered c ids turn e ok h =
      let to : l' ≡ resubscribe true c ids l = ground arith in rw to (resubscribe-Covered c ids l h)

  checking-Covered :
      (c : ℕ) (turn : Turn)
      → advance j (checking c) turn l ≡ some l'
      → CoversAt (checking c)
      → Covered l'
  unfolding advance
  checking-Covered c turn e h =
      let to : l' ≡ record l { phase = if l.cancelled then closing c else reading c } =
        ground arith in
      rw to (moved-Covers (checking c) _ _ _ _ (ground arith) (λ k a b. ground arith) h)

  read-Keeps :
      (c : ℕ) (turn : Turn) → advance j (reading c) turn l ≡ some l' → Keeps l.world l'.world
  unfolding advance read_message broadcast_error
  read-Keeps c (message m) e =
      let k = dispatch-Keeps j (trim_space m) l.world in
      record { feed = ground (arith, k.feed); written = ground (arith, k.written) }
  read-Keeps c turn e = record { feed = ground arith; written = ground arith }

  reading-Covered :
      (c : ℕ) (turn : Turn)
      → advance j (reading c) turn l ≡ some l'
      → CoversAt (reading c)
      → Covered l'
  unfolding advance read_message broadcast_error
  reading-Covered c turn e h =
      let kept = read-Keeps c turn e in
      let to : phase_conn l'.phase ≡ some c = ground arith in
      Keeps-Covers l'.phase l.world l'.world kept
        (moved-Covers (reading c) l'.phase _ _ _ (sym to) (λ k a b. ground arith) h)

  closing-Covered :
      (c : ℕ) (turn : Turn)
      → advance j (closing c) turn l ≡ some l'
      → CoversAt (closing c)
      → Covered l'
  unfolding advance give_up
  closing-Covered c turn e h =
      let gone : l'.world.feed.conn ≡ none = elim (Option-cases l.world.feed.conn) [
        | inl free ↦ ground arith
        | inr (d, on) ↦ let same = h.own d on in ground arith
      ] in
      let same : l'.world.feed.subscribers ≡ l.world.feed.subscribers = ground arith in
      rw (gone, same) (unconnected-Covers l'.phase _ _ h.tidy)

  ended-Covered : (turn : Turn) → advance j ended turn l ≡ some l' → CoversAt ended → Covered l'
  unfolding advance
  ended-Covered turn e h =
      let to : l' ≡ record l { phase = if l.cancelled then finished else sleeping } =
        ground arith in
      rw to (moved-Covers ended _ _ _ _ (ground arith) (λ k a b. ground arith) h)

  sleeping-Covered :
      (turn : Turn) → advance j sleeping turn l ≡ some l' → CoversAt sleeping → Covered l'
  unfolding advance
  sleeping-Covered turn e h =
      let same : l'.world ≡ l.world = ground arith in
      let to : phase_conn l'.phase ≡ none = ground arith in
      rw same (moved-Covers sleeping l'.phase _ _ _ (sym to) (λ k a b. ground arith) h)

  finished-Covered : (turn : Turn) → advance j finished turn l ≡ some l' → Covered l'
  unfolding advance
  finished-Covered turn e = ground arith

  pub advance-Covered :
      (p : Phase) (turn : Turn)
      → advance j p turn l ≡ some l'
      → works turn ≡ true
      → CoversAt p
      → Covered l'
  advance-Covered looking turn e w h = looking-Covered turn e h
  advance-Covered dialling turn e w h = dialling-Covered turn e h
  advance-Covered (dialled c) turn e w h = dialled-Covered c turn e h
  advance-Covered (opened c) turn e w h = opened-Covered c turn e h
  advance-Covered (collected c ids) turn e w h = collected-Covered c ids turn e w h
  advance-Covered (checking c) turn e w h = checking-Covered c turn e h
  advance-Covered (reading c) turn e w h = reading-Covered c turn e h
  advance-Covered (closing c) turn e w h = closing-Covered c turn e h
  advance-Covered ended turn e w h = ended-Covered turn e h
  advance-Covered sleeping turn e w h = sleeping-Covered turn e h
  advance-Covered finished turn e w h = finished-Covered turn e

  beat_phase :
      (p : Phase) (b : Bool)
      → beat p b l ≡ some l'
      → (l'.phase ≡ l.phase) × (l'.world.feed ≡ l.world.feed)
  unfolding beat
  beat_phase p b e = ground arith

  beat_wired :
      (p : Phase) (b : Bool)
      → beat p b l ≡ some l'
      → (c : ℕ) (k : Text)
      → is_wired c k false l'.world.written ≡ is_wired c k false l.world.written
  unfolding beat
  beat_wired (checking d) b e c k =
      let w = is_wired-snoc c k false l.world.written d ping in ground arith
  beat_wired (reading d) b e c k =
      let w = is_wired-snoc c k false l.world.written d ping in ground arith
  beat_wired p b e c k = ground arith

  pub beat-Covered : (b : Bool) → beat l.phase b l ≡ some l' → Covered l → Covered l'
  beat-Covered b e h =
      let (phase, feed) = beat_phase l.phase b e in
      rw (phase, feed)
        (record {
          tidy = h.tidy;
          own = h.own;
          covered = λ c k r a. rw (beat_wired l.phase b e c k) (h.covered c k r a);
        })
