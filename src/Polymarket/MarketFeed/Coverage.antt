-- ===== src/Polymarket/MarketFeed/Coverage.antt =====
-- polymarket/core/market_feed.go: what the server was last told about a token on a connection, and
-- the tokens with listeners.
use calculated_tennis.Base.{
  ℕ, ◌≡◌, refl, Bool, true, false, not, ◌&&◌, ◌||◌, Option, none, some, List, [], ◌∷◌, ◌++◌, ◌==◌,
  ==_iff, if◌then◌else◌, Text, text_eq, text_test, text_test_iff, is_empty, arith, inl, inr,
  Bool-cases, Option-cases, subst,
}
use calculated_tennis.Polymarket.Subscribers.{
  Subscribers, keys, has_key, entry, delete_entry, drop_subscriber, add_subscriber, Subscriber,
}
use calculated_tennis.Polymarket.Subscribers.Entries.{
  Tidy, has_key-add_subscriber, has_key-drop_subscriber, has_key-delete_entry, entry-delete_entry,
  entry-drop_subscriber, add_subscriber-Tidy,
}
use calculated_tennis.Polymarket.MarketFeed.{
  Frame, subscribe_frame, unsubscribe_frame, ping, World, send_subscribe, send_unsubscribe, write,
  subscribe, unsubscribe,
}
use calculated_tennis.Polymarket.MarketFeed.Loop.{
  Phase, opened, checking, reading, closing, collected, Loop,
}

abbrev pub is_among : Text → List Text → Bool
is_among k [] = false
is_among k (j ∷ ks) = text_test j k || is_among k ks

-- The subscription of a token after a frame.
abbrev pub after_frame : Text → Frame → Bool → Bool
after_frame k (subscribe_frame ids) b = is_among k ids || b
after_frame k (unsubscribe_frame ids) b = not (is_among k ids) && b
after_frame k ping b = b

-- The server's subscription of a token on a connection, read off the frames written.
abbrev pub is_wired : ℕ → Text → Bool → List (ℕ × Frame) → Bool
is_wired c k b [] = b
is_wired c k b ((d, frame) ∷ log) = is_wired c k (if d == c then after_frame k frame b else b) log

pub is_wired-snoc :
    (c : ℕ) (k : Text) (b : Bool) (log : List (ℕ × Frame)) (d : ℕ) (frame : Frame)
    → is_wired c k b (log ++ (d, frame) ∷ [])
      ≡ (if d == c then after_frame k frame (is_wired c k b log) else is_wired c k b log)
is_wired-snoc c k b [] d frame = refl
is_wired-snoc c k b ((e, f) ∷ log) d frame =
    is_wired-snoc c k (if e == c then after_frame k f b else b) log d frame

pub has_key-keys : (k : Text) (m : Subscribers Text) → has_key text_eq k m ≡ is_among k (keys m)
unfolding has_key
has_key-keys k [] = refl
has_key-keys k ((j, ss) ∷ m) = rw (has_key-keys k m)

-- The connection that the loop has at a phase.
abbrev pub phase_conn : Phase → Option ℕ
phase_conn (opened c) = some c
phase_conn (checking c) = some c
phase_conn (reading c) = some c
phase_conn (closing c) = some c
phase_conn (collected c ids) = some c
phase_conn _ = none

-- A token that the loop is about to subscribe.
abbrev pub awaits : Phase → Text → Bool
awaits (opened c) k = true
awaits (collected c ids) k = is_among k ids
awaits _ k = false

-- A token with listeners is subscribed on the connection, or about to be.
pub record Covers (p : Phase) (conn : Option ℕ) (m : Subscribers Text) (log : List (ℕ × Frame))
    : Type 0 where
  pub tidy : Tidy text_eq m
  pub own : (c : ℕ) → conn ≡ some c → phase_conn p ≡ some c
  pub covered :
      (c : ℕ) (k : Text)
      → conn ≡ some c
      → has_key text_eq k m ≡ true
      → (is_wired c k false log || awaits p k) ≡ true

-- After a subscription that is sent.
subscribe-Covers :
    (p : Phase) (c : ℕ) (m : Subscribers Text) (log : List (ℕ × Frame)) (token : Text)
    (s : Subscriber)
    → Covers p (some c) m log
    → Covers p
        (some c)
        (add_subscriber text_eq token s m)
        (log ++ (c, subscribe_frame (token ∷ [])) ∷ [])
subscribe-Covers p c m log token s h = record {
  tidy = add_subscriber-Tidy text_eq token s m h.tidy;
  own = h.own;
  covered = λ d k e here.
      let w = is_wired-snoc d k false log c (subscribe_frame (token ∷ [])) in
      let a = has_key-add_subscriber text_eq k token s m in
      ground (arith, w, a, h.covered d k e, ==_iff c d);
}

again-Covers :
    (p : Phase) (c : Option ℕ) (m : Subscribers Text) (log : List (ℕ × Frame)) (token : Text)
    (s : Subscriber)
    → has_key text_eq token m ≡ true
    → Covers p c m log
    → Covers p c (add_subscriber text_eq token s m) log
again-Covers p c m log token s old h = record {
  tidy = add_subscriber-Tidy text_eq token s m h.tidy;
  own = h.own;
  covered = λ d k e here.
      let a = has_key-add_subscriber text_eq k token s m in
      ground (arith, a, h.covered d k e, text_test_iff token k);
}

-- Without a connection nothing is promised of the log.
pub unconnected-Covers :
    (p : Phase) (m : Subscribers Text) (log : List (ℕ × Frame))
    → Tidy text_eq m
    → Covers p none m log
unconnected-Covers p m log t = record {
  tidy = t;
  own = λ c e. ground arith;
  covered = λ c k e. ground arith;
}

dropped-Tidy :
    (token : Text) (ch : ℕ) (m : Subscribers Text)
    → Tidy text_eq m
    → is_empty (entry text_eq token (drop_subscriber text_eq token ch m)) ≡ false
    → Tidy text_eq (drop_subscriber text_eq token ch m)
unfolding Tidy
dropped-Tidy token ch m t e k =
    let a = has_key-drop_subscriber text_eq k token ch m t in
    let b = entry-drop_subscriber text_eq k token ch m in
    let c = entry-drop_subscriber text_eq token token ch m in
    ground (arith, a, b, c, t k, text_test_iff token k)

deleted-Tidy :
    (token : Text) (ch : ℕ) (m : Subscribers Text)
    → Tidy text_eq m
    → Tidy text_eq (delete_entry text_eq token (drop_subscriber text_eq token ch m))
unfolding Tidy
deleted-Tidy token ch m t k =
    let m' = drop_subscriber text_eq token ch m in
    let a = has_key-drop_subscriber text_eq k token ch m t in
    let b = entry-drop_subscriber text_eq k token ch m in
    let c = has_key-delete_entry text_eq k token m' in
    let d = entry-delete_entry text_eq k token m' in
    ground (arith, a, b, c, d, t k, text_test_iff token k)

kept-Covers :
    (p : Phase) (c : Option ℕ) (m : Subscribers Text) (log : List (ℕ × Frame)) (token : Text)
    (ch : ℕ)
    → is_empty (entry text_eq token (drop_subscriber text_eq token ch m)) ≡ false
    → Covers p c m log
    → Covers p c (drop_subscriber text_eq token ch m) log
kept-Covers p c m log token ch e h = record {
  tidy = dropped-Tidy token ch m h.tidy e;
  own = h.own;
  covered = λ d k f here.
      let a = has_key-drop_subscriber text_eq k token ch m h.tidy in
      ground (arith, a, h.covered d k f);
}

unsubscribe-Covers :
    (p : Phase) (c : ℕ) (m : Subscribers Text) (log : List (ℕ × Frame)) (token : Text) (ch : ℕ)
    → Covers p (some c) m log
    → Covers p
        (some c)
        (delete_entry text_eq token (drop_subscriber text_eq token ch m))
        (log ++ (c, unsubscribe_frame (token ∷ [])) ∷ [])
unsubscribe-Covers p c m log token ch h = record {
  tidy = deleted-Tidy token ch m h.tidy;
  own = h.own;
  covered = λ d k f here.
      let w = is_wired-snoc d k false log c (unsubscribe_frame (token ∷ [])) in
      let a = has_key-drop_subscriber text_eq k token ch m h.tidy in
      let b = has_key-delete_entry text_eq k token (drop_subscriber text_eq token ch m) in
      ground (arith, w, a, b, h.covered d k f, ==_iff c d);
}

module _ {D T : Type 0} where
  -- The invariant of a loop.
  abbrev pub Covered : Loop D T → Type 0
  Covered l = Covers l.phase l.world.feed.conn l.world.feed.subscribers l.world.written

  abbrev at_conn :
      (p : Phase) (w : World D T) (c : Option ℕ)
      → w.feed.conn ≡ c
      → Covers p w.feed.conn w.feed.subscribers w.written
      → Covers p c w.feed.subscribers w.written
  at_conn p w c e h = subst (λ x. Covers p x w.feed.subscribers w.written) e h

  pub subscribe-Covered :
      (token name : Text) (ch : ℕ) (p : Phase) (w : World D T)
      → Covers p w.feed.conn w.feed.subscribers w.written
      → let w' = subscribe true token name ch w in
        Covers p w'.feed.conn w'.feed.subscribers w'.written
  unfolding subscribe send_subscribe write
  subscribe-Covered token name ch p w h =
      let m = w.feed.subscribers in
      let s : Subscriber = record { name = name; ch = ch } in
      elim (Bool-cases (has_key text_eq token m)) [
        | inl old ↦ rw old (again-Covers p w.feed.conn m w.written token s old h)
        | inr new ↦ elim (Option-cases w.feed.conn) [
          | inl e ↦
              rw (new, e)
                (unconnected-Covers p _ w.written (add_subscriber-Tidy text_eq token s m h.tidy))
          | inr (c, e) ↦
              rw (new, e) (subscribe-Covers p c m w.written token s (at_conn p w (some c) e h))
        ]
      ]

  pub unsubscribe-Covered :
      (token : Text) (ch : ℕ) (p : Phase) (w : World D T)
      → Covers p w.feed.conn w.feed.subscribers w.written
      → let w' = (unsubscribe true token ch w).0 in
        Covers p w'.feed.conn w'.feed.subscribers w'.written
  unfolding unsubscribe send_unsubscribe write
  unsubscribe-Covered token ch p w h =
      let m = w.feed.subscribers in
      let m' = drop_subscriber text_eq token ch m in
      elim (Bool-cases (is_empty (entry text_eq token m'))) [
        | inl gone ↦ elim (Option-cases w.feed.conn) [
          | inl e ↦ rw (gone, e) (unconnected-Covers p _ w.written (deleted-Tidy token ch m h.tidy))
          | inr (c, e) ↦
              rw (gone, e) (unsubscribe-Covers p c m w.written token ch (at_conn p w (some c) e h))
        ]
        | inr kept ↦ rw kept (kept-Covers p w.feed.conn m w.written token ch kept h)
      ]
