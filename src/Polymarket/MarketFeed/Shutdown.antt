-- ===== src/Polymarket/MarketFeed/Shutdown.antt =====
-- polymarket/core/market_feed.go: the delays of `connectLoop`, and its end after the context is
-- cancelled.
use calculated_tennis.Base.{
  ℕ, zero, suc, ◌+◌, ◌*◌, ◌^◌, ◌≤◌, min, ◌≡◌, refl, ◌∙◌, true, false, some, List, [], ◌∷◌, Text,
  arith, length, Option-cases, inl, inr,
}
use calculated_tennis.Polymarket.MarketFeed.{Decoder, broadcast_error}
use calculated_tennis.Polymarket.MarketFeed.Loop.{
  Phase, looking, dialling, ended, sleeping, finished, dialled, opened, checking, reading, closing,
  collected, Loop, Turn, proceed, timer, dial_fails, advance, dial_failed, dial_succeeded,
  resubscribe, read_message, give_up, next_delay, Action, own, run, step,
}

-- The turns of `n` rounds of the loop whose dial fails.
abbrev pub failed_rounds : Text → ℕ → List Action
failed_rounds reason zero = []
failed_rounds reason (suc n) =
    own proceed ∷ own (dial_fails reason) ∷ own timer ∷ failed_rounds reason n

-- What is left of the loop once the context is cancelled.
abbrev pub rank : Phase → ℕ
rank looking = 1
rank dialling = 1
rank (dialled c) = 7
rank (opened c) = 6
rank (collected c ids) = 5
rank (checking c) = 4
rank (reading c) = 5
rank (closing c) = 3
rank ended = 2
rank sleeping = 2
rank finished = 0

abbrev pub owns : List Turn → List Action
owns [] = []
owns (t ∷ ts) = own t ∷ owns ts

le_mul : (a e : ℕ) → 1 ≤ e → a ≤ a * e
le_mul a zero h = absurd (omega arith)
le_mul a (suc e) h = omega arith

one_le_pow : (n : ℕ) → 1 ≤ 2 ^ n
one_le_pow zero = omega arith
one_le_pow (suc n) = omega (arith, one_le_pow n)

double_assoc : (d e : ℕ) → d * 2 * e ≡ d * (2 * e)
double_assoc d zero = omega arith
double_assoc d (suc e) = omega (arith, double_assoc d e)

double_min : (d max n : ℕ) → min (min (d * 2) max * 2 ^ n) max ≡ min (d * 2 ^ suc n) max
double_min d max n =
    let pos = one_le_pow n in
    let a = le_mul (d * 2) (2 ^ n) pos in
    let b = le_mul max (2 ^ n) pos in
    let c = double_assoc d (2 ^ n) in
    let p : 2 ^ suc n ≡ 2 * 2 ^ n = omega arith in rw p (ground (arith, a, b, c))

module _ {D T : Type 0} where
  run-nil : (j : Decoder D) (l : Loop D T) → run j [] l ≡ some l
  unfolding run
  run-nil j l = refl

  failed_round :
      (j : Decoder D) (reason : Text) (acts : List Action) (l : Loop D T)
      → l.phase ≡ looking
      → l.cancelled ≡ false
      → run j (own proceed ∷ own (dial_fails reason) ∷ own timer ∷ acts) l
        ≡ run j acts (record {
          world = broadcast_error reason l.world;
          delay = next_delay l.world.feed.reconnect_max l.delay;
          phase = looking;
          cancelled = l.cancelled;
        })
  unfolding run step advance dial_failed broadcast_error
  failed_round j reason acts l p live = rw (p, live)

  -- From the top of the loop, n + 1 failed dials in a row, with the context live, lead to the top
  -- again, with the delay doubled each time up to the bound, and the rest of the feed as it was.
  pub failed_rounds-delay :
      (j : Decoder D) (reason : Text) (n : ℕ) (l : Loop D T)
      → l.phase ≡ looking
      → l.cancelled ≡ false
      → (l' : Loop D T) × (run j (failed_rounds reason (suc n)) l ≡ some l')
        × (l'.phase ≡ looking)
        × (l'.cancelled ≡ false)
        × (l'.world.feed ≡ l.world.feed)
        × (l'.delay ≡ min (l.delay * 2 ^ suc n) l.world.feed.reconnect_max)
  unfolding broadcast_error
  failed_rounds-delay j reason zero l p live =
      let once : min (l.delay * 2) l.world.feed.reconnect_max
          ≡ min (l.delay * 2 ^ 1) l.world.feed.reconnect_max =
        omega arith in
      (_, failed_round j reason [] l p live ∙ run-nil j _, refl, live, refl, once)
  failed_rounds-delay j reason (suc n) l p live =
      let l1 : Loop D T = record {
        world = broadcast_error reason l.world;
        delay = next_delay l.world.feed.reconnect_max l.delay;
        phase = looking;
        cancelled = l.cancelled;
      } in
      let (l', e, q, c, f, d) = failed_rounds-delay j reason n l1 refl live in
      (
        l',
        failed_round j reason (failed_rounds reason (suc n)) l p live ∙ e,
        q,
        c,
        f,
        d ∙ double_min l.delay l.world.feed.reconnect_max (suc n),
      )

  -- Once the context is cancelled each step brings the loop nearer to its return.
  pub advance-rank :
      (j : Decoder D) (p : Phase) (turn : Turn) (l l' : Loop D T)
      → l.cancelled ≡ true
      → advance j p turn l ≡ some l'
      → (l'.cancelled ≡ true) × (suc (rank l'.phase) ≤ rank p)
  unfolding advance dial_failed dial_succeeded resubscribe read_message give_up broadcast_error
  advance-rank j p turn l l' c e = ground arith

  -- Once the context is cancelled, the steps that the loop takes and the rank of the phase that
  -- they lead to are together at most the rank of its phase, whatever the dial and the connection
  -- give.
  pub run-ends :
      (j : Decoder D) (turns : List Turn) (l l' : Loop D T)
      → l.cancelled ≡ true
      → run j (owns turns) l ≡ some l'
      → length turns + rank l'.phase ≤ rank l.phase
  unfolding run step
  run-ends j [] l l' c e = ground arith
  run-ends j (t ∷ ts) l l' c e = elim (Option-cases (advance j l.phase t l)) [
    | inl stuck ↦ ground arith
    | inr (l1, first) ↦
        let (c1, less) = advance-rank j l.phase t l l1 c first in
        let rest = run-ends j ts l1 l' c1 (ground arith) in omega (arith, less, rest)
  ]
