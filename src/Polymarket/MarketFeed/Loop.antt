-- ===== src/Polymarket/MarketFeed/Loop.antt =====
-- polymarket/core/market_feed.go: `connectLoop`, `readLoop` and `runHeartbeat` as a state machine. A
-- step is the code from one lock or blocking call to the next, so that what other goroutines do
-- (subscribe, unsubscribe, stop, take events, cancel the context) may come between any two steps.
use calculated_tennis.Base.{
  ℕ, ◌*◌, min, Bool, true, false, not, ◌||◌, Option, none, some, List, [], ◌∷◌, ◌++◌, ◌==◌,
  if◌then◌else◌, Text, is_empty,
}
use calculated_tennis.Base.Texts.{trim_space}
use calculated_tennis.Polymarket.Channels.{take_event}
use calculated_tennis.Polymarket.Subscribers.{keys}
use calculated_tennis.Polymarket.MarketFeed.{
  ensure_defaults, ping, World, Decoder, send_subscribe, subscribe, unsubscribe, register_handler,
  broadcast_error, dispatch, stop,
}

-- Where `connectLoop` is: at the top of the loop, at the dial, with a connection that it is about to
-- keep, before the tokens are collected, before they are sent, at the check and at the read of
-- `readLoop`, after it, after the connection is given up, at the sleep, and after the return.
pub data Phase : Type 0 where
  looking dialling ended sleeping finished : Phase
  dialled opened checking reading closing : ℕ → Phase
  collected : ℕ → List Text → Phase

pub record Loop (D T : Type 0) : Type 0 where
  pub world : World D T
  pub delay : ℕ
  pub phase : Phase
  pub cancelled : Bool

-- What a step of the loop gets from outside: nothing; the result of the dial; whether a write works;
-- the message or the error of the read; the end of the timer, or of the context during the sleep.
pub data Turn : Type 0 where
  proceed timer context_done : Turn
  dial_gives : ℕ → Turn
  dial_fails read_fails message : Text → Turn
  sends : Bool → Turn

abbrev pub same_conn : Option ℕ → ℕ → Bool
same_conn none c = false
same_conn (some d) c = d == c

-- `delay = min(delay*2, reconnectMaxDelay)`.
abbrev pub next_delay : ℕ → ℕ → ℕ
next_delay max d = min (d * 2) max

module _ {D T : Type 0} where
  abbrev pub with_conn : Option ℕ → World D T → World D T
  with_conn c w = record w { feed = record (w.feed) { conn = c } }

  abbrev pub disconnected : Text → World D T → World D T
  disconnected reason w = broadcast_error reason w

  -- `Start`.
  unfoldable pub start : World D T → Loop D T
  unfolding ensure_defaults
  start w =
      let f = ensure_defaults w.feed in
      record {
        world = record w { feed = f };
        delay = f.reconnect;
        phase = looking;
        cancelled = false;
      }

  unfoldable pub dial_failed : Text → Loop D T → Loop D T
  dial_failed reason l =
      if l.cancelled
      then record l { phase = finished }
      else record l { world = disconnected reason l.world; phase = sleeping }

  unfoldable pub dial_succeeded : ℕ → Loop D T → Loop D T
  dial_succeeded c l =
      if l.cancelled
      then record l {
        world = record (l.world) { closed = l.world.closed ++ c ∷ [] };
        phase = finished;
      }
      else record l { delay = l.world.feed.reconnect; phase = dialled c }

  unfoldable pub resubscribe : Bool → ℕ → List Text → Loop D T → Loop D T
  resubscribe works c ids l =
      if is_empty ids
      then record l { phase = checking c }
      else record l { world = (send_subscribe works ids l.world).0; phase = checking c }

  -- A message that is blank or no JSON is dropped.
  unfoldable pub read_message : Decoder D → ℕ → Text → Loop D T → Loop D T
  read_message j c msg l =
      let m = trim_space msg in
      if is_empty m || not (j.is_json m)
      then record l { phase = checking c }
      else record l { world = dispatch j m l.world; phase = checking c }

  unfoldable pub give_up : ℕ → Loop D T → Loop D T
  give_up c l =
      if same_conn l.world.feed.conn c
      then record l { world = with_conn none l.world; phase = ended }
      else record l { phase = ended }

  -- A step of `connectLoop`; `none` if the turn does not fit.
  unfoldable pub advance : Decoder D → Phase → Turn → Loop D T → Option (Loop D T)
  unfolding dial_failed dial_succeeded resubscribe read_message give_up
  advance j looking proceed l =
      some (record l { phase = if l.cancelled then finished else dialling })
  advance j dialling (dial_fails reason) l = some (dial_failed reason l)
  advance j dialling (dial_gives c) l = some (dial_succeeded c l)
  advance j (dialled c) proceed l =
      some (record l { world = with_conn (some c) l.world; phase = opened c })
  advance j (opened c) proceed l =
      some (record l { phase = collected c (keys l.world.feed.subscribers) })
  advance j (collected c ids) (sends works) l = some (resubscribe works c ids l)
  advance j (checking c) proceed l =
      some (record l { phase = if l.cancelled then closing c else reading c })
  advance j (reading c) (message m) l = some (read_message j c m l)
  advance j (reading c) (read_fails reason) l =
      some (record l { world = disconnected reason l.world; phase = closing c })
  advance j (closing c) proceed l = some (give_up c l)
  advance j ended proceed l = some (record l { phase = if l.cancelled then finished else sleeping })
  advance j sleeping timer l =
      some (record l { delay = next_delay l.world.feed.reconnect_max l.delay; phase = looking })
  advance j sleeping context_done l =
      if l.cancelled then some (record l { phase = finished }) else none
  advance j _ _ l = none

  abbrev beat_on : ℕ → Bool → Loop D T → Loop D T
  beat_on c works l =
      if works
      then record l { world = record (l.world) { written = l.world.written ++ (c, ping) ∷ [] } }
      else l

  -- A tick of `runHeartbeat` on the connection that is being read.
  unfoldable pub beat : Phase → Bool → Loop D T → Option (Loop D T)
  beat (checking c) works l = some (beat_on c works l)
  beat (reading c) works l = some (beat_on c works l)
  beat _ works l = none

-- A step of the loop, or a call from another goroutine; the Boolean says whether its write works.
pub data Action : Type 0 where
  own : Turn → Action
  subscribes : Bool → Text → Text → ℕ → Action
  unsubscribes : Bool → Text → ℕ → Action
  registers : Option ℕ → Action
  beats : Bool → Action
  takes : ℕ → Action
  stops cancels : Action

module _ {D T : Type 0} where
  abbrev pub on_world : (World D T → World D T) → Loop D T → Loop D T
  on_world f l = record l { world = f l.world }

  unfoldable pub step : Decoder D → Action → Loop D T → Option (Loop D T)
  unfolding advance beat
  step j (own turn) l = advance j l.phase turn l
  step j (subscribes works token name ch) l = some (on_world (subscribe works token name ch) l)
  step j (unsubscribes works token ch) l = some (on_world (λ w. (unsubscribe works token ch w).0) l)
  step j (registers handler) l = some (on_world (register_handler handler) l)
  step j (beats works) l = beat l.phase works l
  step j (takes ch) l = some (on_world (λ w. record w { channels = take_event ch w.channels }) l)
  step j stops l = some (on_world stop l)
  step j cancels l = some (record l { cancelled = true })

  abbrev pub and_then : Option (Loop D T) → (Loop D T → Option (Loop D T)) → Option (Loop D T)
  and_then none k = none
  and_then (some l) k = k l

  -- The state after a sequence of actions, if each is possible where it comes.
  unfoldable pub run : Decoder D → List Action → Loop D T → Option (Loop D T)
  unfolding step
  run j [] l = some l
  run j (a ∷ acts) l = and_then (step j a l) (run j acts)
