-- ===== src/Polymarket/Channels.antt =====
-- Go's buffered channels of events, for polymarket/core: `select` with a `default` case drops the
-- event if the buffer is full. A channel is known by a number.
use mathlib.Core.List.{append_assoc, append-nil}
use calculated_tennis.Base.{
  ℕ, zero, suc, ◌-◌, ◌≤◌, ◌<◌, min, ◌≡◌, refl, sym, ◌∙◌, List, [], ◌∷◌, ◌++◌, ltb, ◌==◌,
  if◌then◌else◌, arith, length, length-append, inl, inr, Bool-cases,
}

pub record Channel (E : Type 0) : Type 0 where
  pub buffer : List E
  pub capacity : ℕ

-- Every channel of the program.
abbrev pub Channels : Type 0 → Type 0
Channels E = ℕ → Channel E

module _ {E : Type 0} where
  abbrev pub put : E → Channel E → Channel E
  put e ch =
      if ltb (length ch.buffer) ch.capacity then record ch { buffer = ch.buffer ++ e ∷ [] } else ch

  -- `select { case c <- e: default: }`.
  unfoldable pub offer : ℕ → E → Channels E → Channels E
  offer c e chs d = if c == d then put e (chs d) else chs d

  -- `for _, meta := range metas { select { case meta.ch <- e: default: } }`.
  unfoldable pub offers : List ℕ → E → Channels E → Channels E
  offers [] e chs = chs
  offers (c ∷ cs) e chs = offers cs e (offer c e chs)

  abbrev take_front : Channel E → Channel E
  take_front ch = record ch { buffer = rest ch.buffer }
    where
      rest : List E → List E
      rest [] = []
      rest (e ∷ es) = es

  -- A listener takes the oldest event of its channel.
  unfoldable pub take_event : ℕ → Channels E → Channels E
  take_event c chs d = if c == d then take_front (chs d) else chs d

-- How often a channel is listed.
abbrev pub occurrences : ℕ → List ℕ → ℕ
occurrences c [] = 0
occurrences c (d ∷ ds) = let n = occurrences c ds in if d == c then suc n else n

abbrev pub repeat {ℓ} : {A : Type ℓ} → ℕ → A → List A
repeat zero a = []
repeat (suc n) a = a ∷ repeat n a

module _ {E : Type 0} where
  put_room :
      (e : E) (ch : Channel E)
      → length ch.buffer < ch.capacity
      → (put e ch ≡ record ch { buffer = ch.buffer ++ e ∷ [] })
  put_room e ch h = ground arith

  put_full : (e : E) (ch : Channel E) → ch.capacity ≤ length ch.buffer → put e ch ≡ ch
  put_full e ch h = ground arith

  offer-capacity :
      (c : ℕ) (e : E) (chs : Channels E) (d : ℕ) → (offer c e chs d).capacity ≡ (chs d).capacity
  unfolding offer
  offer-capacity c e chs d = ground arith

  pub offers-capacity :
      (cs : List ℕ) (e : E) (chs : Channels E) (d : ℕ)
      → (offers cs e chs d).capacity ≡ (chs d).capacity
  unfolding offers
  offers-capacity [] e chs d = refl
  offers-capacity (c ∷ cs) e chs d =
      offers-capacity cs e (offer c e chs) d ∙ offer-capacity c e chs d

  -- What a channel has after the event is offered to it `n` times.
  abbrev after_offers : ℕ → E → Channel E → List E
  after_offers n e ch = ch.buffer ++ repeat (min n (ch.capacity - length ch.buffer)) e

  after_none : (e : E) (ch : Channel E) → after_offers 0 e ch ≡ ch.buffer
  after_none e ch =
      let none : min 0 (ch.capacity - length ch.buffer) ≡ 0 = omega arith in
      rw none (append-nil ch.buffer)

  after_put :
      (n : ℕ) (e : E) (ch : Channel E) → after_offers n e (put e ch) ≡ after_offers (suc n) e ch
  after_put n e ch = elim (Bool-cases (ltb (length ch.buffer) ch.capacity)) [
    | inl room ↦
        let longer = length-append ch.buffer (e ∷ []) in
        let more : min (suc n) (ch.capacity - length ch.buffer)
            ≡ suc (min n (ch.capacity - length (ch.buffer ++ e ∷ []))) =
          ground arith in
        rw (room, more) (append_assoc ch.buffer (e ∷ []) _)
    | inr full ↦
        let all : min (suc n) (ch.capacity - length ch.buffer)
            ≡ min n (ch.capacity - length ch.buffer) =
          ground arith in
        rw (full, all)
  ]

  -- Each mention of a channel adds the event until the channel is full; nothing is lost or moved.
  pub offers-buffer :
      (cs : List ℕ) (e : E) (chs : Channels E) (d : ℕ)
      → (offers cs e chs d).buffer
        ≡ (chs d).buffer
          ++ repeat (min (occurrences d cs) ((chs d).capacity - length (chs d).buffer)) e
  unfolding offers offer
  offers-buffer [] e chs d = sym (after_none e (chs d))
  offers-buffer (c ∷ cs) e chs d = elim (Bool-cases (c == d)) [
    | inl same ↦
        offers-buffer cs e (offer c e chs) d ∙ rw same (after_put (occurrences d cs) e (chs d))
    | inr other ↦ offers-buffer cs e (offer c e chs) d ∙ rw other
  ]

  pub offers-length :
      (cs : List ℕ) (e : E) (chs : Channels E) (d : ℕ)
      → length (chs d).buffer ≤ (chs d).capacity
      → length (offers cs e chs d).buffer ≤ (offers cs e chs d).capacity
  unfolding offers offer
  offers-length [] e chs d h = h
  offers-length (c ∷ cs) e chs d h =
      offers-length cs e (offer c e chs) d (ground (arith, length-append (chs d).buffer (e ∷ [])))

  pub take_event-length :
      (c : ℕ) (chs : Channels E) (d : ℕ)
      → length (chs d).buffer ≤ (chs d).capacity
      → length (take_event c chs d).buffer ≤ (take_event c chs d).capacity
  unfolding take_event
  take_event-length c chs d h = ground arith
