-- ===== src/Polymarket/Discovery/Starts.antt =====
-- polymarket/core/atp_market_discovery.go: when a market that was found gets a trader, and what the
-- discovery is then.
use calculated_tennis.Base.{
  sym, ◌≡◌, refl, Bool, true, false, ◌&&◌, ◌||◌, Option, none, some, List, [], ◌∷◌, if◌then◌else◌,
  Text, codes, text_test, text_test_iff, is_empty, has_prefix, contains, to_lower, arith,
  Bool-cases, ◌⊎◌, inl, inr,
}
use calculated_tennis.Base.Texts.{trim_space}
use calculated_tennis.Polymarket.Markets.{
  GammaMarket, any_challenger, has_tokens, is_decoded, passes_filters, filter_atp_markets,
}
use calculated_tennis.Polymarket.Discovery.{
  Discovery, only_one, start_market, is_in, mark_started, unmark_started, begin_start, end_start,
}
use calculated_tennis.Polymarket.Discovery.Once.{
  begins, ends, call, calls, is_in-without, test_refl,
}

begin-end :
    (condition : Text) (works : Bool) (d : Discovery)
    → (mark_started condition d).1 ≡ true
    → calls (begins condition ∷ ends condition works ∷ []) d
      ≡ end_start condition works (begin_start condition d)
unfolding calls call begin_start mark_started
begin-end condition works d e =
    let j = trim_space condition in
    let here : is_in j (begin_start condition d).starting ≡ true = ground (arith, test_refl j) in
    rw here

-- What the discovery is after the start of a trader that works or fails: only a trader that works
-- is marked and runs, and the traders that are being started are those from before.
pub record IsStarted (condition : Text) (works : Bool) (before after : Discovery) : Type 0 where
  pub starting : after.starting ≡ before.starting
  pub running :
      after.running ≡ (if works then trim_space condition ∷ before.running else before.running)
  pub marks :
      (id : Text)
      → is_in id after.started_set
        ≡ (is_in id before.started_set || works && text_test (trim_space condition) id)

end_start-IsStarted :
    (condition : Text) (works : Bool) (d : Discovery)
    → is_empty (trim_space condition) ≡ false
    → is_in (trim_space condition) d.started_set ≡ false
    → IsStarted condition works d (end_start condition works (begin_start condition d))
unfolding end_start begin_start mark_started unmark_started
end_start-IsStarted condition true d given new = record {
  starting = ground (arith, test_refl (trim_space condition));
  running = ground arith;
  marks = λ id. ground arith;
}
end_start-IsStarted condition false d given new = record {
  starting = ground (arith, test_refl (trim_space condition));
  running = ground arith;
  marks = λ id.
      let j = trim_space condition in
      ground (arith, is_in-without id j (j ∷ d.started_set), text_test_iff j id, test_refl j);
}

has_tokens-true :
    (o : Option (List Text))
    → has_tokens o ≡ true
    → (ids : List Text) × (o ≡ some ids) × (is_empty ids ≡ false)
has_tokens-true none h = absurd (ground arith)
has_tokens-true (some ids) h = (ids, refl, ground arith)

is_decoded-true :
    (o : Option (List Text)) → is_decoded o ≡ true → (names : List Text) × (o ≡ some names)
is_decoded-true none h = absurd (ground arith)
is_decoded-true (some names) h = (names, refl)

module _ {D T : Type 0} (strings_of : Text → Option (List Text)) where
  -- A singles market of the ATP tour with an order book, tokens and outcomes, whose condition is
  -- given and not yet marked.
  pub record IsStartable (m : GammaMarket D T) (d : Discovery) : Type 0 where
    pub on_book : m.enable_order_book ≡ true
    pub of_tour : has_prefix m.slug (codes "atp-") ≡ true
    pub of_singles : contains (to_lower m.slug) (codes "doubles") ≡ false
    pub tokens :
        (ids : List Text) × (strings_of m.clob_token_ids ≡ some ids) × (is_empty ids ≡ false)
    pub outcomes : (names : List Text) × (strings_of m.outcomes ≡ some names)
    pub main_tour : any_challenger m.events ≡ false
    pub identified : is_empty (trim_space m.condition_id) ≡ false
    pub unmarked : is_in (trim_space m.condition_id) d.started_set ≡ false

  passes :
      (m : GammaMarket D T) (d : Discovery) → IsStartable m d → passes_filters strings_of m ≡ true
  unfolding passes_filters
  passes m d s =
      let (ids, tokens, given) = s.tokens in
      let (names, decoded) = s.outcomes in
      ground (arith, tokens, given, decoded, s.on_book, s.of_tour, s.of_singles, s.main_tour)

  marks :
      (m : GammaMarket D T) (d : Discovery)
      → IsStartable m d
      → (mark_started m.condition_id d).1 ≡ true
  unfolding mark_started
  marks m d s = ground (arith, s.identified, s.unmarked)

  startable :
      (m : GammaMarket D T) (d : Discovery)
      → passes_filters strings_of m ≡ true
      → (mark_started m.condition_id d).1 ≡ true
      → IsStartable m d
  unfolding passes_filters mark_started
  startable m d p q = record {
    on_book = ground arith;
    of_tour = ground arith;
    of_singles = ground arith;
    tokens = has_tokens-true (strings_of m.clob_token_ids) (ground arith);
    outcomes = is_decoded-true (strings_of m.outcomes) (ground arith);
    main_tour = ground arith;
    identified = ground arith;
    unmarked = ground arith;
  }

  only_filtered :
      (m : GammaMarket D T)
      → only_one (filter_atp_markets strings_of (m ∷ []))
        ≡ (if passes_filters strings_of m then some m else none)
  unfolding filter_atp_markets
  only_filtered m = ground arith

  -- Whether there is a market to be started.
  abbrev pub IsToStart : Option (GammaMarket D T) → Discovery → Type 0
  IsToStart none d = ⊥
  IsToStart (some m) d = IsStartable m d

  module _ (starts : GammaMarket D T → Bool) where
    -- handleNewMarket, from the market that was fetched on, starts a trader exactly if there is a
    -- market that may be started: with an order book, of the ATP tour, not of doubles, with tokens
    -- and outcomes that decode, no Challenger market, and with a condition that is given and not
    -- yet marked. Then the discovery is what the beginning and the end of that start give one after
    -- the other: a trader that works is marked and runs, one that fails leaves the marks as they
    -- were, and no trader is being started that was not before. Otherwise the discovery does not
    -- change.
    pub start_market-IsStarted :
        (found : Option (GammaMarket D T)) (d : Discovery)
        → ((¬ IsToStart found d) × (start_market strings_of starts found d ≡ d))
          ⊎ ((m : GammaMarket D T) × (found ≡ some m)
              × IsStartable m d
              × IsStarted m.condition_id (starts m) d (start_market strings_of starts found d)
              × (start_market strings_of starts found d
                  ≡ calls (begins m.condition_id ∷ ends m.condition_id (starts m) ∷ []) d))
    unfolding start_market
    start_market-IsStarted none d = inl (λ h. h, refl)
    start_market-IsStarted (some m) d = elim (Bool-cases (passes_filters strings_of m)) [
      | inr out ↦ inl (λ s. absurd (ground (arith, passes m d s)), rw (only_filtered m, out))
      | inl passed ↦ elim (Bool-cases (mark_started m.condition_id d).1) [
        | inr old ↦
            inl (λ s. absurd (ground (arith, marks m d s)), rw (only_filtered m, passed, old))
        | inl marked ↦
            let s = startable m d passed marked in
            let run = begin-end m.condition_id (starts m) d marked in
            let done = end_start-IsStarted m.condition_id (starts m) d s.identified s.unmarked in
            inr (
              m,
              refl,
              s,
              rw (only_filtered m, passed, marked) done,
              rw (only_filtered m, passed, marked) (sym run),
            )
      ]
    ]
