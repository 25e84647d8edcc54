-- ===== src/Polymarket/Discovery.antt =====
-- polymarket/core/atp_market_discovery.go: traders are started for the markets that the feed
-- announces. The answers of the Gamma API are arguments, by the number of the attempt, as is the
-- result of `startTrader`.
pub mod Once
pub mod Starts
pub mod Retries
use calculated_tennis.Base.{
  ℕ, zero, suc, ◌+◌, Bool, true, false, not, ◌&&◌, ◌||◌, Option, none, some, List, [], ◌∷◌, ◌++◌,
  if◌then◌else◌, Text, codes, text_test, is_empty, has_prefix, equal_fold,
}
use calculated_tennis.Base.Texts.{trim_space}
use calculated_tennis.Polymarket.Events.{NewMarketEvent}
use calculated_tennis.Polymarket.Markets.{GammaMarket, filter_atp_markets}

abbrev pub default_discovery_empty_retries : ℕ
default_discovery_empty_retries = 3

-- `startedSet`; and the conditions for which a trader is being started, and runs.
pub record Discovery : Type 0 where
  pub started_set : List Text
  pub starting : List Text
  pub running : List Text

abbrev pub is_in : Text → List Text → Bool
is_in id [] = false
is_in id (s ∷ ss) = text_test s id || is_in id ss

-- `delete` on the set.
abbrev pub without : Text → List Text → List Text
without id [] = []
without id (s ∷ ss) = let rest = without id ss in if text_test s id then rest else s ∷ rest

-- One occurrence less.
abbrev pub remove_one : Text → List Text → List Text
remove_one id [] = []
remove_one id (s ∷ ss) = if text_test s id then ss else s ∷ remove_one id ss

abbrev pub seeds : List Text → List Text
seeds [] = []
seeds (s ∷ ss) =
    let rest = seeds ss in let id = trim_space s in if is_empty id then rest else id ∷ rest

unfoldable pub new_discovery : List Text → Discovery
new_discovery ids = record { started_set = seeds ids; starting = []; running = [] }

-- The set after the call, and whether the condition was marked.
unfoldable pub mark_started : Text → Discovery → Discovery × Bool
mark_started condition d =
    let id = trim_space condition in
    if is_empty id
    then (d, false)
    else if is_in id d.started_set
    then (d, false)
    else (record d { started_set = id ∷ d.started_set }, true)

unfoldable pub unmark_started : Text → Discovery → Discovery
unmark_started condition d =
    let id = trim_space condition in
    if is_empty id then d else record d { started_set = without id d.started_set }

-- `markStarted`, and the call of `startTrader` if it marked the condition.
unfoldable pub begin_start : Text → Discovery → Discovery
unfolding mark_started
begin_start condition d = begun (mark_started condition d)
  where
    begun : Discovery × Bool → Discovery
    begun (d', marked) =
        if marked then record d' { starting = trim_space condition ∷ d'.starting } else d'

-- The return of `startTrader`, with or without an error.
unfoldable pub end_start : Text → Bool → Discovery → Discovery
unfolding unmark_started
end_start condition works d =
    let id = trim_space condition in
    let d1 = record d { starting = remove_one id d.starting } in
    if works then record d1 { running = id ∷ d1.running } else unmark_started condition d1

-- `wantConditionID`.
abbrev pub wanted : NewMarketEvent → Text
wanted ev = let id = trim_space ev.condition_id in if is_empty id then trim_space ev.market else id

module _ {D T : Type 0} where
  -- An error or an answer with markets ends the loop; an empty one goes on.
  abbrev pub answer_or :
      Option (List (GammaMarket D T))
      → Option (List (GammaMarket D T))
      → Option (List (GammaMarket D T))
  answer_or none next = none
  answer_or (some (m ∷ ms)) next = some (m ∷ ms)
  answer_or (some []) next = next

  -- The loop of `hydrateBySlug` from an attempt on, with the attempts left after it. The context may
  -- end in the wait after an attempt.
  unfoldable pub hydrate_from :
      ℕ → ℕ → (ℕ → Option (List (GammaMarket D T))) → (ℕ → Bool) → Option (List (GammaMarket D T))
  hydrate_from zero attempt answers cancelled = answer_or (answers attempt) none
  hydrate_from (suc left) attempt answers cancelled =
      let rest = hydrate_from left (attempt + 1) answers cancelled in
      answer_or (answers attempt) (if cancelled attempt then none else rest)

  unfoldable pub hydrate_by_slug :
      ℕ → (ℕ → Option (List (GammaMarket D T))) → (ℕ → Bool) → Option (List (GammaMarket D T))
  unfolding hydrate_from
  hydrate_by_slug retries answers cancelled = hydrate_from retries 0 answers cancelled

  abbrev pub find_condition : Text → List (GammaMarket D T) → Option (GammaMarket D T)
  find_condition want [] = none
  find_condition want (m ∷ ms) =
      if equal_fold (trim_space m.condition_id) want then some m else find_condition want ms

  abbrev pub only_one : List (GammaMarket D T) → Option (GammaMarket D T)
  only_one (m ∷ []) = some m
  only_one _ = none

  unfoldable pub normalize_markets :
      List (GammaMarket D T) → NewMarketEvent → Option (GammaMarket D T)
  normalize_markets ms ev =
      if is_empty ms
      then none
      else if not (is_empty (wanted ev))
      then find_condition (wanted ev) ms
      else only_one ms

  abbrev pub after_hydration :
      Option (List (GammaMarket D T)) → NewMarketEvent → Option (GammaMarket D T)
  after_hydration none ev = none
  after_hydration (some ms) ev = normalize_markets ms ev

  unfoldable pub fetch_and_normalize :
      ℕ
      → NewMarketEvent
      → (ℕ → Option (List (GammaMarket D T)))
      → (ℕ → Bool)
      → Option (GammaMarket D T)
  unfolding hydrate_by_slug normalize_markets
  fetch_and_normalize retries ev answers cancelled =
      after_hydration (hydrate_by_slug retries answers cancelled) ev

  -- The rest of `handleNewMarket` for a market that was found.
  unfoldable pub start_market :
      (Text → Option (List Text))
      → (GammaMarket D T → Bool)
      → Option (GammaMarket D T)
      → Discovery
      → Discovery
  start_market strings_of starts found d = of_filtered (filtered found)
    where
      filtered : Option (GammaMarket D T) → Option (GammaMarket D T)
      filtered none = none
      filtered (some m) = only_one (filter_atp_markets strings_of (m ∷ []))

      of_filtered : Option (GammaMarket D T) → Discovery
      of_filtered none = d
      of_filtered (some m) =
          let d1 = begin_start m.condition_id d in
          if (mark_started m.condition_id d).1 then end_start m.condition_id (starts m) d1 else d

  unfoldable pub handle_new_market :
      ℕ
      → (Text → Option (List Text))
      → (GammaMarket D T → Bool)
      → NewMarketEvent
      → (ℕ → Option (List (GammaMarket D T)))
      → (ℕ → Bool)
      → Discovery
      → Discovery
  unfolding fetch_and_normalize start_market
  handle_new_market retries strings_of starts ev answers cancelled d =
      start_market strings_of starts (fetch_and_normalize retries ev answers cancelled) d

  -- The guards of `HandleNewMarket` but for those against nil, which have no counterpart here. The
  -- group of calls with one slug runs them one by one.
  unfoldable pub on_new_market :
      ℕ
      → (Text → Option (List Text))
      → (GammaMarket D T → Bool)
      → NewMarketEvent
      → (ℕ → Option (List (GammaMarket D T)))
      → (ℕ → Bool)
      → Discovery
      → Discovery
  unfolding handle_new_market
  on_new_market retries strings_of starts ev answers cancelled d =
      if not (has_prefix (trim_space ev.slug) (codes "atp-"))
      then d
      else if not (equal_fold (trim_space ev.sports_market_type) (codes "moneyline"))
      then d
      else handle_new_market retries strings_of starts ev answers cancelled d
