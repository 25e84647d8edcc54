-- ===== src/Polymarket/Discovery/Retries.antt =====
-- polymarket/core/atp_market_discovery.go: the attempts of `hydrateBySlug`.
use calculated_tennis.Base.{
  ℕ, zero, suc, ◌+◌, ◌≤◌, ◌<◌, ◌≡◌, refl, Bool, false, Option, none, some, List, [], ◌∷◌, is_empty,
  subst, ◌==◌, arith, Bool-cases, ◌⊎◌, inl, inr,
}
use calculated_tennis.Polymarket.Markets.{GammaMarket}
use calculated_tennis.Polymarket.Discovery.{hydrate_from, hydrate_by_slug, answer_or}

module _ {D T : Type 0} (answers : ℕ → Option (List (GammaMarket D T))) (cancelled : ℕ → Bool) where
  -- The markets are the answer of an attempt after empty answers only.
  pub record IsFirstAnswer (from last : ℕ) (ms : List (GammaMarket D T)) : Type 0 where
    pub attempt : ℕ
    pub begun : from ≤ attempt
    pub bounded : attempt ≤ last
    pub answered : answers attempt ≡ some ms
    pub found : is_empty ms ≡ false
    pub before : (k : ℕ) → from ≤ k → k < attempt → (answers k ≡ some []) × (cancelled k ≡ false)

  answer_cases :
      (a next : Option (List (GammaMarket D T))) (ms : List (GammaMarket D T))
      → answer_or a next ≡ some ms
      → ((a ≡ some ms) × (is_empty ms ≡ false)) ⊎ ((a ≡ some []) × (next ≡ some ms))
  answer_cases none next ms e = ground arith
  answer_cases (some []) next ms e = inr (refl, e)
  answer_cases (some (m ∷ rest)) next ms e = inl (e, ground arith)

  hydrate_from-IsFirstAnswer :
      (left attempt : ℕ) (ms : List (GammaMarket D T))
      → hydrate_from left attempt answers cancelled ≡ some ms
      → IsFirstAnswer attempt (attempt + left) ms
  unfolding hydrate_from
  hydrate_from-IsFirstAnswer zero attempt ms e = record {
    attempt = attempt;
    begun = omega arith;
    bounded = omega arith;
    answered = ground arith;
    found = ground arith;
    before = λ k h l. absurd (omega arith);
  }
  hydrate_from-IsFirstAnswer (suc left) attempt ms e =
      elim (answer_cases (answers attempt) _ ms e) [
        | inl (answered, found) ↦ record {
          attempt = attempt;
          begun = omega arith;
          bounded = omega arith;
          answered = answered;
          found = found;
          before = λ k h l. absurd (omega arith);
        }
        | inr (blank, more) ↦
            let live : cancelled attempt ≡ false = ground arith in
            let rest : hydrate_from left (attempt + 1) answers cancelled ≡ some ms = ground arith in
            let r = hydrate_from-IsFirstAnswer left (attempt + 1) ms rest in
            record {
              attempt = r.attempt;
              begun = omega (arith, r.begun);
              bounded = omega (arith, r.bounded);
              answered = r.answered;
              found = r.found;
              before = λ k h l. elim (Bool-cases (k == attempt)) [
                | inl here ↦ let same : k ≡ attempt = ground arith in rw same (blank, live)
                | inr later ↦ r.before k (ground arith) l
              ];
            }
      ]

  -- If hydrateBySlug gives markets, they are the answer of one of at most retries + 1 attempts, and
  -- every attempt before it gave an empty answer and was waited out.
  pub hydrate_by_slug-IsFirstAnswer :
      (retries : ℕ) (ms : List (GammaMarket D T))
      → hydrate_by_slug retries answers cancelled ≡ some ms
      → IsFirstAnswer 0 retries ms
  unfolding hydrate_by_slug
  hydrate_by_slug-IsFirstAnswer retries ms e =
      let same : 0 + retries ≡ retries = omega arith in
      subst (λ n. IsFirstAnswer 0 n ms) same (hydrate_from-IsFirstAnswer retries 0 ms e)
