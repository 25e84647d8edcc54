-- ===== src/Tennis/Simulation/Runs.antt =====
-- tennis/tennis/simulate.go: what the simulations return.
use calculated_tennis.Base.{
  ℕ, zero, suc, ◌+◌, ◌≡◌, refl, true, false, Option, none, some, Result, ok, err, Float64, ℤ, pos,
  negsuc, arith, ap, Bool-cases, inl, inr,
}
use calculated_tennis.Tennis.State.{Player, A, B, Tally, increment, zero_tally, MatchFormat, Match}
use calculated_tennis.Tennis.Simulation.{
  rounds, validate_simulation_params, deref, SimulationError, Sim, and_then, of_result, run_once,
  simulate_runs, simulate, simulate_fresh, Rates, Rng, simulate_point, pure, with_rng,
}

pub and_then-eq-ok :
    {X Y : Type 0} (o : Option (Result SimulationError (X × ℕ))) (f : X → Sim Y) {y : Y} {u : ℕ}
    → and_then o f ≡ some (ok (y, u))
    → (x : X) × (v : ℕ) × (o ≡ some (ok (x, v))) × (f x v ≡ some (ok (y, u)))
and_then-eq-ok none f h = cc
and_then-eq-ok (some (err e)) f h = cc
and_then-eq-ok (some (ok (x, v))) f h = (x, v, refl, h)

pub of_result-eq-ok :
    {X : Type 0} (r : Result SimulationError X) (t : ℕ) {x : X} {u : ℕ}
    → of_result r t ≡ some (ok (x, u))
    → (r ≡ ok x) × (t ≡ u)
of_result-eq-ok (ok x) t h = (ground arith, ground arith)
of_result-eq-ok (err e) t h = cc

pub deref-ok :
    (o : Option Player) (t : ℕ) {w : Player} {u : ℕ}
    → of_result (deref o) t ≡ some (ok (w, u))
    → o ≡ some w
deref-ok none t h = cc
deref-ok (some p) t h = ground arith

module _ (R : Float64) where
  open R use {F}

  counted : (t : Tally) (w : Player) → (increment t w).a + (increment t w).b ≡ suc (t.a + t.b)
  counted t A = omega arith
  counted t B = omega arith

  -- Every match that is simulated to its end is counted once.
  runs_count :
      (fuel : ℕ) (start : Sim Match) (rates : Rates R) (alpha : F) (rng : Rng R) (n : ℕ)
      (wins : Tally) (t u : ℕ) {r : Tally}
      → simulate_runs R fuel start rates alpha rng n wins t ≡ some (ok (r, u))
      → r.a + r.b ≡ n + (wins.a + wins.b)
  unfolding simulate_runs
  runs_count fuel start rates alpha rng zero wins t u h = ground arith
  runs_count fuel start rates alpha rng (suc n) wins t u h =
      let (m, t1, e1, h1) = and_then-eq-ok (start t) _ h in
      let (w, t2, e2, h2) =
        and_then-eq-ok (with_rng R rng (run_once R fuel m rates alpha) t1) _ h1 in
      omega
        (arith, counted wins w, runs_count fuel start rates alpha rng n (increment wins w) t2 u h2)

  pub run_once_over :
      (fuel : ℕ) (m : Match) (rates : Rates R) (alpha : F) (draws : ℕ → F) (t : ℕ)
      → m.done ≡ true
      → run_once R fuel m rates alpha draws t ≡ of_result (deref m.winner) t
  unfolding run_once
  run_once_over zero m rates alpha draws t over = rw over
  run_once_over (suc fuel) m rates alpha draws t over = rw over

  pub run_once_live :
      (fuel : ℕ) (m : Match) (rates : Rates R) (alpha : F) (draws : ℕ → F) (t : ℕ)
      → m.done ≡ false
      → run_once R (suc fuel) m rates alpha draws t
        ≡ and_then
            (simulate_point R m rates alpha draws t)
            (λ m'. run_once R fuel m' rates alpha draws)
  unfolding run_once
  run_once_live fuel m rates alpha draws t live = rw live

  pub run_once_unfinished :
      (m : Match) (rates : Rates R) (alpha : F) (draws : ℕ → F) (t : ℕ)
      → m.done ≡ false
      → run_once R zero m rates alpha draws t ≡ none
  unfolding run_once
  run_once_unfinished m rates alpha draws t live = rw live

  -- The loop over valid arguments counts the matches that were asked for.
  validated_count :
      (fuel : ℕ) (start : Sim Match) (rates : Rates R) (alpha : F) (n : ℤ) (rng : Rng R) (t u : ℕ)
      {r : Tally}
      → and_then
          (of_result (validate_simulation_params R rates alpha n rng) t)
          (λ _. simulate_runs R fuel start rates alpha rng (rounds R n) zero_tally)
        ≡ some (ok (r, u))
      → n ≡ pos (r.a + r.b)
  unfolding validate_simulation_params
  validated_count fuel start rates alpha (negsuc k) rng t u h = cc
  validated_count fuel start rates alpha (pos n) rng t u {r} h =
      let (_, v, _, h1) =
        and_then-eq-ok (of_result (validate_simulation_params R rates alpha (pos n) rng) t) _ h in
      ap pos (omega (arith, runs_count fuel start rates alpha rng n zero_tally v u {r = r} h1))

  -- If Simulate succeeds, the number of simulations was not negative and is the sum of both sides'
  -- wins.
  pub simulate-count :
      (fuel : ℕ) (initial : Option Match) (rates : Rates R) (alpha : F) (n : ℤ) (rng : Rng R)
      (t u : ℕ) {r : Tally}
      → simulate R fuel initial rates alpha n rng t ≡ some (ok (r, u))
      → n ≡ pos (r.a + r.b)
  unfolding simulate
  simulate-count fuel none rates alpha n rng t u h = cc
  simulate-count fuel (some m) rates alpha n rng t u {r} h = elim (Bool-cases m.done) [
    | inl over ↦ ground arith
    | inr live ↦
        validated_count fuel (pure (record m { done = false })) rates alpha n rng t u {r = r}
          (rw live at h)
  ]

  -- If SimulateFresh succeeds, the number of simulations was not negative and is the sum of both
  -- sides' wins.
  pub simulate_fresh-count :
      (fuel : ℕ) (f : MatchFormat) (rates : Rates R) (alpha : F) (n : ℤ) (rng : Rng R) (t u : ℕ)
      {r : Tally}
      → simulate_fresh R fuel f rates alpha n rng t ≡ some (ok (r, u))
      → n ≡ pos (r.a + r.b)
  unfolding simulate_fresh
  simulate_fresh-count fuel f rates alpha n rng t u {r} h =
      validated_count fuel _ rates alpha n rng t u {r = r} h
