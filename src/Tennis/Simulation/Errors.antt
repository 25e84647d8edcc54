-- ===== src/Tennis/Simulation/Errors.antt =====
-- tennis/tennis/simulate.go: after a valid start nothing in the loop can fail.
use calculated_tennis.Base.{
  ℕ, zero, suc, ◌+◌, ◌≡◌, refl, true, false, Option, none, some, Result, ok, err, Float64, ℤ, pos,
  negsuc, arith, Bool-cases, inl, inr, ◌⊎◌, ◌∙◌, sym,
}
use calculated_tennis.Tennis.State.{Player, A, B, opponent, Tally, increment, zero_tally, Match}
use calculated_tennis.Tennis.Probability.{outside_unit, game_win_prob}
use calculated_tennis.Tennis.Rules.Invariant.{IsPlayable, Inv}
use calculated_tennis.Tennis.Simulation.{
  SimulationError, Sim, and_then, of_result, deref, apply_simulated_point, Rates, Rng, rates_of,
  validate_simulation_params, server_win_prob, draw_point, simulate_point, run_once, simulate_runs,
  simulate, pure, point_winner, rounds,
}
use calculated_tennis.Tennis.Simulation.Play.{apply-Inv, apply-IsPlayable, apply_live}
use calculated_tennis.Tennis.Simulation.Runs.{run_once_over, run_once_live, run_once_unfinished}

and_then-eq-err :
    {X Y : Type 0} (o : Option (Result SimulationError (X × ℕ))) (f : X → Sim Y)
    {e : SimulationError}
    → and_then o f ≡ some (err e)
    → (o ≡ some (err e)) ⊎ ((x : X) × (v : ℕ) × (o ≡ some (ok (x, v))) × (f x v ≡ some (err e)))
and_then-eq-err none f h = cc
and_then-eq-err (some (err e)) f h = inl (ground arith)
and_then-eq-err (some (ok (x, v))) f h = inr (x, v, refl, h)

module _ (R : Float64) where
  open R use {F}

  record IsValid (rates : Rates R) (alpha : F) : Type 0 where
    positive : R.le alpha R.zero ≡ false
    holds : (p : Player) → outside_unit R (rates_of R rates p).hold_pct ≡ false
    breaks : (p : Player) → outside_unit R (rates_of R rates p).break_pct ≡ false

  validated :
      (rates : Rates R) (alpha : F) (n : ℕ) (draws : ℕ → F)
      → validate_simulation_params R rates alpha (pos (suc n)) (some draws) ≡ ok tt
      → IsValid rates alpha
  unfolding validate_simulation_params
  validated rates alpha n draws h = record {
    positive = ground arith;
    holds = of_holds;
    breaks = of_breaks;
  }
    where
      of_holds : (p : Player) → outside_unit R (rates_of R rates p).hold_pct ≡ false
      of_holds A = ground arith
      of_holds B = ground arith

      of_breaks : (p : Player) → outside_unit R (rates_of R rates p).break_pct ≡ false
      of_breaks A = ground arith
      of_breaks B = ground arith

  valid_probability :
      (m : Match) (rates : Rates R) (alpha : F) (e : SimulationError)
      → IsValid rates alpha
      → ¬ (server_win_prob R m rates alpha ≡ err e)
  unfolding server_win_prob game_win_prob
  valid_probability m rates alpha e v h =
      ground (arith, v.positive, v.holds m.server, v.breaks (opponent m.server))

  point_succeeds :
      (r : Result SimulationError F) (m : Match) (draws : ℕ → F) (t : ℕ)
      → ((e : SimulationError) → ¬ (r ≡ err e))
      → m.done ≡ false
      → (w : Player) × (and_then (of_result r t) (draw_point R m draws)
          ≡ some (ok ((apply_simulated_point m w).0, t + 1)))
  point_succeeds (err e) m draws t h live = absurd (h e refl)
  point_succeeds (ok p) m draws t h live =
      let w = point_winner R m p (draws t) in (w, rw (apply_live m w live))

  module _ (rates : Rates R) (alpha : F) (draws : ℕ → F) (v : IsValid rates alpha)
      (e : SimulationError) where
    simulate_point_succeeds :
        (m : Match) (t : ℕ)
        → m.done ≡ false
        → (w : Player) × (simulate_point R m rates alpha draws t
            ≡ some (ok ((apply_simulated_point m w).0, t + 1)))
    unfolding simulate_point
    simulate_point_succeeds m t live =
        point_succeeds (server_win_prob R m rates alpha) m draws t
          (λ x. valid_probability m rates alpha x v) live

    over-succeeds :
        (m : Match) (t : ℕ)
        → Inv m
        → m.done ≡ true
        → ¬ (of_result (deref m.winner) t ≡ some (err e))
    over-succeeds m t i over h = let (w, won, _, _) = i.decided over in cc

    run_once_succeeds :
        (fuel : ℕ) (m : Match) (t : ℕ)
        → IsPlayable m.format
        → Inv m
        → ¬ (run_once R fuel m rates alpha draws t ≡ some (err e))
    run_once_succeeds zero m t p i h = elim (Bool-cases m.done) [
      | inl over ↦
          over-succeeds m t i over (sym (run_once_over R zero m rates alpha draws t over) ∙ h)
      | inr live ↦ ground (arith, run_once_unfinished R m rates alpha draws t live)
    ]
    run_once_succeeds (suc fuel) m t p i h = elim (Bool-cases m.done) [
      | inl over ↦
          over-succeeds m t i over (sym (run_once_over R (suc fuel) m rates alpha draws t over) ∙ h)
      | inr live ↦
          let (w, q) = simulate_point_succeeds m t live in
          run_once_succeeds fuel (apply_simulated_point m w).0 (t + 1) (apply-IsPlayable m w p)
            (apply-Inv m w p i) (sym (run_once_live R fuel m rates alpha draws t live ∙ rw q) ∙ h)
    ]

    simulate_runs_succeed :
        (fuel : ℕ) (m : Match) (n : ℕ) (wins : Tally) (t : ℕ)
        → IsPlayable m.format
        → Inv m
        → ¬ (simulate_runs R fuel (pure m) rates alpha (some draws) n wins t ≡ some (err e))
    unfolding simulate_runs
    simulate_runs_succeed fuel m zero wins t p i h = cc
    simulate_runs_succeed fuel m (suc n) wins t p i h =
        elim (and_then-eq-err (run_once R fuel m rates alpha draws t) _ h) [
          | inl q ↦ run_once_succeeds fuel m t p i q
          | inr (w, u, _, rest) ↦ simulate_runs_succeed fuel m n (increment wins w) u p i rest
        ]

  validated_errors :
      (fuel : ℕ) (m : Match) (rates : Rates R) (alpha : F) (n : ℤ) (rng : Rng R) (t : ℕ)
      (e : SimulationError)
      → IsPlayable m.format
      → Inv m
      → validate_simulation_params R rates alpha n rng ≡ ok tt
      → ¬ (simulate_runs R fuel (pure m) rates alpha rng (rounds R n) zero_tally t ≡ some (err e))
  unfolding validate_simulation_params
  validated_errors fuel m rates alpha (negsuc k) rng t e p i valid h = cc
  validated_errors fuel m rates alpha (pos zero) rng t e p i valid h = unfold simulate_runs in cc
  validated_errors fuel m rates alpha (pos (suc n)) none t e p i valid h = ground arith
  validated_errors fuel m rates alpha (pos (suc n)) (some draws) t e p i valid h =
      simulate_runs_succeed rates alpha draws (validated rates alpha n draws valid) e fuel m (suc n)
        zero_tally t p i h

  simulate_live :
      (fuel : ℕ) (m : Match) (rates : Rates R) (alpha : F) (n : ℤ) (rng : Rng R) (t : ℕ)
      → m.done ≡ false
      → simulate R fuel (some m) rates alpha n rng t
        ≡ and_then
            (of_result (validate_simulation_params R rates alpha n rng) t)
            (λ _. simulate_runs R fuel (pure m) rates alpha rng (rounds R n) zero_tally)
  unfolding simulate
  simulate_live fuel m rates alpha n rng t live = rw live

  -- On a live match that satisfies the invariant, in a format that can be played, an error of
  -- Simulate is the one that the check of its arguments gives: no later step fails or panics.
  pub simulate-err :
      (fuel : ℕ) (m : Match) (rates : Rates R) (alpha : F) (n : ℤ) (rng : Rng R) (t : ℕ)
      (e : SimulationError)
      → IsPlayable m.format
      → Inv m
      → m.done ≡ false
      → simulate R fuel (some m) rates alpha n rng t ≡ some (err e)
      → validate_simulation_params R rates alpha n rng ≡ err e
  simulate-err fuel m rates alpha n rng t e p i live h =
      from_runs (validate_simulation_params R rates alpha n rng) refl
        (sym (simulate_live fuel m rates alpha n rng t live) ∙ h)
    where
      runs : Sim Tally
      runs = simulate_runs R fuel (pure m) rates alpha rng (rounds R n) zero_tally

      from_runs :
          (r : Result SimulationError (Unit {0}))
          → validate_simulation_params R rates alpha n rng ≡ r
          → and_then (of_result r t) (λ _. runs) ≡ some (err e)
          → r ≡ err e
      from_runs (ok tt) q k = absurd (validated_errors fuel m rates alpha n rng t e p i q k)
      from_runs (err x) q k = ground arith
