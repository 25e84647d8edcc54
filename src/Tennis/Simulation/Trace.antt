-- ===== src/Tennis/Simulation/Trace.antt =====
-- tennis/tennis/simulate.go: one simulated match follows the numbers that are drawn.
use calculated_tennis.Base.{
  ℕ, zero, suc, ◌+◌, ◌≡◌, refl, subst, sym, ◌∙◌, true, false, Option, none, some, Result, ok, err,
  Float64, arith, List, [], ◌∷◌, length, Bool-cases, inl, inr,
}
use calculated_tennis.Tennis.State.{Player, opponent, Match}
use calculated_tennis.Tennis.Rules.{MatchError}
use calculated_tennis.Tennis.Probability.{game_win_prob, RateError}
use calculated_tennis.Tennis.Simulation.{
  applied, lift_rates, server_win_prob, point_winner, of_result, deref, apply_simulated_point,
  run_once, rates_of, Rates, simulate_point,
}
use calculated_tennis.Tennis.Simulation.Play.{play}
use calculated_tennis.Tennis.Simulation.Runs.{
  and_then-eq-ok, of_result-eq-ok, deref-ok, run_once_over, run_once_live, run_once_unfinished,
}

module _ (R : Float64) (rates : Rates R) (alpha : R.F) (draws : ℕ → R.F) where
  -- The server's chance of the next game or point: from the server's hold and the other side's
  -- break percentage.
  abbrev pub IsChance : Match → R.F → Type 0
  IsChance m p =
      game_win_prob R (rates_of R rates m.server).hold_pct
        (rates_of R rates (opponent m.server)).break_pct alpha
      ≡ ok p

  -- From a match and the place of the next number: the winners of the games and points, and the
  -- match they lead to. The server wins if the number is below the chance, and else the other side.
  pub data Drawn : Match → ℕ → List Player → Match → Type 0 where
    stops : {m : Match} {t : ℕ} → Drawn m t [] m
    server_wins :
        {m m' n : Match} {t : ℕ} {ws : List Player} {p : R.F}
        → m.done ≡ false
        → IsChance m p
        → R.lt (draws t) p ≡ true
        → apply_simulated_point m m.server ≡ (m', none)
        → Drawn m' (suc t) ws n
        → Drawn m t (m.server ∷ ws) n
    receiver_wins :
        {m m' n : Match} {t : ℕ} {ws : List Player} {p : R.F}
        → m.done ≡ false
        → IsChance m p
        → R.lt (draws t) p ≡ false
        → apply_simulated_point m (opponent m.server) ≡ (m', none)
        → Drawn m' (suc t) ws n
        → Drawn m t (opponent m.server ∷ ws) n

  Drawn-play : {m n : Match} {t : ℕ} {ws : List Player} → Drawn m t ws n → play m ws ≡ n
  unfolding play
  Drawn-play stops = refl
  Drawn-play (server_wins live chance below step d) = rw step (Drawn-play d)
  Drawn-play (receiver_wins live chance above step d) = rw step (Drawn-play d)

  applied-ok : (r : Match × Option MatchError) (m : Match) → applied r ≡ ok m → r ≡ (m, none)
  applied-ok (q, none) m h = ground arith
  applied-ok (q, some e) m h = absurd (ground arith)

  lifted-ok : (r : Result RateError R.F) (p : R.F) → lift_rates r ≡ ok p → r ≡ ok p
  lifted-ok (ok q) p h = ground arith
  lifted-ok (err e) p h = absurd (ground arith)

  -- A round of the loop draws one number.
  simulate_point-ok :
      (m m' : Match) (t u : ℕ)
      → simulate_point R m rates alpha draws t ≡ some (ok (m', u))
      → (p : R.F) × IsChance m p
        × (u ≡ suc t)
        × (apply_simulated_point m (point_winner R m p (draws t)) ≡ (m', none))
  unfolding simulate_point server_win_prob
  simulate_point-ok m m' t u h =
      let (p, v, e, h1) = and_then-eq-ok (of_result (server_win_prob R m rates alpha) t) _ h in
      let (chance, same) = of_result-eq-ok (server_win_prob R m rates alpha) t e in
      let (step, next) =
        of_result-eq-ok (applied (apply_simulated_point m (point_winner R m p (draws v)))) (v + 1)
          h1 in
      (
        p,
        lifted-ok
            (game_win_prob R (rates_of R rates m.server).hold_pct
              (rates_of R rates (opponent m.server)).break_pct alpha)
            p chance,
        omega (arith, same, next),
        subst (λ k. apply_simulated_point m (point_winner R m p (draws k)) ≡ (m', none)) (sym same)
            (applied-ok _ m' step),
      )

  -- A round goes to the server or to the other side, by the number.
  simulate_point-Drawn :
      (m m' n : Match) (t u : ℕ) (ws : List Player)
      → m.done ≡ false
      → simulate_point R m rates alpha draws t ≡ some (ok (m', u))
      → Drawn m' u ws n
      → (w : Player) × Drawn m t (w ∷ ws) n
  simulate_point-Drawn m m' n t u ws live h d =
      let (p, chance, next, step) = simulate_point-ok m m' t u h in
      let rest = subst (λ k. Drawn m' k ws n) next d in
      elim (Bool-cases (R.lt (draws t) p)) [
        | inl below ↦ (m.server, server_wins live chance below (rw below at step) rest)
        | inr above ↦ (opponent m.server, receiver_wins live chance above (rw above at step) rest)
      ]

  -- A match from a place of the numbers to another, that its winner wins.
  pub record IsRun (m : Match) (t u : ℕ) (w : Player) : Type 0 where
    pub winners : List Player
    pub last : Match
    pub drawn : Drawn m t winners last
    pub over : last.done ≡ true
    pub won : last.winner ≡ some w
    pub numbers : u ≡ t + length winners
    pub played : play m winners ≡ last

  ended :
      (m : Match) (t u : ℕ) (w : Player)
      → m.done ≡ true
      → of_result (deref m.winner) t ≡ some (ok (w, u))
      → IsRun m t u w
  ended m t u w over h = record {
    winners = [];
    last = m;
    drawn = stops;
    over = over;
    won = deref-ok m.winner t h;
    numbers = omega (arith, (of_result-eq-ok (deref m.winner) t h).1);
    played = Drawn-play {t = t} stops;
  }

  -- If runOnce returns a winner, the match was played by the numbers from the first to be drawn on,
  -- one for each game or point while the match was not done: the server wins it if the number is
  -- below the chance that gameWinProb gives for the server's hold and the other side's break
  -- percentage, and else the other side does. The match that these winners lead to by the rules is
  -- done, has that winner, and as many numbers were drawn as there are games and points.
  pub run_once-IsRun :
      (fuel : ℕ) (m : Match) (t u : ℕ) (w : Player)
      → run_once R fuel m rates alpha draws t ≡ some (ok (w, u))
      → IsRun m t u w
  run_once-IsRun zero m t u w h = elim (Bool-cases m.done) [
    | inl over ↦ ended m t u w over (sym (run_once_over R zero m rates alpha draws t over) ∙ h)
    | inr live ↦ ground (arith, run_once_unfinished R m rates alpha draws t live)
  ]
  run_once-IsRun (suc fuel) m t u w h = elim (Bool-cases m.done) [
    | inl over ↦
        ended m t u w over (sym (run_once_over R (suc fuel) m rates alpha draws t over) ∙ h)
    | inr live ↦
        let (m', v, e, h1) =
          and_then-eq-ok (simulate_point R m rates alpha draws t) _
            (sym (run_once_live R fuel m rates alpha draws t live) ∙ h) in
        let (_, _, next, _) = simulate_point-ok m m' t v e in
        let r = run_once-IsRun fuel m' v u w h1 in
        let (p, d) = simulate_point-Drawn m m' r.last t v r.winners live e r.drawn in
        record {
          winners = p ∷ r.winners;
          last = r.last;
          drawn = d;
          over = r.over;
          won = r.won;
          numbers = omega (arith, r.numbers, next);
          played = Drawn-play d;
        }
  ]
