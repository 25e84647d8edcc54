-- ===== src/Tennis/Simulation/Play.antt =====
-- tennis/tennis/simulate.go, `applySimulatedPoint`: the matches that a sequence of games and points
-- leads to.
use calculated_tennis.Base.{
  ℕ, ◌+◌, ◌<◌, ◌*◌, ◌≡◌, refl, false, arith, List, [], ◌∷◌, ◌∙◌, length, subst, ok, ap, sym,
  Bool-cases, inl, inr,
}
use calculated_tennis.Tennis.State.{
  Player, A, B, opponent, Tally, get, MatchFormat, Match, new_match, SetResult,
}
use calculated_tennis.Tennis.Rules.{complete_set, win_game, win_tiebreak_point}
use calculated_tennis.Tennis.Rules.Invariant.{IsPlayable, Inv, new_match-Inv, sets_of}
use calculated_tennis.Tennis.Rules.Preservation.{win_game-Inv, win_tiebreak_point-Inv}
use calculated_tennis.Tennis.Rules.Rotation.{
  Rotates, new_match-Rotates, win_game-Rotates, win_tiebreak_point-Rotates,
}
use calculated_tennis.Tennis.Simulation.{apply_simulated_point, applied}

-- The match after the games and points that these sides win.
unfoldable pub play : Match → List Player → Match
play m [] = m
play m (w ∷ ws) = play (apply_simulated_point m w).0 ws

apply-format : (m : Match) (w : Player) → (apply_simulated_point m w).0.format ≡ m.format
unfolding apply_simulated_point win_game win_tiebreak_point complete_set
apply-format m w = ground arith

pub apply-Inv :
    (m : Match) (w : Player) → IsPlayable m.format → Inv m → Inv (apply_simulated_point m w).0
unfolding apply_simulated_point
apply-Inv m w v i = ground (arith, win_game-Inv m w v i, win_tiebreak_point-Inv m w v i)

apply-Rotates : (m : Match) (w : Player) → Inv m → Rotates m → Rotates (apply_simulated_point m w).0
unfolding apply_simulated_point
apply-Rotates m w i r = ground (arith, win_game-Rotates m w r, win_tiebreak_point-Rotates m w i r)

-- A point of a live match is never refused.
pub apply_live :
    (m : Match) (w : Player)
    → m.done ≡ false
    → applied (apply_simulated_point m w) ≡ ok (apply_simulated_point m w).0
unfolding apply_simulated_point win_game win_tiebreak_point
apply_live m w live = ground arith

pub apply-IsPlayable :
    (m : Match) (w : Player) → IsPlayable m.format → IsPlayable (apply_simulated_point m w).0.format
apply-IsPlayable m w v = rw (apply-format m w) v

pub play-format : (m : Match) (ws : List Player) → (play m ws).format ≡ m.format
unfolding play
play-format m [] = refl
play-format m (w ∷ ws) = play-format (apply_simulated_point m w).0 ws ∙ apply-format m w

pub play-Inv : (m : Match) (ws : List Player) → IsPlayable m.format → Inv m → Inv (play m ws)
unfolding play
play-Inv m [] v i = i
play-Inv m (w ∷ ws) v i =
    play-Inv (apply_simulated_point m w).0 ws (apply-IsPlayable m w v) (apply-Inv m w v i)

play-Rotates :
    (m : Match) (ws : List Player) → IsPlayable m.format → Inv m → Rotates m → Rotates (play m ws)
unfolding play
play-Rotates m [] v i r = r
play-Rotates m (w ∷ ws) v i r =
    play-Rotates (apply_simulated_point m w).0 ws (apply-IsPlayable m w v) (apply-Inv m w v i)
      (apply-Rotates m w i r)

-- In a format that can be played, a new match satisfies the match invariant after any sequence of
-- games and points: legal and correctly counted sets, an undecided match exactly while neither side
-- has the sets to win, a winner with exactly those sets, games and tiebreak points that do not
-- already win, and the tiebreak's count and server.
pub play-new-Inv :
    (p : Player) (f : MatchFormat) (ws : List Player) → IsPlayable f → Inv (play (new_match p f) ws)
unfolding new_match
play-new-Inv p f ws v = play-Inv (new_match p f) ws v (new_match-Inv p f v)

-- In a format that can be played, after any sequence of games and points the server of the next
-- game of an unfinished match, or the first server of its running tiebreak, is the first server of
-- the match after one change of service for each game played, a tiebreak counting as one game.
pub play-new-Rotates :
    (p : Player) (f : MatchFormat) (ws : List Player)
    → IsPlayable f
    → Rotates (play (new_match p f) ws)
unfolding new_match
play-new-Rotates p f ws v =
    play-Rotates (new_match p f) ws v (new_match-Inv p f v) (new_match-Rotates p f)

length-sets_of : (rs : List SetResult) → (sets_of rs).a + (sets_of rs).b ≡ length rs
unfolding sets_of
length-sets_of [] = refl
length-sets_of (r ∷ rs) = ground (arith, length-sets_of rs)

both_sides :
    (t : Tally) (n : ℕ) (w : Player) → get t w ≡ n → get t (opponent w) < n → t.a + t.b < 2 * n
unfolding opponent
both_sides t n A e h = omega arith
both_sides t n B e h = omega arith

Inv-sets : (q : Match) → Inv q → length q.completed_sets < 2 * q.format.sets_to_win
Inv-sets q i = elim (Bool-cases q.done) [
  | inl over ↦
      let (w, _, e, h) = i.decided over in
      omega (arith, counted, both_sides q.sets_won q.format.sets_to_win w e h)
  | inr live ↦ omega (arith, counted, i.undecided live)
]
  where
    counted : length q.completed_sets ≡ q.sets_won.a + q.sets_won.b
    counted = sym (length-sets_of q.completed_sets) ∙ ap (λ t. t.a + t.b) i.counted

-- In a format that can be played, a match has fewer than twice the sets to win completed, whatever
-- games and points are fed to it.
pub play-completed_sets :
    (p : Player) (f : MatchFormat) (ws : List Player)
    → IsPlayable f
    → length (play (new_match p f) ws).completed_sets < 2 * f.sets_to_win
unfolding new_match
play-completed_sets p f ws v =
    subst (λ g. length (play (new_match p f) ws).completed_sets < 2 * g.sets_to_win)
      (play-format (new_match p f) ws) (Inv-sets _ (play-new-Inv p f ws v))
