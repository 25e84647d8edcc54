-- ===== src/Tennis/Rules/Rotation.antt =====
-- Who serves, tennis/tennis/rules.go: the service changes after every game of the match, a tiebreak
-- counting as one game, and in a tiebreak after the first point and then after every second one.
use calculated_tennis.Base.{
  ℕ, zero, suc, ◌+◌, ◌/◌, ◌%◌, ◌≡◌, refl, false, List, [], ◌∷◌, ◌++◌, arith, ap, ◌∙◌, if◌then◌else◌,
  ◌==◌,
}
use calculated_tennis.Tennis.State.{
  Player, A, B, opponent, opponent-opponent, MatchFormat, regular, tiebreak, SetState, SetResult,
  Match, new_match,
}
use calculated_tennis.Tennis.Rules.{
  enter_tiebreak, complete_set, win_game, win_tiebreak_point, server_for_tb_point,
}
use calculated_tennis.Tennis.Rules.Invariant.{Inv}
use calculated_tennis.Tennis.Rules.Cases.{
  with_game, with_tiebreak_game, win_game_cases, win_tiebreak_point_cases,
}

-- The side that serves after `n` changes.
unfoldable pub alternate : ℕ → Player → Player
alternate zero p = p
alternate (suc n) p = opponent (alternate n p)

alternate_parity : (n : ℕ) (p : Player) → alternate n p ≡ (if n % 2 == 0 then p else opponent p)
unfolding alternate
alternate_parity zero p = refl
alternate_parity (suc zero) p = refl
alternate_parity (suc (suc n)) p = rw opponent-opponent (alternate_parity n p ∙ ground arith)

-- The server of tiebreak point n + 1 is the tiebreak's first server after (n + 1) / 2 changes of
-- service.
pub server_for_tb_point-alternate :
    (n : ℕ) (first : Player) → server_for_tb_point n first ≡ alternate ((n + 1) / 2) first
unfolding server_for_tb_point
server_for_tb_point-alternate n first = rw (alternate_parity ((n + 1) / 2) first) (ground arith)

unfoldable pub games_played : List SetResult → ℕ
games_played [] = 0
games_played (r ∷ rs) = r.games_a + r.games_b + games_played rs

games_played-append :
    (rs : List SetResult) (r : SetResult)
    → games_played (rs ++ r ∷ []) ≡ games_played rs + (r.games_a + r.games_b)
unfolding games_played
games_played-append [] r = omega arith
games_played-append (q ∷ rs) r = omega (arith, games_played-append rs r)

-- The games of the match that are over.
abbrev pub total_games : Match → ℕ
total_games m = games_played m.completed_sets + (m.current.games.a + m.current.games.b)

pub record Rotates (m : Match) : Type 0 where
  pub games :
      m.done ≡ false
      → m.current.phase ≡ regular
      → m.server ≡ alternate (total_games m) m.first_server
  pub tiebreaks :
      m.done ≡ false
      → m.current.phase ≡ tiebreak
      → m.current.first_server_of_tiebreak ≡ alternate (total_games m) m.first_server

pub new_match-Rotates : (p : Player) (f : MatchFormat) → Rotates (new_match p f)
unfolding new_match games_played alternate
new_match-Rotates p f = record { games = λ _ _. refl; tiebreaks = λ _ e. cc }

next_server : (n k : ℕ) (s p : Player) → s ≡ alternate n p → k ≡ suc n → opponent s ≡ alternate k p
unfolding alternate
next_server n k s p e q = rw q (ap opponent e)

-- A set that ends with the service passed on.
complete_set-Rotates :
    (m : Match) (c : SetState) (s w : Player)
    → opponent s
      ≡ alternate (games_played m.completed_sets + (c.games.a + c.games.b)) m.first_server
    → m.done ≡ false
    → Rotates (complete_set (record m { current = c; server = s }) w)
unfolding complete_set
complete_set-Rotates m c s w e live = record {
  games = λ d p. ground (
    arith,
    games_played-append m.completed_sets (record { games_a = c.games.a; games_b = c.games.b }),
  );
  tiebreaks = λ d p. ground arith;
}

-- The service alternates over the games of the whole match, and a tiebreak is begun by the side
-- whose game it would have been.
pub win_game-Rotates : (m : Match) (w : Player) → Rotates m → Rotates (win_game m w).0
unfolding enter_tiebreak
win_game-Rotates m w r =
    win_game_cases (λ q. Rotates q.0) m w (λ _. r) (λ _ _. r)
      (λ live reg lv. record { games = λ _ e. cc; tiebreaks = λ _ _. passed w live reg })
      (λ live reg n won. complete_set-Rotates m _ _ w (passed w live reg) live)
      (λ live reg n more. record { games = λ _ _. passed w live reg; tiebreaks = λ _ e. cc })
  where
    passed :
        (p : Player)
        → m.done ≡ false
        → m.current.phase ≡ regular
        → opponent m.server ≡ alternate (total_games (with_game m p)) m.first_server
    passed A live reg =
        next_server (total_games m) _ m.server m.first_server (r.games live reg) (omega arith)
    passed B live reg =
        next_server (total_games m) _ m.server m.first_server (r.games live reg) (omega arith)

pub win_tiebreak_point-Rotates :
    (m : Match) (w : Player) → Inv m → Rotates m → Rotates (win_tiebreak_point m w).0
unfolding opponent
win_tiebreak_point-Rotates m w i r =
    win_tiebreak_point_cases (λ q. Rotates q.0) m w (λ _. r) (λ _ _. r)
      (λ live p won. complete_set-Rotates m _ _ w (passed w live p) live)
      (λ live p more. record { games = λ _ e. cc; tiebreaks = λ d q. r.tiebreaks live p })
  where
    passed :
        (p : Player)
        → m.done ≡ false
        → m.current.phase ≡ tiebreak
        → opponent m.current.first_server_of_tiebreak
          ≡ alternate (total_games (with_tiebreak_game m p)) m.first_server
    passed A live q =
        next_server (total_games m) _ m.current.first_server_of_tiebreak m.first_server
          (r.tiebreaks live q) (ground (arith, (i.undecided live).3.level q))
    passed B live q =
        next_server (total_games m) _ m.current.first_server_of_tiebreak m.first_server
          (r.tiebreaks live q) (ground (arith, (i.undecided live).3.level q))
