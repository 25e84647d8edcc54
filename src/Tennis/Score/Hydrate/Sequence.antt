-- ===== src/Tennis/Score/Hydrate/Sequence.antt =====
-- tennis/tennis/score.go: `MatchFromScore` replays every sequence of tokens that the validator takes,
-- except for level games above those of the tiebreak.
use mathlib.Core.List.{get_last?, append_assoc, append-nil}
use calculated_tennis.Base.{
  ℕ, ◌+◌, ◌≤◌, ◌<◌, ◌≡◌, refl, true, false, some, List, [], ◌∷◌, ◌++◌, map, ◌⊎◌, inl, inr, ltb, leb,
  if◌then◌else◌, ok, err, >>=-eq-ok, arith, ap, ◌∙◌, sym, Bool-cases, subst, All,
}
use calculated_tennis.Tennis.State.{
  Player, A, B, Tally, get, increment, zero_tally, MatchFormat, SetResult, Match, regular,
  new_match,
}
use calculated_tennis.Tennis.Score.{score_match_complete, SetScore, tiebreak_points}
use calculated_tennis.Tennis.Score.Validate.{
  SetClass, in_progress, completed, validate_game_totals, classify_set, validate_from, advance_sets,
  is_won, validate_score_sequence,
}
use calculated_tennis.Tennis.Score.Hydrate.{
  Replay, games_target, hydrate_set, hydrate_sets, assert_in_progress_set, check_token,
  is_completed, finish, with_result, match_from_sets,
}
use calculated_tennis.Tennis.Score.Hydrate.Steps.{IsStandard, InGames, HasSet}
use calculated_tennis.Tennis.Score.Hydrate.SetLoop.{get_last?-append}
use calculated_tennis.Tennis.Score.Hydrate.Tokens.{
  HasFuel, Shows, completed-ahead, hydrate-HasSet, hydrate-Shows,
}

abbrev pub as_result : SetScore → SetResult
as_result s = record { games_a = s.games_a; games_b = s.games_b }

-- The sets won after completed tokens.
abbrev pub tally_after : Tally → List SetScore → Tally
tally_after won [] = won
tally_after won (s ∷ ss) = tally_after (increment won (if ltb s.games_a s.games_b then B else A)) ss

-- The match has the tokens as completed sets, and a new set under way.
abbrev pub IsComplete : List SetResult → List SetScore → Match → Type 0
IsComplete cs sets m =
    (m.completed_sets ≡ cs ++ map as_result sets)
    × (m.current.games ≡ zero_tally)
    × (m.current.phase ≡ regular)

-- The match has the tokens but the last as completed sets, and shows the last.
abbrev pub IsUnderWay : MatchFormat → List SetResult → List SetScore → Match → Type 0
IsUnderWay f cs sets m =
    (before : List SetScore) × (last : SetScore) × (sets ≡ before ++ last ∷ [])
    × (m.completed_sets ≡ cs ++ map as_result before)
    × (m.current.games ≡ games_target last)
    × (assert_in_progress_set m last f ≡ ok tt)

-- A live match that the tokens describe, or the error that they end the match.
abbrev pub Replays : MatchFormat → List SetResult → Tally → List SetScore → Replay → Type 0
Replays f cs won sets r =
    ((m : Match) × (r ≡ some (ok m))
      × (m.done ≡ false)
      × (m.format ≡ f)
      × (IsComplete cs sets m ⊎ IsUnderWay f cs sets m))
    ⊎ ((r ≡ some (err score_match_complete)) × (is_won f (tally_after won sets) ≡ true))

-- The points of a token are within the fuel, and its games are not level above the tiebreak's.
pub record IsReplayable (f : MatchFormat) (fuel : ℕ) (s : SetScore) : Type 0 where
  pub within : s.games_a ≡ s.games_b → s.games_a ≤ f.tiebreak_at_games_each
  pub enough : (tiebreak_points s).a + (tiebreak_points s).b < fuel

module _ (f : MatchFormat) (fuel : ℕ) where
  token_step :
      (m m' : Match) (won won' : Tally) (s : SetScore) (rest : List SetScore) (c : SetClass)
      → classify_set s f won ≡ ok c
      → hydrate_set fuel m s f (is_completed c) ≡ some (ok m')
      → check_token m' s f won rest c ≡ ok won'
      → hydrate_sets fuel f m won (s ∷ rest) ≡ hydrate_sets fuel f m' won' rest
  unfolding hydrate_sets
  token_step m m' won won' s rest c e1 e2 e3 = rw (e1) (rw e2 (rw e3))

  check-HasSet :
      (cs : List SetResult) (won : Tally) (s : SetScore) (w : Player) (m : Match)
      (rest : List SetScore)
      → (if ltb s.games_a s.games_b then B else A) ≡ w
      → HasSet f cs won (games_target s) w m
      → check_token m s f won rest (completed w) ≡ ok (increment won w)
  check-HasSet cs won s w m rest e r =
      let last : get_last? m.completed_sets ≡ some (as_result s) =
        ap get_last? r.completed ∙ get_last?-append cs (as_result s) in
      ground arith

  hydrate_end : (m : Match) (won : Tally) → hydrate_sets fuel f m won [] ≡ finish m
  unfolding hydrate_sets
  hydrate_end m won = refl

  -- After the last token, completed, the match is over or another set begins.
  finish-HasSet :
      (cs : List SetResult) (won : Tally) (s : SetScore) (w : Player) (m : Match)
      → (if ltb s.games_a s.games_b then B else A) ≡ w
      → HasSet f cs won (games_target s) w m
      → Replays f cs won (s ∷ []) (finish m)
  finish-HasSet cs won s w m e r = elim (Bool-cases m.done) [
    | inl over ↦ inr (rw over, won_by w e (sym r.over ∙ over))
    | inr live ↦ inl (m, rw live, live, r.same, inl (r.completed, r.games live, r.phase live))
  ]
    where
      won_by :
          (p : Player)
          → (if ltb s.games_a s.games_b then B else A) ≡ p
          → leb f.sets_to_win (get (increment won p) p) ≡ true
          → is_won f (tally_after won (s ∷ [])) ≡ true
      won_by A q h = ground arith
      won_by B q h = ground arith

  finish-Shows :
      (cs : List SetResult) (won : Tally) (s : SetScore) (m : Match)
      → Shows f cs won s m
      → Replays f cs won (s ∷ []) (finish m)
  finish-Shows cs won s m r = inl (
    m,
    rw r.live,
    r.live,
    r.same,
    inr ([], s, refl, r.completed ∙ sym (append-nil cs), r.games, r.asserted),
  )

  -- The tokens after one that completes a set.
  prepend :
      (cs : List SetResult) (won : Tally) (s : SetScore) (rest : List SetScore) (r : Replay)
      → Replays f
          (cs ++ as_result s ∷ [])
          (increment won (if ltb s.games_a s.games_b then B else A))
          rest
          r
      → Replays f cs won (s ∷ rest) r
  prepend cs won s rest r (inr (e, h)) = inr (e, h)
  prepend cs won s rest r (inl (m, e, live, same, inl (c, g, p))) =
      inl (m, e, live, same, inl (c ∙ append_assoc cs _ _, g, p))
  prepend cs won s rest r (inl (m, e, live, same, inr (before, last, q, c, g, a))) =
      inl (m, e, live, same, inr (s ∷ before, last, ap (◌∷◌ s) q, c ∙ append_assoc cs _ _, g, a))

  module _ (v : IsStandard f) (h : HasFuel f fuel) where
    last_token :
        (cs : List SetResult) (won : Tally) (s : SetScore) (m : Match)
        → validate_from f won (s ∷ []) ≡ ok tt
        → IsReplayable f fuel s
        → InGames f cs won zero_tally m
        → Replays f cs won (s ∷ []) (hydrate_sets fuel f m won (s ∷ []))
    unfolding validate_from
    last_token cs won s m valid b i =
        let (_, totals, rest) = >>=-eq-ok (validate_game_totals s f) _ valid in
        let (c, e, _) = >>=-eq-ok (classify_set s f won) _ rest in by_class totals c e
      where
        by_class :
            validate_game_totals s f ≡ ok tt
            → (c : SetClass) → classify_set s f won ≡ ok c
            → Replays f cs won (s ∷ []) (hydrate_sets fuel f m won (s ∷ []))
        by_class totals (completed w) e =
            let (m', q, r) = hydrate-HasSet f v won s totals cs fuel h m i w e in
            let a = completed-ahead f v won s totals w e in
            subst (Replays f cs won (s ∷ []))
              (sym (
                token_step m m' won _ s [] (completed w) e q (check-HasSet cs won s w m' [] a r)
                ∙ hydrate_end m' _))
              (finish-HasSet cs won s w m' a r)
        by_class totals in_progress e =
            let (m', q, r) = hydrate-Shows f v won s totals cs fuel h m i e b.within b.enough in
            subst (Replays f cs won (s ∷ []))
              (sym
                (token_step m m' won won s [] in_progress e q (rw r.asserted) ∙ hydrate_end m' won))
              (finish-Shows cs won s m' r)

    -- A token before the last is completed and does not end the match.
    advance-completed :
        (won won' : Tally) (c : SetClass)
        → advance_sets f won c ≡ ok won'
        → (w : Player) × (c ≡ completed w) × (won' ≡ increment won w) × (is_won f won' ≡ false)
    advance-completed won won' in_progress e = cc
    advance-completed won won' (completed w) e = (w, refl, ground arith, ground arith)

    HasSet-InGames :
        (cs : List SetResult) (won g : Tally) (w : Player) (m : Match)
        → HasSet f cs won g w m
        → is_won f (increment won w) ≡ false
        → InGames f
            (cs ++ record { games_a = g.a; games_b = g.b } ∷ [])
            (increment won w)
            zero_tally
            m
    HasSet-InGames cs won g w m r e =
        let live = live w r.over e in
        record {
          same = r.same;
          live = live;
          completed = r.completed;
          sets = r.sets;
          phase = r.phase live;
          games = r.games live;
        }
      where
        live :
            (p : Player)
            → m.done ≡ leb f.sets_to_win (get (increment won p) p)
            → is_won f (increment won p) ≡ false
            → m.done ≡ false
        live A o q = ground arith
        live B o q = ground arith

    replay_tokens :
        (cs : List SetResult) (won : Tally) (s : SetScore) (rest : List SetScore) (m : Match)
        → validate_from f won (s ∷ rest) ≡ ok tt
        → All (IsReplayable f fuel) (s ∷ rest)
        → InGames f cs won zero_tally m
        → Replays f cs won (s ∷ rest) (hydrate_sets fuel f m won (s ∷ rest))
    unfolding validate_from
    replay_tokens cs won s [] m valid b i = last_token cs won s m valid b.0 i
    replay_tokens cs won s (t ∷ rest) m valid b i =
        let (_, totals, e1) = >>=-eq-ok (validate_game_totals s f) _ valid in
        let (c, e, e2) = >>=-eq-ok (classify_set s f won) _ e1 in
        let (won', e3, tail) = >>=-eq-ok (advance_sets f won c) _ e2 in
        let (w, q, o, undecided) = advance-completed won won' c e3 in
        let e' = e ∙ ap ok q in
        let a = completed-ahead f v won s totals w e' in
        let (m', step, r) = hydrate-HasSet f v won s totals cs fuel h m i w e' in
        let i' =
          HasSet-InGames cs won (games_target s) w m' r (ap (is_won f) (sym o) ∙ undecided) in
        let more =
          replay_tokens (cs ++ as_result s ∷ []) (increment won w) t rest m'
            (subst (λ x. validate_from f x (t ∷ rest) ≡ ok tt) o tail) b.1 i' in
        subst (Replays f cs won (s ∷ (t ∷ rest)))
          (sym (
            token_step m m' won _ s (t ∷ rest) (completed w) e' step
              (check-HasSet cs won s w m' (t ∷ rest) a r)))
          (prepend cs won s (t ∷ rest) _ (
            subst
              (λ p.
                Replays f (cs ++ as_result s ∷ []) (increment won p) (t ∷ rest)
                  (hydrate_sets fuel f m' (increment won w) (t ∷ rest)))
              (sym a) more))

    -- In a format in the usual proportions, with fuel above the points of a tiebreak and of every
    -- token: MatchFromScore on a sequence that the validator takes, with no level games above those
    -- of the tiebreak, gives a live match that has the tokens as completed sets and no games after
    -- them, or all but the last as completed sets and the games and points of the last; or else the
    -- tokens win the match and it says so.
    pub match_from_sets-Replays :
        (p : Player) (sets : List SetScore)
        → validate_score_sequence f sets ≡ ok tt
        → All (IsReplayable f fuel) sets
        → Replays f [] zero_tally sets (match_from_sets fuel f p sets)
    unfolding match_from_sets validate_score_sequence new_match
    match_from_sets-Replays p [] valid b = ground arith
    match_from_sets-Replays p (s ∷ rest) valid b =
        let from : validate_from f zero_tally (s ∷ rest) ≡ ok tt = ground arith in
        subst
          (λ r.
            Replays f [] zero_tally (s ∷ rest)
              (with_result r (λ _. hydrate_sets fuel f (new_match p f) zero_tally (s ∷ rest))))
          (sym valid)
          (replay_tokens [] zero_tally s rest (new_match p f) from b (record {
            same = refl;
            live = refl;
            completed = refl;
            sets = refl;
            phase = refl;
            games = refl;
          }))
