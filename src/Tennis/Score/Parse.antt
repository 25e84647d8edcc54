-- ===== src/Tennis/Score/Parse.antt =====
-- tennis/tennis/score.go, `ParseScore`: `strings.TrimSpace`, `strings.Fields`, the pattern
-- `^(\d+)-(\d+)(?:\((\d+)-(\d+)\))?$` and `strconv.Atoi`.
use calculated_tennis.Base.Texts.{is_space, trim_space}
use calculated_tennis.Base.{
  Text, between, ℕ, ◌+◌, ◌-◌, ◌*◌, ◌^◌, min, Bool, not, Option, none, some, List, [], ◌∷◌, ◌++◌,
  ◌==◌, if◌then◌else◌, Result, ok, err, ◌>>=◌, ◌>>◌, reject_if,
}
use calculated_tennis.Tennis.Score.{ScoreError, score_empty, invalid_token, invalid_set, SetScore}

unfoldable pub is_digit : ℕ → Bool
is_digit c = between b'0' b'9' c

-- A word is kept unless it is empty.
abbrev pub add_word : Text → List Text → List Text
add_word [] ws = ws
add_word (c ∷ cs) ws = (c ∷ cs) ∷ ws

-- `word` is what was read of the word under way.
unfoldable pub fields_from : Text → Text → List Text
unfolding is_space
fields_from word [] = add_word word []
fields_from word (c ∷ cs) =
    let ended = add_word word (fields_from [] cs) in
    let longer = fields_from (word ++ c ∷ []) cs in if is_space c then ended else longer

unfoldable pub fields : Text → List Text
unfolding fields_from
fields s = fields_from [] s

abbrev pub cons_digit : ℕ → Text × Text → Text × Text
cons_digit c (ds, rest) = (c ∷ ds, rest)

-- The digits at the front, and the rest.
unfoldable pub span_digits : Text → Text × Text
unfolding is_digit
span_digits [] = ([], [])
span_digits (c ∷ cs) = if is_digit c then cons_digit c (span_digits cs) else ([], c ∷ cs)

abbrev pub nonempty : Text × Text → Result ScoreError (Text × Text)
nonempty ([], rest) = err invalid_token
nonempty (d ∷ ds, rest) = ok (d ∷ ds, rest)

-- `\d+`.
abbrev pub digits : Text → Result ScoreError (Text × Text)
digits s = nonempty (span_digits s)

-- One literal character.
abbrev pub eat : ℕ → Text → Result ScoreError Text
eat c [] = err invalid_token
eat c (d ∷ ds) = if d == c then ok ds else err invalid_token

abbrev pub at_end : Text → Result ScoreError (Unit {0})
at_end [] = ok tt
at_end (c ∷ cs) = err invalid_token

-- The submatches 3 and 4, if any.
abbrev pub tiebreak_group : Text → Result ScoreError (Option (Text × Text))
tiebreak_group [] = ok none
tiebreak_group (c ∷ cs) = do
  s1 ← eat b'(' (c ∷ cs)
  (a, s2) ← digits s1
  s3 ← eat b'-' s2
  (b, s4) ← digits s3
  s5 ← eat b')' s4
  at_end s5
  ok (some (a, b))

-- `setTokenRE.FindStringSubmatch`.
unfoldable pub match_set_token : Text → Result ScoreError (Text × Text × Option (Text × Text))
unfolding span_digits
match_set_token tok = do
  (a, s1) ← digits tok
  s2 ← eat b'-' s1
  (b, s3) ← digits s2
  group ← tiebreak_group s3
  ok (a, b, group)

abbrev pub max_int : ℕ
max_int = 2 ^ 63 - 1

abbrev pub digits_value : ℕ → Text → ℕ
digits_value acc [] = acc
digits_value acc (d ∷ ds) = digits_value (acc * 10 + (d - b'0')) ds

-- The value that `strconv.Atoi` returns on digits: out of range it is the greatest `int`, with an
-- error that the caller drops.
unfoldable pub atoi : Text → ℕ
atoi ds = min (digits_value 0 ds) max_int

abbrev pub set_score : ℕ → ℕ → Option (Text × Text) → Result ScoreError SetScore
set_score ga gb none = ok (record { games_a = ga; games_b = gb; tiebreak = none })
set_score ga gb (some (a, b)) =
    reject_if (not (ga == gb)) invalid_set
    >> ok
        (record { games_a = ga; games_b = gb; tiebreak = some (record { a = atoi a; b = atoi b }) })

unfoldable pub parse_token : Text → Result ScoreError SetScore
unfolding match_set_token atoi
parse_token tok = do (a, b, group) ← match_set_token tok; set_score (atoi a) (atoi b) group

unfoldable pub parse_tokens : List Text → Result ScoreError (List SetScore)
unfolding parse_token
parse_tokens [] = ok []
parse_tokens (tok ∷ toks) = do s ← parse_token tok; ss ← parse_tokens toks; ok (s ∷ ss)

abbrev parse_trimmed : Text → Result ScoreError (List SetScore)
parse_trimmed [] = err score_empty
parse_trimmed (c ∷ cs) = parse_tokens (fields (c ∷ cs))

unfoldable pub parse_score : Text → Result ScoreError (List SetScore)
unfolding trim_space fields parse_tokens
parse_score s = parse_trimmed (trim_space s)
