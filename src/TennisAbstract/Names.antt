-- ===== src/TennisAbstract/Names.antt =====
-- tennis/tennisabstract/name.go and player_key.go: the slugs of players, and the keys by which two
-- data sets name the same player. The classes and cases of characters (`unicode`) are a parameter.
use calculated_tennis.Base.{
  ℕ, ◌+◌, ◌/◌, Bool, true, false, ◌&&◌, ◌||◌, not, Option, none, some, List, [], ◌∷◌, ◌++◌, map,
  if◌then◌else◌, ltb, ◌==◌, Text, codes, text_test, is_empty,
}
use calculated_tennis.Base.Texts.{is_space, trim_space, between}

-- `unicode.IsLetter`, `unicode.ToUpper` and `unicode.ToLower`.
pub record Unicode : Type 0 where
  pub is_letter : ℕ → Bool
  pub upper : ℕ → ℕ
  pub lower : ℕ → ℕ

abbrev pub with_word : Text → List Text → List Text
with_word [] rest = rest
with_word (c ∷ cs) rest = (c ∷ cs) ∷ rest

-- The words of a text, `word` being read.
unfoldable pub fields_from : Text → Text → List Text
unfolding is_space
fields_from word [] = with_word word []
fields_from word (c ∷ cs) = elim (is_space c) [
  | true ↦ with_word word (fields_from [] cs)
  | false ↦ fields_from (word ++ c ∷ []) cs
]

-- `strings.Fields`.
unfoldable pub fields : Text → List Text
unfolding fields_from
fields s = fields_from [] s

abbrev pub only : (ℕ → Bool) → Text → Bool
only p [] = true
only p (c ∷ cs) = p c && only p cs

abbrev pub ascii_letter : ℕ → Bool
ascii_letter c = between b'A' b'Z' c || between b'a' b'z' c

abbrev pub joined : List Text → Text
joined [] = []
joined (w ∷ ws) = w ++ joined ws

-- `strings.Join(words, " ")`.
abbrev pub spaced : List Text → Text
spaced [] = []
spaced (w ∷ []) = w
spaced (w ∷ v ∷ ws) = w ++ b' ' ∷ spaced (v ∷ ws)

-- The last word of a list that begins with `w`, and the words before it.
abbrev pub last_word : Text → List Text → Text
last_word w [] = w
last_word w (v ∷ ws) = last_word v ws

abbrev pub but_last : Text → List Text → List Text
but_last w [] = []
but_last w (v ∷ ws) = w ∷ but_last v ws

-- `s[:1]`, of a text of one character or more: the first byte. A byte that is part of a longer
-- character is no character; it is counted from 0x110000 on.
abbrev pub first_byte : ℕ → ℕ
first_byte c =
    if ltb c 0x80
    then c
    else if ltb c 0x800
    then 0x110000 + 0xC0 + c / 0x40
    else if ltb c 0x10000
    then 0x110000 + 0xE0 + c / 0x1000
    else 0x110000 + 0xF0 + c / 0x40000

-- `playerMatchKey`.
pub record PlayerMatchKey : Type 0 where
  pub last : Text
  pub initial : Text

abbrev pub no_key : PlayerMatchKey
no_key = record { last = []; initial = [] }

abbrev pub surname_particles : List Text
surname_particles =
    codes "de"
    ∷ codes "del"
    ∷ codes "della"
    ∷ codes "da"
    ∷ codes "dos"
    ∷ codes "du"
    ∷ codes "van"
    ∷ codes "von"
    ∷ codes "le"
    ∷ codes "la"
    ∷ codes "st"
    ∷ codes "st."
    ∷ []

abbrev pub is_one_of : Text → List Text → Bool
is_one_of s [] = false
is_one_of s (t ∷ ts) = text_test s t || is_one_of s ts

module _ (U : Unicode) where
  abbrev pub to_lower_text : Text → Text
  to_lower_text s = map U.lower s

  abbrev pub title_word : Text → Text
  title_word [] = []
  title_word (c ∷ cs) = U.upper c ∷ map U.lower cs

  -- A text without spaces and of letters only is a slug already.
  unfoldable pub player_slug : Text → Text
  unfolding fields
  player_slug name =
      let s = trim_space name in
      if is_empty s || only ascii_letter s then s else joined (map title_word (fields s))

  abbrev pub normalize_player_key_part : Text → Text
  normalize_player_key_part [] = []
  normalize_player_key_part (c ∷ cs) =
      let rest = normalize_player_key_part cs in if U.is_letter c then U.lower c ∷ rest else rest

  abbrev pub lower_initial : Text → Text
  lower_initial [] = []
  lower_initial (c ∷ cs) = U.lower c ∷ []

  -- The words from the first particle on, where there is one.
  abbrev pub from_particle : List Text → Option (List Text)
  from_particle [] = none
  from_particle (w ∷ ws) =
      let rest = from_particle ws in
      if is_one_of (to_lower_text w) surname_particles then some (w ∷ ws) else rest

  abbrev pub surname_or_last : Option (List Text) → Text → List Text → Text
  surname_or_last none w ws = last_word w ws
  surname_or_last (some words) w ws = spaced words

  -- Of the words that begin with `w`.
  abbrev pub sackmann_surname : Text → List Text → Text
  sackmann_surname w ws = surname_or_last (from_particle ws) w ws

  abbrev pub key_of_sackmann_words : List Text → PlayerMatchKey
  key_of_sackmann_words [] = no_key
  key_of_sackmann_words (w ∷ []) = record { last = normalize_player_key_part w; initial = [] }
  key_of_sackmann_words (w ∷ v ∷ ws) = record {
    last = normalize_player_key_part (sackmann_surname w (v ∷ ws));
    initial = lower_initial w;
  }

  unfoldable pub player_key_from_sackmann_name : Text → PlayerMatchKey
  unfolding fields
  player_key_from_sackmann_name name = key_of_sackmann_words (fields (trim_space name))

  abbrev pub initial_byte : Text → Text
  initial_byte [] = []
  initial_byte (c ∷ cs) = first_byte c ∷ []

  -- `strings.TrimSuffix(s, ".")` where `s` ends in one.
  abbrev pub before_dot : Text → Option Text
  before_dot [] = none
  before_dot (c ∷ []) = if c == b'.' then some [] else none
  before_dot (c ∷ d ∷ cs) = elim (before_dot (d ∷ cs)) [ none ↦ none | some rest ↦ some (c ∷ rest) ]

  abbrev pub second_initial : List Text → Text
  second_initial [] = []
  second_initial (v ∷ ws) = lower_initial v

  -- By the last word without its dot, where it ends in one: "Medvedev D.", or "Medvedev Daniil".
  abbrev pub key_of_odds_words : Option Text → Text → List Text → PlayerMatchKey
  key_of_odds_words (some ini) w ws = record {
    last = normalize_player_key_part (spaced (but_last w ws));
    initial = initial_byte (to_lower_text ini);
  }
  key_of_odds_words none w ws = record {
    last = normalize_player_key_part w;
    initial = second_initial ws;
  }

  abbrev pub key_of_words : List Text → PlayerMatchKey
  key_of_words [] = no_key
  key_of_words (w ∷ ws) = key_of_odds_words (before_dot (last_word w ws)) w ws

  unfoldable pub player_key_from_odds_name : Text → PlayerMatchKey
  unfolding fields
  player_key_from_odds_name name = key_of_words (fields (trim_space name))

abbrev pub key_test : PlayerMatchKey → PlayerMatchKey → Bool
key_test k l = text_test k.last l.last && text_test k.initial l.initial

unfoldable pub match_player_keys : PlayerMatchKey → PlayerMatchKey → Bool
match_player_keys k l =
    not (is_empty k.last || is_empty l.last)
    && text_test k.last l.last
    && not (
        not (is_empty k.initial) && not (is_empty l.initial) && not (text_test k.initial l.initial))
