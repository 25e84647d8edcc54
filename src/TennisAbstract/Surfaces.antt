-- ===== src/TennisAbstract/Surfaces.antt =====
-- tennis/tennisabstract/form_env.go, alpha_env.go, and the surfaces of matches_csv.go: settings
-- read from the environment, by court surface. The process environment and `strconv.ParseFloat` are
-- parameters.
use calculated_tennis.Base.{
  ℕ, Option, none, some, ◌++◌, if◌then◌else◌, Text, codes, text_test, is_empty, to_lower, ℤ, pos,
  negsuc, atoi, leb, Float64,
}
use calculated_tennis.Base.Texts.{trim_space}

-- `unknown` is every other text.
pub data MatchSurface : Type 0 where
  hard clay grass unknown : MatchSurface

abbrev pub surface_env_suffix : MatchSurface → Option Text
surface_env_suffix hard = some (codes "_HARD")
surface_env_suffix clay = some (codes "_CLAY")
surface_env_suffix grass = some (codes "_GRASS")
surface_env_suffix unknown = none

abbrev pub surface_form_env_key : Text → MatchSurface → Option Text
surface_form_env_key field surface = elim (surface_env_suffix surface) [
  | none ↦ none
  | some suffix ↦ some (codes "TENNISABSTRACT_FORM_" ++ field ++ suffix)
]

unfoldable pub normalize_match_surface : Text → Option MatchSurface
normalize_match_surface raw =
    let s = trim_space raw in
    if text_test s (codes "Hard")
    then some hard
    else if text_test s (codes "Clay")
    then some clay
    else if text_test s (codes "Grass")
    then some grass
    else none

unfoldable pub parse_match_surface : Text → Option MatchSurface
unfolding normalize_match_surface
parse_match_surface raw =
    let s = to_lower (trim_space raw) in
    if text_test s (codes "hard")
    then some hard
    else if text_test s (codes "clay")
    then some clay
    else if text_test s (codes "grass")
    then some grass
    else normalize_match_surface raw

abbrev pub or_fallback {ℓ} : {A : Type ℓ} → Option A → A → A
or_fallback none fallback = fallback
or_fallback (some v) fallback = v

-- A positive number.
abbrev pub positive_int : Option ℤ → Option ℕ
positive_int none = none
positive_int (some (negsuc n)) = none
positive_int (some (pos n)) = if leb n 0 then none else some n

module _ (R : Float64) where
  open R use {F, zero, le, literal}

  -- The process: `os.Getenv`, `strconv.ParseFloat` and `time.Now` as the day and the clock.
  pub record Process : Type 0 where
    pub getenv : Text → Text
    pub parse_float : Text → Option F

  module _ (P : Process) where
    unfoldable pub positive_int_from_env : Text → ℕ → ℕ
    positive_int_from_env key fallback =
        let raw = trim_space (P.getenv key) in
        if is_empty raw then fallback else or_fallback (positive_int (atoi raw)) fallback

    abbrev pub positive_float : Option F → Option F
    positive_float none = none
    positive_float (some f) = if le f zero then none else some f

    unfoldable pub positive_float_from_env_key : Text → Option F
    positive_float_from_env_key key =
        let raw = trim_space (P.getenv key) in
        if is_empty raw then none else positive_float (P.parse_float raw)

    unfoldable pub positive_float_from_env : Text → F → F
    positive_float_from_env key fallback =
        let raw = trim_space (P.getenv key) in
        if is_empty raw then fallback else or_fallback (positive_float (P.parse_float raw)) fallback

    -- The variable of the surface, where there is one; then the global one; then the default.
    unfoldable pub surface_override : Option Text → Option F
    unfolding positive_float_from_env_key
    surface_override none = none
    surface_override (some key) = positive_float_from_env_key key

    unfoldable pub float_form_env : MatchSurface → Text → Text → F → F
    unfolding positive_float_from_env
    float_form_env surface field global_key fallback =
        or_fallback (surface_override (surface_form_env_key field surface))
          (positive_float_from_env global_key fallback)

    abbrev pub alpha_key : Option Text → Option Text
    alpha_key none = none
    alpha_key (some suffix) = some (codes "TENNISABSTRACT_ALPHA" ++ suffix)

    unfoldable pub alpha_from_env : MatchSurface → F
    unfolding positive_float_from_env
    alpha_from_env surface =
        or_fallback (surface_override (alpha_key (surface_env_suffix surface)))
          (positive_float_from_env (codes "TENNISABSTRACT_ALPHA") (literal 1 0))
