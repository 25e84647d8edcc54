-- ===== src/TennisAbstract/Odds/Nearest.antt =====
-- tennis/tennisabstract/odds_join.go: how near the row that a match is joined with is, in days.
use calculated_tennis.Base.{
  ℕ, ◌+◌, ◌-◌, ◌≤◌, ◌<◌, ◌≡◌, true, Option, none, some, List, All, Float64,
}
use calculated_tennis.Base.Members.{IsAmong}
use calculated_tennis.TennisAbstract.Dates.{Time}
use calculated_tennis.TennisAbstract.Names.{Unicode}
use calculated_tennis.TennisAbstract.Odds.{MatchOddsJoin, OddsRow, key_of_match}
use calculated_tennis.TennisAbstract.Odds.Index.{is_joinable}

-- The days between two days, in either order.
abbrev pub day_distance : Time → Time → ℕ
day_distance a b = (a.day - b.day) + (b.day - a.day)

-- A date that a difference of time still reaches.
abbrev pub IsInReach : Time → Time → Type 0
IsInReach a b = b.day ≤ a.day + 106751

module _ (R : Float64) (U : Unicode) where
  -- A row of odds that may be joined with a match: usable, with its players and surface.
  abbrev pub IsJoinable : MatchOddsJoin → OddsRow R → Type 0
  IsJoinable m q = is_joinable R U (key_of_match R U m) q ≡ true

  -- What `FindBestOddsMatch` is for.
  abbrev pub IsNearest : MatchOddsJoin → List (OddsRow R) → Option (OddsRow R) → Type 0
  IsNearest m odds none = All (λ q. IsJoinable m q → 21 < day_distance m.tourney_date q.date) odds
  IsNearest m odds (some p) =
      IsAmong p odds
      × IsJoinable m p
      × (day_distance m.tourney_date p.date ≤ 21)
      × All
          (λ q.
            IsJoinable m q
            → day_distance m.tourney_date p.date ≤ day_distance m.tourney_date q.date)
          odds
