-- ===== src/TennisAbstract/Odds/Closest.antt =====
-- tennis/tennisabstract/odds_join.go: the row that a match is joined with is the closest one.
use calculated_tennis.Base.{
  ◌≡◌, refl, sym, subst, Bool, true, false, not, ◌&&◌, Option, none, some, List, [], ◌∷◌, ◌⊎◌, inl,
  inr, All, ℤ, pos, ltℤ, Float64,
}
use calculated_tennis.Base.Int.{ltℤ-trans, ltℤ-irrefl, ltℤ-asym, ltℤ-far}
use calculated_tennis.Base.Members.{IsAmong, IsAmong-filter, All-filter_iff}
use calculated_tennis.Base.Sorting.{filter}
use calculated_tennis.TennisAbstract.Odds.Index.{is_joinable, bucket-index_rows}
use calculated_tennis.TennisAbstract.Dates.{Time}
use calculated_tennis.TennisAbstract.Names.{Unicode}
use calculated_tennis.TennisAbstract.Odds.{
  days_apart, match_join_max_date_diff, MatchOddsJoin, OddsRow, bucket, key_of_match, index_rows,
  build_odds_index, best_of, find_best_odds_match,
}

widened :
    {A : Type 0} (x y z : A) (xs : List A) → ((x ≡ z) ⊎ IsAmong z xs) → (x ≡ z) ⊎ IsAmong z (y ∷ xs)
widened x y z xs (inl e) = inl e
widened x y z xs (inr h) = inr (inr h)

module _ (R : Float64) where
  module _ (date : Time) where
    abbrev distance : OddsRow R → ℤ
    distance o = days_apart date o.date

    abbrev limit : ℤ
    limit = pos match_join_max_date_diff

    -- What is best of `o` and the rows.
    abbrev IsBest : OddsRow R → List (OddsRow R) → OddsRow R → Type 0
    IsBest o rows p =
        ((o ≡ p) ⊎ IsAmong p rows)
        × (ltℤ limit (distance p) ≡ false)
        × (ltℤ (distance o) (distance p) ≡ false)
        × All (λ q. ltℤ (distance q) (distance p) ≡ false) rows

    best_of-IsBest :
        (rows : List (OddsRow R)) (o : OddsRow R)
        → ltℤ limit (distance o) ≡ false
        → (p : OddsRow R) × (best_of R date rows (some o) (distance o) ≡ some p) × IsBest o rows p
    unfolding best_of
    best_of-IsBest [] o near = (o, refl, (inl refl, near, ltℤ-irrefl (distance o), tt))
    best_of-IsBest (q ∷ rows) o near =
        by_test (ltℤ limit (distance q)) (ltℤ (distance q) (distance o)) refl refl
          (best_of-IsBest rows q) (best_of-IsBest rows o near)
      where
        Best : OddsRow R → Type 0
        Best r =
            (p : OddsRow R) × (best_of R date rows (some r) (distance r) ≡ some p) × IsBest r rows p

        by_test :
            (far less : Bool)
            → ltℤ limit (distance q) ≡ far
            → ltℤ (distance q) (distance o) ≡ less
            → (ltℤ limit (distance q) ≡ false → Best q)
            → Best o
            → (p : OddsRow R) × ((elim (not far && less) [
              | true ↦ best_of R date rows (some q) (distance q)
              | false ↦ best_of R date rows (some o) (distance o)
            ])
                ≡ some p)
              × IsBest o (q ∷ rows) p
        by_test true less f l nearer (p, e, (at, close, least, all)) = (
          p,
          e,
          (
            widened o q p rows at,
            close,
            least,
            (ltℤ-far limit (distance p) (distance q) close f, all),
          ),
        )
        by_test false true f l nearer kept =
            let (p, e, (at, close, least, all)) = nearer f in
            (
              p,
              e,
              (
                inr at,
                close,
                ltℤ-trans (distance p) (distance q) (distance o) least
                    (ltℤ-asym (distance q) (distance o) l),
                (least, all),
              ),
            )
        by_test false false f l nearer (p, e, (at, close, least, all)) = (
          p,
          e,
          (
            widened o q p rows at,
            close,
            least,
            (ltℤ-trans (distance p) (distance o) (distance q) least l, all),
          ),
        )

    -- The best of the rows, where one is close enough.
    abbrev IsFound : List (OddsRow R) → Option (OddsRow R) → Type 0
    IsFound rows none = All (λ q. ltℤ limit (distance q) ≡ true) rows
    IsFound rows (some p) =
        IsAmong p rows
        × (ltℤ limit (distance p) ≡ false)
        × All (λ q. ltℤ (distance q) (distance p) ≡ false) rows

    best_of-IsFound :
        (rows : List (OddsRow R)) (diff : ℤ) → IsFound rows (best_of R date rows none diff)
    unfolding best_of
    best_of-IsFound [] diff = tt
    best_of-IsFound (q ∷ rows) diff =
        by_test (ltℤ limit (distance q)) refl (best_of-IsBest rows q) (best_of-IsFound rows diff)
      where
        by_test :
            (far : Bool)
            → ltℤ limit (distance q) ≡ far
            → (ltℤ limit (distance q) ≡ false
                → (p : OddsRow R) × (best_of R date rows (some q) (distance q) ≡ some p)
                  × IsBest q rows p)
            → IsFound rows (best_of R date rows none diff)
            → IsFound (q ∷ rows) (elim (not far && true) [
              | true ↦ best_of R date rows (some q) (distance q)
              | false ↦ best_of R date rows none diff
            ])
        by_test true f nearer later = further (best_of R date rows none diff) f later
          where
            further :
                (found : Option (OddsRow R))
                → ltℤ limit (distance q) ≡ true
                → IsFound rows found
                → IsFound (q ∷ rows) found
            further none f h = (f, h)
            further (some p) f (at, close, all) =
                (inr at, close, (ltℤ-far limit (distance p) (distance q) close f, all))
        by_test false f nearer later =
            let (p, e, (at, close, least, all)) = nearer f in
            subst (IsFound (q ∷ rows)) (sym e) (at, close, (least, all))

  module _ (U : Unicode) where
    -- The row that is found, by the distance of the code.
    abbrev pub IsClosest : MatchOddsJoin → List (OddsRow R) → Option (OddsRow R) → Type 0
    IsClosest m odds none =
        All
          (λ q.
            is_joinable R U (key_of_match R U m) q ≡ true
            → ltℤ (pos match_join_max_date_diff) (days_apart m.tourney_date q.date) ≡ true)
          odds
    IsClosest m odds (some p) =
        IsAmong p odds
        × (is_joinable R U (key_of_match R U m) p ≡ true)
        × (ltℤ (pos match_join_max_date_diff) (days_apart m.tourney_date p.date) ≡ false)
        × All
            (λ q.
              is_joinable R U (key_of_match R U m) q ≡ true
              → ltℤ (days_apart m.tourney_date q.date) (days_apart m.tourney_date p.date) ≡ false)
            odds

    IsFound-IsClosest :
        (m : MatchOddsJoin) (odds : List (OddsRow R)) (found : Option (OddsRow R))
        → IsFound m.tourney_date (filter (is_joinable R U (key_of_match R U m)) odds) found
        → IsClosest m odds found
    IsFound-IsClosest m odds none h = All-filter_iff _ (is_joinable R U (key_of_match R U m)) odds h
    IsFound-IsClosest m odds (some p) (at, close, all) =
        let here = IsAmong-filter (is_joinable R U (key_of_match R U m)) p odds at in
        (here.0, here.1, close, All-filter_iff _ (is_joinable R U (key_of_match R U m)) odds all)

    pub find_best_odds_match-IsClosest :
        (odds : List (OddsRow R)) (m : MatchOddsJoin)
        → IsClosest m odds (find_best_odds_match R U (build_odds_index R U odds) m)
    unfolding find_best_odds_match build_odds_index
    find_best_odds_match-IsClosest odds m =
        let key = key_of_match R U m in
        IsFound-IsClosest m odds _ (
          subst
            (λ rows.
              IsFound m.tourney_date rows
                (best_of R m.tourney_date (bucket R (index_rows R U [] odds) key) none (pos 22)))
            (bucket-index_rows R U [] key odds)
            (best_of-IsFound m.tourney_date (bucket R (index_rows R U [] odds) key) (pos 22)))
