-- ===== src/TennisAbstract/Recent.antt =====
-- tennis/tennisabstract/recent_filter.go: the results that count for the form of a player, and what
-- of tennis/models the form code reads.
use calculated_tennis.Base.{
  ℕ, ◌≡◌, refl, Bool, true, false, Option, List, [], ◌∷◌, ◌++◌, min, length, All, is_empty, leb,
  ltb, if◌then◌else◌, Float64, arith, ◌||◌, sym, subst, if_case, zero, suc,
}
use calculated_tennis.Base.Sorting.{
  sort_stable, filter, take, drop, take-append-drop, length-take, IsSorted, All-filter, All-take,
  sort_stable-All, IsStrict, sort_stable-IsSorted, sort_stable-perm, length-sort_stable, take_all,
}
use calculated_tennis.TennisAbstract.Dates.{Time, before, after, utc_date_only}
use mathlib.Core.List.{Permᴰ}

module _ (R : Float64) where
  pub record RecentResult : Type 0 where
    pub date : Time
    pub dominance_ratio : Option R.F

  abbrev pub newer : RecentResult → RecentResult → Bool
  newer r s = after r.date s.date

  abbrev pub is_eligible : Time → RecentResult → Bool
  is_eligible as_of r = before (utc_date_only r.date) (utc_date_only as_of)

  unfoldable pub recent_results_before : List RecentResult → Time → ℕ → List RecentResult
  unfolding sort_stable
  recent_results_before results as_of limit =
      let kept = filter (is_eligible as_of) results in
      let sorted = sort_stable newer kept in
      if leb limit 0 || is_empty results
      then []
      else if is_empty kept
      then []
      else if ltb limit (length sorted)
      then take limit sorted
      else sorted

  -- The instants are in order.
  newer-IsStrict : IsStrict newer
  newer-IsStrict = record { asym = λ a b h. ground arith; trans = λ a b c h k. ground arith }

  -- The branches of the code are one: the front of the sorted eligible results.
  recent_results_before_lem :
      (results : List RecentResult) (as_of : Time) (limit : ℕ)
      → recent_results_before results as_of limit
        ≡ take limit (sort_stable newer (filter (is_eligible as_of) results))
  unfolding recent_results_before sort_stable
  recent_results_before_lem [] as_of zero = refl
  recent_results_before_lem [] as_of (suc limit) =
      if_case (λ zs. zs ≡ []) (leb (suc limit) 0 || true) (λ e. refl) (λ e. refl)
  recent_results_before_lem (r ∷ rs) as_of limit =
      let kept = filter (is_eligible as_of) (r ∷ rs) in by_kept kept limit
    where
      by_kept :
          (kept : List RecentResult) (limit : ℕ)
          → (if leb limit 0 || false
              then []
              else if is_empty kept
              then []
              else if ltb limit (length (sort_stable newer kept))
              then take limit (sort_stable newer kept)
              else sort_stable newer kept)
            ≡ take limit (sort_stable newer kept)
      by_kept kept zero = refl
      by_kept [] (suc limit) =
          if_case (λ zs. zs ≡ []) (leb (suc limit) 0 || false) (λ e. refl) (λ e. refl)
      by_kept (k ∷ ks) (suc limit) =
          let sorted = sort_stable newer (k ∷ ks) in
          let front = λ (zs : List RecentResult). zs ≡ take (suc limit) sorted in
          if_case front (leb (suc limit) 0 || false) (λ e. absurd (ground arith))
            (λ e.
              if_case front (ltb (suc limit) (length sorted)) (λ e. refl)
                (λ e. sym (take_all (suc limit) sorted e)))

  -- The eligible results, those returned first.
  pub record IsNewest (results chosen : List RecentResult) (as_of : Time) (limit : ℕ) : Type 0 where
    pub others : List RecentResult
    pub ordered : IsSorted newer (chosen ++ others)
    pub same : Permᴰ (chosen ++ others) (filter (is_eligible as_of) results)
    pub counted : length chosen ≡ min limit (length (filter (is_eligible as_of) results))
    pub earlier : All (λ r. is_eligible as_of r ≡ true) chosen

  -- RecentResultsBefore gives as many as the limit allows of the results dated before the day of
  -- `as_of`, newest first, and the eligible results that it leaves out are not newer.
  pub recent_results_before-IsNewest :
      (results : List RecentResult) (as_of : Time) (limit : ℕ)
      → IsNewest results (recent_results_before results as_of limit) as_of limit
  recent_results_before-IsNewest results as_of limit =
      let kept = filter (is_eligible as_of) results in
      let sorted = sort_stable newer kept in
      subst (λ chosen. IsNewest results chosen as_of limit)
        (sym (recent_results_before_lem results as_of limit))
        (record {
          others = drop limit sorted;
          ordered =
              subst (IsSorted newer) (sym (take-append-drop limit sorted))
                (sort_stable-IsSorted newer kept newer-IsStrict);
          same =
              subst (λ zs. Permᴰ zs kept) (sym (take-append-drop limit sorted))
                (sort_stable-perm newer kept);
          counted = omega (arith, length-take limit sorted, length-sort_stable newer kept);
          earlier =
              All-take (λ r. is_eligible as_of r ≡ true) limit sorted
                (sort_stable-All (λ r. is_eligible as_of r ≡ true) newer kept
                  (All-filter (is_eligible as_of) results));
        })
