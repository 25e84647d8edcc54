-- ===== src/TennisAbstract/Odds/Index.antt =====
-- tennis/tennisabstract/odds_join.go: the bucket of a key has the usable rows of that key.
use calculated_tennis.Base.{
  ℕ, ◌≡◌, refl, sym, ap, ◌∙◌, subst, Bool, true, false, ◌&&◌, List, [], ◌∷◌, ◌++◌, text_test,
  text_test_iff, arith, Float64, if◌then◌else◌, if_case,
}
use calculated_tennis.Base.Members.{append_nil, append_snoc}
use calculated_tennis.Base.Sorting.{filter}
use calculated_tennis.TennisAbstract.Names.{Unicode, PlayerMatchKey, key_test}
use calculated_tennis.TennisAbstract.Odds.{
  OddsMatchKey, match_key_test, OddsRow, OddsIndex, bucket, add_to_bucket, is_usable, key_of_odds,
  index_row, index_rows,
}

key_test_eq : (k l : PlayerMatchKey) → key_test k l ≡ true → k ≡ l
key_test_eq k l h =
    let a : k.last ≡ l.last = ground (arith, text_test_iff k.last l.last) in
    let b : k.initial ≡ l.initial = ground (arith, text_test_iff k.initial l.initial) in
    λ i. record { last = a i; initial = b i }

match_key_test_eq : (k l : OddsMatchKey) → match_key_test k l ≡ true → k ≡ l
match_key_test_eq k l h =
    let a : k.winner ≡ l.winner = ground (arith, key_test_eq k.winner l.winner) in
    let b : k.loser ≡ l.loser = ground (arith, key_test_eq k.loser l.loser) in
    let c : k.surface ≡ l.surface = ground (arith, text_test_iff k.surface l.surface) in
    λ i. record { winner = a i; loser = b i; surface = c i }

text_test_refl : (s : List ℕ) → text_test s s ≡ true
text_test_refl s = ground (arith, text_test_iff s s)

match_key_test_refl : (k : OddsMatchKey) → match_key_test k k ≡ true
match_key_test_refl k =
    rw
      (
        text_test_refl k.winner.last,
        text_test_refl k.winner.initial,
        text_test_refl k.loser.last,
        text_test_refl k.loser.initial,
        text_test_refl k.surface,
      )
      refl

module _ (R : Float64) where
  -- The bucket of a key grows by a row of that key only.
  abbrev of_key : OddsMatchKey → OddsMatchKey → OddsRow R → List (OddsRow R)
  of_key j k o = if match_key_test j k then o ∷ [] else []

  -- By the tests of the first key with the new one and with the key that is looked up, and of the
  -- new one with that.
  bucket_step :
      (i : OddsMatchKey) (rows : List (OddsRow R)) (rest grown : OddsIndex R) (k : OddsMatchKey)
      (o : OddsRow R) (a b c : Bool)
      → match_key_test i k ≡ b
      → (a ≡ true → b ≡ c)
      → (b ≡ true → c ≡ true → a ≡ true)
      → bucket R grown k ≡ bucket R rest k ++ (if c then o ∷ [] else [])
      → bucket R (elim a [ true ↦ (i, rows ++ o ∷ []) ∷ rest | false ↦ (i, rows) ∷ grown ]) k
        ≡ (if b then rows else bucket R rest k) ++ (if c then o ∷ [] else [])
  bucket_step i rows rest grown k o true true true e same third h = rw e refl
  bucket_step i rows rest grown k o true true false e same third h =
      absurd (ground (arith, same refl))
  bucket_step i rows rest grown k o true false true e same third h =
      absurd (ground (arith, same refl))
  bucket_step i rows rest grown k o true false false e same third h =
      rw (e, append_nil (bucket R rest k)) refl
  bucket_step i rows rest grown k o false true true e same third h =
      absurd (ground (arith, third refl refl))
  bucket_step i rows rest grown k o false true false e same third h = rw (e, append_nil rows) refl
  bucket_step i rows rest grown k o false false c e same third h = rw e h

  bucket-add_to_bucket :
      (index : OddsIndex R) (j k : OddsMatchKey) (o : OddsRow R)
      → bucket R (add_to_bucket R index j o) k ≡ bucket R index k ++ of_key j k o
  bucket-add_to_bucket [] j k o =
      if_case (λ rows. (if match_key_test j k then o ∷ [] else []) ≡ rows) (match_key_test j k)
        (λ e. rw e refl) (λ e. rw e refl)
  bucket-add_to_bucket ((i, rows) ∷ rest) j k o =
      bucket_step i rows rest (add_to_bucket R rest j o) k o (match_key_test i j)
        (match_key_test i k) (match_key_test j k) refl
        (λ h. ap (λ x. match_key_test x k) (match_key_test_eq i j h))
        (λ h l.
          subst (λ x. match_key_test i x ≡ true)
            (match_key_test_eq i k h ∙ sym (match_key_test_eq j k l)) (match_key_test_refl i))
        (bucket-add_to_bucket rest j k o)

  module _ (U : Unicode) where
    -- A row that can be joined with a match of the key.
    abbrev pub is_joinable : OddsMatchKey → OddsRow R → Bool
    is_joinable k o = is_usable R o && match_key_test (key_of_odds R U o) k

    bucket-index_row :
        (index : OddsIndex R) (k : OddsMatchKey) (o : OddsRow R) (rest : List (OddsRow R))
        → bucket R (index_row R U index o) k ++ filter (is_joinable k) rest
          ≡ bucket R index k ++ filter (is_joinable k) (o ∷ rest)
    bucket-index_row index k o rest =
        by_test (is_usable R o) (match_key_test (key_of_odds R U o) k)
          (bucket-add_to_bucket index (key_of_odds R U o) k o)
      where
        by_test :
            (b c : Bool)
            → bucket R (add_to_bucket R index (key_of_odds R U o) o) k
              ≡ bucket R index k ++ (if c then o ∷ [] else [])
            → bucket R (if b then add_to_bucket R index (key_of_odds R U o) o else index) k
                ++ filter (is_joinable k) rest
              ≡ bucket R index k
                ++ (if b && c then o ∷ filter (is_joinable k) rest else filter (is_joinable k) rest)
        by_test false c h = refl
        by_test true true h =
            ap (λ rows. rows ++ filter (is_joinable k) rest) h
            ∙ append_snoc (bucket R index k) o (filter (is_joinable k) rest)
        by_test true false h = rw (h, append_nil (bucket R index k)) refl

    pub bucket-index_rows :
        (index : OddsIndex R) (k : OddsMatchKey) (odds : List (OddsRow R))
        → bucket R (index_rows R U index odds) k ≡ bucket R index k ++ filter (is_joinable k) odds
    bucket-index_rows index k [] = sym (append_nil (bucket R index k))
    bucket-index_rows index k (o ∷ rest) =
        bucket-index_rows (index_row R U index o) k rest ∙ bucket-index_row index k o rest
