-- ===== src/Polymarket/Subscribers/Entries.antt =====
-- What the operations on the map of subscribers do to each entry.
use calculated_tennis.Base.{
  ℕ, ◌≡◌, refl, ap, true, false, not, List, [], ◌∷◌, ◌++◌, ◌==◌, if◌then◌else◌, arith, Eq, is_empty,
  Bool-cases, inl, inr, ◌||◌, ◌&&◌,
}
use calculated_tennis.Polymarket.Subscribers.{
  Subscriber, Subscribers, entry, has_key, set_entry, delete_entry, add_subscriber, drop_subscriber,
  listens, remove_first,
}

module _ {K : Type 0} (E : Eq K) where
  pub test_refl : (k : K) → E.test k k ≡ true
  test_refl k = (E.test_iff k k).1 refl

  pub entry-set_entry :
      (j k : K) (ss : List Subscriber) (m : Subscribers K)
      → entry E j (set_entry E k ss m) ≡ (if E.test k j then ss else entry E j m)
  unfolding entry set_entry
  entry-set_entry j k ss [] = refl
  entry-set_entry j k ss ((i, old) ∷ m) =
      ground (arith, E.test_iff k j, E.test_iff i k, E.test_iff i j, entry-set_entry j k ss m)

  pub has_key-set_entry :
      (j k : K) (ss : List Subscriber) (m : Subscribers K)
      → has_key E j (set_entry E k ss m) ≡ (E.test k j || has_key E j m)
  unfolding has_key set_entry
  has_key-set_entry j k ss [] = ground arith
  has_key-set_entry j k ss ((i, old) ∷ m) =
      ground (arith, E.test_iff k j, E.test_iff i k, E.test_iff i j, has_key-set_entry j k ss m)

  pub entry-delete_entry :
      (j k : K) (m : Subscribers K)
      → entry E j (delete_entry E k m) ≡ (if E.test k j then [] else entry E j m)
  unfolding entry delete_entry
  entry-delete_entry j k [] = ground arith
  entry-delete_entry j k ((i, old) ∷ m) =
      ground (arith, E.test_iff k j, E.test_iff i k, E.test_iff i j, entry-delete_entry j k m)

  pub has_key-delete_entry :
      (j k : K) (m : Subscribers K)
      → has_key E j (delete_entry E k m) ≡ (not (E.test k j) && has_key E j m)
  unfolding has_key delete_entry
  has_key-delete_entry j k [] = ground arith
  has_key-delete_entry j k ((i, old) ∷ m) =
      ground (arith, E.test_iff k j, E.test_iff i k, E.test_iff i j, has_key-delete_entry j k m)

  -- A key has an entry exactly if it has listeners.
  unfoldable pub Tidy : Subscribers K → Type 0
  Tidy m = (k : K) → has_key E k m ≡ not (is_empty (entry E k m))

  pub nil-Tidy : Tidy []
  unfolding Tidy has_key entry
  nil-Tidy k = refl

  is_empty-snoc : (ss : List Subscriber) (s : Subscriber) → is_empty (ss ++ s ∷ []) ≡ false
  is_empty-snoc [] s = refl
  is_empty-snoc (r ∷ ss) s = refl

  pub entry-add_subscriber :
      (j k : K) (s : Subscriber) (m : Subscribers K)
      → entry E j (add_subscriber E k s m)
        ≡ (if E.test k j then entry E k m ++ s ∷ [] else entry E j m)
  unfolding add_subscriber
  entry-add_subscriber j k s m = entry-set_entry j k (entry E k m ++ s ∷ []) m

  pub has_key-add_subscriber :
      (j k : K) (s : Subscriber) (m : Subscribers K)
      → has_key E j (add_subscriber E k s m) ≡ (E.test k j || has_key E j m)
  unfolding add_subscriber
  has_key-add_subscriber j k s m = has_key-set_entry j k (entry E k m ++ s ∷ []) m

  pub add_subscriber-Tidy :
      (k : K) (s : Subscriber) (m : Subscribers K) → Tidy m → Tidy (add_subscriber E k s m)
  unfolding Tidy
  add_subscriber-Tidy k s m t j =
      rw (has_key-add_subscriber j k s m, entry-add_subscriber j k s m)
        (ground (arith, is_empty-snoc (entry E k m) s, t j))

  -- A listener that is not there is added and removed.
  pub remove_first-append :
      (c : ℕ) (ss : List Subscriber) (s : Subscriber)
      → listens c ss ≡ false
      → s.ch ≡ c
      → remove_first c (ss ++ s ∷ []) ≡ ss
  remove_first-append c [] s h e = ground arith
  remove_first-append c (r ∷ ss) s h e =
      let rest : listens c ss ≡ false = ground arith in
      let here : (r.ch == c) ≡ false = ground arith in
      rw here (ap (◌∷◌ r) (remove_first-append c ss s rest e))

  remove_first-none : (c : ℕ) (ss : List Subscriber) → listens c ss ≡ false → remove_first c ss ≡ ss
  remove_first-none c [] h = refl
  remove_first-none c (r ∷ ss) h =
      let rest : listens c ss ≡ false = ground arith in
      let here : (r.ch == c) ≡ false = ground arith in
      rw here (ap (◌∷◌ r) (remove_first-none c ss rest))

  pub entry-drop_subscriber :
      (j k : K) (c : ℕ) (m : Subscribers K)
      → entry E j (drop_subscriber E k c m)
        ≡ (if E.test k j then remove_first c (entry E k m) else entry E j m)
  unfolding drop_subscriber
  entry-drop_subscriber j k c m = elim (Bool-cases (listens c (entry E k m))) [
    | inl there ↦ rw there (entry-set_entry j k (remove_first c (entry E k m)) m)
    | inr gone ↦ rw (gone, remove_first-none c (entry E k m) gone) (ground (arith, E.test_iff k j))
  ]

  pub has_key-drop_subscriber :
      (j k : K) (c : ℕ) (m : Subscribers K)
      → Tidy m
      → has_key E j (drop_subscriber E k c m) ≡ has_key E j m
  unfolding drop_subscriber Tidy
  has_key-drop_subscriber j k c m t = elim (Bool-cases (listens c (entry E k m))) [
    | inl there ↦
        rw (there, has_key-set_entry j k (remove_first c (entry E k m)) m)
          (ground (arith, E.test_iff k j, t k, t j))
    | inr gone ↦ rw gone
  ]
