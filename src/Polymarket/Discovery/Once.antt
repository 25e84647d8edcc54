-- ===== src/Polymarket/Discovery/Once.antt =====
-- polymarket/core/atp_market_discovery.go: no condition has two traders, however the calls that
-- start them overlap.
use calculated_tennis.Base.{
  ℕ, suc, ◌+◌, ◌≤◌, ◌≡◌, refl, Bool, true, false, not, ◌&&◌, List, [], ◌∷◌, if◌then◌else◌, Text,
  text_test, text_test_iff, arith, Bool-cases, inl, inr,
}
use calculated_tennis.Base.Texts.{trim_space}
use calculated_tennis.Polymarket.Discovery.{
  Discovery, is_in, without, remove_one, new_discovery, mark_started, unmark_started, begin_start,
  end_start,
}

-- A call of `startTrader` begins if the market is not marked, or one under way ends.
pub data Call : Type 0 where
  begins : Text → Call
  ends : Text → Bool → Call

-- Only a call that is under way ends.
unfoldable pub call : Call → Discovery → Discovery
unfolding begin_start end_start
call (begins condition) d = begin_start condition d
call (ends condition works) d =
    if is_in (trim_space condition) d.starting then end_start condition works d else d

unfoldable pub calls : List Call → Discovery → Discovery
unfolding call
calls [] d = d
calls (c ∷ cs) d = calls cs (call c d)

-- How many traders of a condition are being started or run.
abbrev pub mentions : Text → List Text → ℕ
mentions id [] = 0
mentions id (s ∷ ss) = let n = mentions id ss in if text_test s id then suc n else n

abbrev pub traders : Text → Discovery → ℕ
traders id d = mentions id d.starting + mentions id d.running

-- A condition has a trader at most once, and then it is marked.
pub record IsOnce (id : Text) (d : Discovery) : Type 0 where
  pub once : traders id d ≤ 1
  pub marked : 1 ≤ traders id d → is_in id d.started_set ≡ true

mentions-remove_one :
    (id j : Text) (ss : List Text)
    → is_in j ss ≡ true
    → mentions id ss ≡ (
        if text_test j id
        then suc (mentions id (remove_one j ss))
        else mentions id (remove_one j ss))
mentions-remove_one id j [] h = ground arith
mentions-remove_one id j (s ∷ ss) h = elim (Bool-cases (text_test s j)) [
  | inl here ↦ ground (arith, text_test_iff s j)
  | inr other ↦
      let rest : is_in j ss ≡ true = ground arith in
      ground (arith, mentions-remove_one id j ss rest, text_test_iff s id, text_test_iff j id)
]

pub is_in-without :
    (id j : Text) (ss : List Text) → is_in id (without j ss) ≡ (is_in id ss && not (text_test j id))
is_in-without id j [] = ground arith
is_in-without id j (s ∷ ss) =
    ground (arith, is_in-without id j ss, text_test_iff s j, text_test_iff s id, text_test_iff j id)

begin-IsOnce :
    (id condition : Text) (d : Discovery) → IsOnce id d → IsOnce id (begin_start condition d)
unfolding begin_start mark_started
begin-IsOnce id condition d h =
    let j = trim_space condition in
    let m = h.marked in
    let o = h.once in
    let t = text_test_iff j id in record { once = ground arith; marked = λ q. ground arith }

end-IsOnce :
    (id condition : Text) (works : Bool) (d : Discovery)
    → is_in (trim_space condition) d.starting ≡ true
    → IsOnce id d
    → IsOnce id (end_start condition works d)
unfolding end_start unmark_started
end-IsOnce id condition works d under h =
    let j = trim_space condition in
    let m = h.marked in
    let o = h.once in
    let t = text_test_iff j id in
    let r = mentions-remove_one id j d.starting under in
    let w = is_in-without id j d.started_set in
    record { once = ground arith; marked = λ q. ground arith }

pub calls-IsOnce :
    (id : Text) (cs : List Call) (d : Discovery) → IsOnce id d → IsOnce id (calls cs d)
unfolding calls call
calls-IsOnce id [] d h = h
calls-IsOnce id (begins condition ∷ cs) d h =
    calls-IsOnce id cs (begin_start condition d) (begin-IsOnce id condition d h)
calls-IsOnce id (ends condition works ∷ cs) d h =
    elim (Bool-cases (is_in (trim_space condition) d.starting)) [
      | inl under ↦ rw under (
          calls-IsOnce id cs (end_start condition works d)
            (end-IsOnce id condition works d under h))
      | inr idle ↦ rw idle (calls-IsOnce id cs d h)
    ]

-- From a new discovery, however the calls of startTrader overlap and end: no condition has more
-- than one trader that is being started or runs, and one that has is marked as started.
pub calls-new-IsOnce :
    (ids : List Text) (cs : List Call) (id : Text) → IsOnce id (calls cs (new_discovery ids))
unfolding new_discovery
calls-new-IsOnce ids cs id =
    calls-IsOnce id cs (new_discovery ids)
      (record { once = omega arith; marked = λ h. absurd (omega arith) })

pub test_refl : (s : Text) → text_test s s ≡ true
test_refl s = (text_test_iff s s).1 refl

-- If a trader was marked and its start fails, the marks are those from before, so it can be tried
-- again.
pub failed_start-is_in :
    (id condition : Text) (d : Discovery)
    → (mark_started condition d).1 ≡ true
    → is_in id (end_start condition false (begin_start condition d)).started_set
      ≡ is_in id d.started_set
unfolding end_start unmark_started begin_start mark_started
failed_start-is_in id condition d e =
    let j = trim_space condition in
    let w = is_in-without id j (j ∷ d.started_set) in
    let t = text_test_iff j id in let r = test_refl j in ground arith
