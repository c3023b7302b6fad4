-- ===== src/Clock/Next/Tests.antt =====
-- The theorems at a calendar whose dates are numbers of seconds, without months.
use alike.Base.{◌≤◌, refl, ◌+◌, ◌%◌, ◌<◌, [], ◌∷◌, true, ◌≡◌, arith}
use alike.Format.Texts.{in_arr}
use alike.Clock.Next.{next_day, days_to_add}
use alike.Clock.Next.Days.{turn, next_day_lem}

three_listed : in_arr 3 (1 ∷ 3 ∷ []) ≡ true
unfolding in_arr
three_listed = refl

next_day_lem_example :
    (in_arr ((5 + days_to_add 5 (next_day 6 1 (1 ∷ 3 ∷ []))) % 7) (1 ∷ 3 ∷ []) ≡ true)
    × (turn 6 ((5 + days_to_add 5 (next_day 6 1 (1 ∷ 3 ∷ []))) % 7) ≤ turn 6 3)
    × (days_to_add 5 (next_day 6 1 (1 ∷ 3 ∷ [])) < 7)
    × (days_to_add 5 5 ≡ 0)
next_day_lem_example =
    next_day_lem 5 6 1 3 (3 ∷ []) (omega arith) (omega arith) (omega arith) (omega arith)
      (omega arith) three_listed
