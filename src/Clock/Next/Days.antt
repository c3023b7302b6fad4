-- ===== src/Clock/Next/Days.antt =====
-- Which day comes next.
use alike.Base.{
  ℕ, zero, suc, ◌+◌, ◌-◌, ◌%◌, ◌≤◌, ◌<◌, String, List, [], ◌∷◌, true, ◌≡◌, inl, inr, refl, ap, ◌∙◌,
  arith, ltb, ==_iff, Bool-cases, ◌⊎◌, ◌==◌, if◌then◌else◌,
}
use alike.Format.Texts.{in_arr}
use alike.Clock.Next.{
  Dates, Schedule, at, day_from, next_day, days_to_add, seconds_of_day, today_at, other_day,
  next_daily, get_sched_next,
}

in_arr-here : (first : ℕ) (rest : List ℕ) → in_arr first (first ∷ rest) ≡ true
unfolding in_arr
in_arr-here first rest = ground (arith, ==_iff first first)

day_from_lem :
    (todo i first : ℕ) (rest : List ℕ)
    → i + todo ≤ 7
    → first < 7
    → (in_arr (day_from todo i (first ∷ rest) first) (first ∷ rest) ≡ true)
      × (day_from todo i (first ∷ rest) first < 7)
unfolding day_from
day_from_lem zero i first rest h f = (in_arr-here first rest, f)
day_from_lem (suc todo) i first rest h f =
    let (there, below) = day_from_lem todo (i + 1) first rest (omega arith) f in
    elim (Bool-cases (in_arr i (first ∷ rest))) [
      | inl e ↦ rw e (e, omega arith)
      | inr e ↦ rw e (there, below)
    ]

weekday_after :
    (d next : ℕ)
    → d < 7
    → next < 7
    → ((d + days_to_add d next) % 7 ≡ next) × (days_to_add d next < 7)
unfolding days_to_add
weekday_after d next h k = elim (Bool-cases (ltb next d)) [
  | inl e ↦ rw (e, days_to_add) (ground arith, ground arith)
  | inr e ↦ rw (e, days_to_add) (ground arith, ground arith)
]

-- the loop ends at a day from where it begins on, which no day of the list that it passes precedes, or
-- with the first of the list
from_or_first :
    (todo i first : ℕ) (days : List ℕ)
    → (i ≤ day_from todo i days first) ⊎ (day_from todo i days first ≡ first)
unfolding day_from
from_or_first zero i first days = inr refl
from_or_first (suc todo) i first days = elim (Bool-cases (in_arr i days)) [
  | inl e ↦ inl (rw e (omega arith))
  | inr e ↦ elim (from_or_first todo (i + 1) first days) [
    | inl h ↦ inl (rw e (omega arith))
    | inr h ↦ inr (rw e h)
  ]
]

none_before :
    (todo i first x : ℕ) (days : List ℕ)
    → i ≤ x
    → x < i + todo
    → in_arr x days ≡ true
    → (i ≤ day_from todo i days first) × (day_from todo i days first ≤ x)
unfolding day_from
none_before zero i first x days h k there = absurd (omega arith)
none_before (suc todo) i first x days h k there = elim (Bool-cases (in_arr i days)) [
  | inl e ↦ rw e (omega arith, h)
  | inr e ↦ elim (Bool-cases (i == x)) [
    | inl same ↦
        let e' : i ≡ x = (==_iff i x).0 same in
        absurd (ground (arith, e, there, ap (λ y. in_arr y days) e'))
    | inr other ↦
        let (after, before) =
          none_before todo (i + 1) first x days (ground (arith, ==_iff i x)) (omega arith) there in
        rw e (omega arith, before)
  ]
]

no_days : (d : ℕ) → days_to_add d d ≡ 0
unfolding days_to_add
no_days d = ground arith

-- where a day of the week comes in the seven that begin with `dd`
abbrev pub turn : ℕ → ℕ → ℕ
turn dd x = if ltb x dd then x + 7 else x

next_day-first :
    (dd first x : ℕ) (days : List ℕ)
    → dd ≤ 7
    → first < 7
    → x < 7
    → first ≤ x
    → in_arr x days ≡ true
    → day_from (7 - dd) dd days first < 7
    → turn dd (day_from (7 - dd) dd days first) ≤ turn dd x
next_day-first dd first x days k f l least there below = elim (Bool-cases (ltb x dd)) [
  | inl e ↦ elim (from_or_first (7 - dd) dd first days) [
    | inl h ↦ ground arith
    | inr h ↦ rw h (ground arith)
  ]
  | inr e ↦
      let (after, before) =
        none_before (7 - dd) dd first x days (ground arith) (ground arith) there in
      ground arith
]

-- The day that comes next, seen from the day `d` of the week and searched from the day `dd` on, is one
-- of the schedule's days, and the first of them in the seven days that begin with `dd`: for each day of
-- the schedule that the first of the list does not follow, it does not come later than that. It is
-- less than a week away from `d`; the day `d` itself is no day away, also where the search begins behind it.
pub next_day_lem :
    (d dd first x : ℕ) (rest : List ℕ)
    → d < 7
    → dd ≤ 7
    → first < 7
    → x < 7
    → first ≤ x
    → in_arr x (first ∷ rest) ≡ true
    → (in_arr ((d + days_to_add d (next_day dd first (first ∷ rest))) % 7) (first ∷ rest) ≡ true)
      × (turn dd ((d + days_to_add d (next_day dd first (first ∷ rest))) % 7) ≤ turn dd x)
      × (days_to_add d (next_day dd first (first ∷ rest)) < 7)
      × (days_to_add d d ≡ 0)
unfolding next_day
next_day_lem d dd first x rest h k f l least in_list =
    let (there, below) = day_from_lem (7 - dd) dd first rest (omega arith) f in
    let (e, less) = weekday_after d (day_from (7 - dd) dd (first ∷ rest) first) h below in
    (
      rw e there,
      rw e (next_day-first dd first x (first ∷ rest) k f l least in_list below),
      less,
      no_days d,
    )

none_left : (todo i first : ℕ) → first < i → day_from todo i (first ∷ []) first ≡ first
unfolding day_from in_arr
none_left zero i first h = refl
none_left (suc todo) i first h = ground (arith, none_left todo (i + 1) first, ==_iff first i)

same_day : (d : ℕ) → days_to_add d (next_day (d + 1) d (d ∷ [])) ≡ 0
unfolding next_day days_to_add
same_day d = rw (none_left (7 - (d + 1)) (d + 1) d (omega arith)) (ground arith)

module _ {D : Type 0} (dates : Dates D) (get_text : String → String) where
  is_daily :
      (s : Schedule)
      → s.schedule_type ≡ 0
      → 60000000 ≤ s.timestamp
      → get_sched_next dates get_text s ≡ next_daily dates get_text s (dates.of_seconds s.timestamp)
  unfolding get_sched_next
  is_daily s type late = ground arith

  is_over :
      (s : Schedule) (day : ℕ) (date : D)
      → s.days ≡ day ∷ []
      → s.occurances ≤ 1
      → dates.get_time date ≤ dates.get_time dates.now
      → next_daily dates get_text s date ≡ at (other_day dates get_text day (day ∷ []) date)
  unfolding next_daily
  is_over s day date days once past = rw (days, next_daily) (ground arith)

  no_day_added :
      (day : ℕ) (date : D)
      → dates.get_day dates.now ≡ day
      → seconds_of_day dates get_text date < seconds_of_day dates get_text dates.now
      → other_day dates get_text day (day ∷ []) date
        ≡ dates.set_date
            (today_at dates get_text date)
            (dates.get_date (today_at dates get_text date) + 0)
  unfolding other_day
  no_day_added day date today over = ground (arith, same_day (dates.get_day dates.now))

-- A daily schedule that runs once a day, on one day of the week, has on that day, when its first time and
-- its time of day are past, the same day as the next: no day is added.
pub get_sched_next-weekly :
    {D : Type 0} (dates : Dates D) (get_text : String → String) (s : Schedule) (day : ℕ)
    → s.schedule_type ≡ 0
    → 60000000 ≤ s.timestamp
    → s.days ≡ day ∷ []
    → s.occurances ≤ 1
    → dates.get_day dates.now ≡ day
    → dates.get_time (dates.of_seconds s.timestamp) ≤ dates.get_time dates.now
    → seconds_of_day dates get_text (dates.of_seconds s.timestamp)
      < seconds_of_day dates get_text dates.now
    → get_sched_next dates get_text s
      ≡ at (
          dates.set_date
            (today_at dates get_text (dates.of_seconds s.timestamp))
            (dates.get_date (today_at dates get_text (dates.of_seconds s.timestamp)) + 0))
get_sched_next-weekly dates get_text s day type late days once today past over =
    let date = dates.of_seconds s.timestamp in
    is_daily dates get_text s type late
    ∙ is_over dates get_text s day date days once past
    ∙ ap (λ t. at t) (no_day_added dates get_text day date today over)
