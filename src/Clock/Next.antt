-- ===== src/Clock/Next.antt =====
-- webui/js/utils.js, `getSchedNext`. The browser's dates are a type with the operations that the source
-- calls, whose setters return the changed date; an hour that is set is cut to a whole number. An
-- `interval` of 0 seconds is that of a schedule that runs once.
pub mod Days
mod Tests
use alike.Base.{
  ℕ, zero, suc, ◌+◌, ◌-◌, ◌*◌, ◌/◌, String, List, [], ◌∷◌, Bool, true, false, ◌&&◌, ltb, leb, ◌==◌,
  if◌then◌else◌, length,
}
use alike.Format.Texts.{in_arr}

pub record Dates (D : Type 0) : Type 0 where
  pub now : D
  -- `new Date(0)` with its seconds set
  pub of_seconds : ℕ → D
  pub get_time : D → ℕ
  pub get_full_year : D → ℕ
  pub get_month : D → ℕ
  pub get_date : D → ℕ
  pub get_day : D → ℕ
  pub get_hours : D → ℕ
  pub get_minutes : D → ℕ
  pub get_seconds : D → ℕ
  pub set_full_year : D → ℕ → D
  pub set_month : D → ℕ → D
  pub set_date : D → ℕ → D
  pub set_hours : D → ℕ → D
  pub set_minutes : D → ℕ → D
  pub set_seconds : D → ℕ → D

pub record Schedule : Type 0 where
  pub schedule_type : ℕ
  pub timestamp : ℕ
  pub days : List ℕ
  pub occurances : ℕ
  pub interval : ℕ

pub data Next (D : Type 0) : Type 0 where
  text : String → Next D
  at : D → Next D

-- the loop `for(var i=dd; i< 7; i++)`, with `todo` rounds left: the first of the days from `i` on
unfoldable pub day_from : ℕ → ℕ → List ℕ → ℕ → ℕ
day_from zero i days first = first
day_from (suc todo) i days first =
    let rest = day_from todo (i + 1) days first in if in_arr i days then i else rest

-- the next day of the week, where `first` is the first of the list
unfoldable pub next_day : ℕ → ℕ → List ℕ → ℕ
unfolding day_from
next_day dd first days = day_from (7 - dd) dd days first

-- how many days are added
unfoldable pub days_to_add : ℕ → ℕ → ℕ
days_to_add d next = if ltb next d then 7 - (d - next) else next - d

-- the hours that a run later on the day starts at: as many intervals are added to the hours of the
-- first one as have begun, or taken from them
unfoldable pub later_hours : ℕ → ℕ → ℕ → ℕ → ℕ
later_hours hours now_sec start_sec interval =
    if leb start_sec now_sec
    then (hours * 3600 + (now_sec - start_sec + interval - 1) / interval * interval) / 3600
    else (hours * 3600 - (start_sec - now_sec) / interval * interval) / 3600

module _ {D : Type 0} (dates : Dates D) (get_text : String → String) where
  unfoldable pub seconds_of_day : D → ℕ
  seconds_of_day t = dates.get_hours t * 3600 + dates.get_minutes t * 60

  later_today : Schedule → D → D
  unfolding later_hours seconds_of_day
  later_today s date =
      let t = dates.set_full_year date (dates.get_full_year dates.now) in
      let u = dates.set_date t (dates.get_date dates.now) in
      let v = dates.set_month u (dates.get_month dates.now) in
      dates.set_hours v (
        later_hours (dates.get_hours date) (seconds_of_day dates.now) (seconds_of_day date)
          s.interval)

  -- now at the schedule's time of day
  unfoldable pub today_at : D → D
  today_at date =
      dates.set_seconds
        (dates.set_minutes (dates.set_hours dates.now (dates.get_hours date))
          (dates.get_minutes date))
        (dates.get_seconds date)

  unfoldable pub other_day : ℕ → List ℕ → D → D
  unfolding next_day days_to_add today_at seconds_of_day
  other_day first days date =
      let d = dates.get_day dates.now in
      let dd = if ltb (seconds_of_day date) (seconds_of_day dates.now) then d + 1 else d in
      dates.set_date (today_at date)
        (dates.get_date (today_at date) + days_to_add d (next_day dd first days))

  -- a daily schedule on these days
  unfoldable pub next_daily : Schedule → D → Next D
  unfolding later_today other_day seconds_of_day
  next_daily s date = elim s.days [
    | [] ↦ text "Never"
    | first ∷ rest ↦
        let is_today = in_arr (dates.get_day dates.now) s.days in
        if is_today && ltb (dates.get_time dates.now) (dates.get_time date)
        then at date
        else if is_today
            && ltb 1 s.occurances
            && ltb (seconds_of_day dates.now) (seconds_of_day date + s.occurances * s.interval)
        then at (later_today s date)
        else at (other_day first s.days date)
  ]

  unfoldable pub get_sched_next : Schedule → Next D
  unfolding next_daily
  get_sched_next s =
      let date = dates.of_seconds s.timestamp in
      if s.schedule_type == 4
      then text "N/A"
      else if ltb s.timestamp 60000000
      then text (get_text "never")
      else if s.schedule_type == 0
      then next_daily s date
      else if s.schedule_type == 1
      then at (
          dates.set_date date (
            if ltb (dates.get_date date) (dates.get_date dates.now)
            then dates.get_date date + 1
            else dates.get_date date))
      else at date
