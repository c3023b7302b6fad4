-- ===== src/Schedules/Table/Listed.antt =====
-- Which schedules are listed, and when there is no table.
use alike.Base.{
  ℕ, String, List, [], ◌∷◌, map, Bool, true, false, not, ◌&&◌, Option, some, ◌≡◌, refl, ap, arith,
  ◌+◌, ◌*◌, ltb, ◌==◌, str_eq, filter, Bool-cases, inl, inr,
}
use alike.Status.File.{is_checked_bool}
use alike.Storage.{A3, Storage}
use alike.Pools.{get_a3_from_id}
use alike.Clock.Next.{Dates, Schedule, Next, text, at, get_sched_next, next_daily, seconds_of_day}
use alike.Format.Texts.{in_arr}
use alike.Schedules.Table.{
  Stored, Row, table, is_left_out, next_date, next_text, row_of, add_row, rows_of,
  populate_schedules, drawn,
}

abbrev pub listed : List Stored → List Stored
listed l = filter (λ s. not (is_left_out s)) l

-- a date, or the text that the table knows
data IsShown {D : Type 0} : Next D → Type 0 where
  a_date : (d : D) → IsShown (at d)
  never_again : (t : String) → str_eq t "Never" ≡ true → IsShown (text t)

module _ {D : Type 0} (dates : Dates D) (get_text : String → String)
    (never : get_text "never" ≡ "Never") where
  daily :
      (type timestamp occurances interval : ℕ) (days : List ℕ) (d : D)
      → IsShown (
          next_daily dates get_text
            (record {
              schedule_type = type;
              timestamp = timestamp;
              days = days;
              occurances = occurances;
              interval = interval;
            })
            d)
  unfolding next_daily
  daily type timestamp occurances interval [] d = never_again "Never" refl
  daily type timestamp occurances interval (first ∷ days) d =
      let is_today = in_arr (dates.get_day dates.now) (first ∷ days) in
      let now_sec = seconds_of_day dates get_text dates.now in
      let start_sec = seconds_of_day dates get_text d in
      elim (Bool-cases (is_today && ltb (dates.get_time dates.now) (dates.get_time d))) [
        | inl e ↦ rw e (a_date d)
        | inr e ↦
            elim (Bool-cases
              (is_today && ltb 1 occurances && ltb now_sec (start_sec + occurances * interval))) [
                | inl k ↦ rw (e, k) (a_date _)
                | inr k ↦ rw (e, k) (a_date _)
              ]
      ]

  get_sched_next-IsShown :
      (s : Schedule) → (s.schedule_type == 4) ≡ false → IsShown (get_sched_next dates get_text s)
  unfolding get_sched_next
  get_sched_next-IsShown s h = elim (Bool-cases (ltb s.timestamp 60000000)) [
    | inl e ↦ rw (h, e, never) (never_again "Never" refl)
    | inr e ↦ elim (Bool-cases (s.schedule_type == 0)) [
      | inl k ↦
          rw (h, e, k)
            (daily s.schedule_type s.timestamp s.occurances s.interval s.days
              (dates.of_seconds s.timestamp))
      | inr k ↦ elim (Bool-cases (s.schedule_type == 1)) [
        | inl m ↦ rw (h, e, k, m) (a_date _)
        | inr m ↦ rw (h, e, k, m) (a_date _)
      ]
    ]
  ]

  module _ (local_time : ℕ → ℕ × ℕ) (local_day : ℕ → ℕ × ℕ × ℕ) (twelve : Bool)
      (locale_date : ℕ → String) where
    abbrev rows : Option A3 → String → List Stored → Option (List Row)
    rows = rows_of dates get_text local_time local_day twelve locale_date

    date_shown :
        (n : Next D)
        → IsShown n
        → (t : String) × (next_date dates get_text local_time local_day twelve locale_date n
            ≡ some t)
    unfolding next_date
    date_shown _ (a_date d) = (_, refl)
    date_shown _ (never_again t e) = ("Never", rw e refl)

    next_shown :
        (s : Stored)
        → (t : String) × (next_text dates get_text local_time local_day twelve locale_date s
            ≡ some t)
    unfolding next_text
    next_shown s =
        elim (Bool-cases (is_checked_bool s.state && not (s.schedule.schedule_type == 4))) [
          | inl e ↦
              let (t, k) = date_shown _ (get_sched_next-IsShown s.schedule (ground arith)) in
              (t, rw e k)
          | inr e ↦ ("N/A", rw e refl)
        ]

    rows_listed :
        (a : A3) (site : String) (l : List Stored)
        → (rs : List Row) × (rows (some a) site l ≡ some rs)
          × (map (λ r. r.schedule_id) rs ≡ map (λ s. s.schedule_id) (listed l))
    unfolding rows_of row_of add_row
    rows_listed a site [] = ([], refl, refl)
    rows_listed a site (s ∷ l) =
        let (rs, e, k) = rows_listed a site l in
        elim (Bool-cases (is_left_out s)) [
          | inl out ↦ rw out (rs, e, k)
          | inr in_table ↦
              let (t, n) = next_shown s in
              rw in_table (
                row_of dates get_text local_time local_day twelve locale_date s site a t ∷ rs,
                rw (n, e) refl,
                ap (λ r. s.schedule_id ∷ r) k,
              )
        ]

    -- If the A3 is known and the text of the console for "never" is "Never", then a successful
    -- answer is drawn as a table with a row for each schedule, in order, except restores that run at
    -- once and the jobs of the system.
    pub populate_schedules-listed :
        (message : String) (l : List Stored) (site : String) (storage : Storage) (a : A3)
        → get_a3_from_id site storage ≡ some a
        → (rs : List Row) × (populate_schedules dates get_text local_time local_day twelve
              locale_date true message l site storage
            ≡ table rs)
          × (map (λ r. r.schedule_id) rs ≡ map (λ s. s.schedule_id) (listed l))
    unfolding populate_schedules drawn
    populate_schedules-listed message l site storage a known =
        let (rs, e, k) = rows_listed a site l in (rs, rw known (ap drawn e), k)
