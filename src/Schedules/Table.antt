-- ===== src/Schedules/Table.antt =====
-- webui/js/a3.js: `populateSchedules`, the rows of the table of schedules. The browser's dates, its
-- time zone and the texts of the console are parameters.
pub mod Listed
mod Tests
use alike.Base.{
  ℕ, ◌+◌, ◌/◌, String, List, [], ◌∷◌, pos, Bool, true, false, not, ◌&&◌, ◌||◌, Option, some, none,
  ltb, ◌==◌, if◌then◌else◌, str_eq,
}
use alike.Status.Value.{Value, num, equals_number}
use alike.Status.File.{is_checked_bool}
use alike.Status.Job.{get_job_type_icon}
use alike.Storage.{A3, Storage}
use alike.Pools.{get_a3_from_id}
use alike.Clock.{get_date, get_schedule_time}
use alike.Clock.Next.{Dates, Schedule, Next, text, at, get_sched_next}

pub record Stored : Type 0 where
  pub schedule_id : String
  pub name : String
  pub job_type : ℕ
  pub state : Value
  pub lastran : ℕ
  pub schedule : Schedule

pub record Row : Type 0 where
  pub schedule_id : String
  pub site : String
  pub job_type : ℕ
  pub name : String
  pub a3_name : String
  pub icon : String
  pub type_text : String
  pub status_text : String
  pub time : String
  pub last : String
  pub next : String

-- the table that is drawn, the toast of an answer that is no success, or a TypeError
pub data Drawn : Type 0 where
  table : List Row → Drawn
  failed : String → Drawn
  type_error : Drawn

-- runs at once of restores, and jobs of the system
unfoldable pub is_left_out : Stored → Bool
is_left_out s =
    (s.schedule.schedule_type == 5 && s.job_type == 1)
    || s.job_type == 100
    || s.job_type == 101
    || s.job_type == 200
    || s.job_type == 201

unfoldable pub type_text : ℕ → String
type_text job_type =
    if job_type == 0
    then "Backup"
    else if job_type == 1
    then "Full Restore"
    else if job_type == 5
    then "Replication"
    else ""

unfoldable pub status_text : Stored → String
status_text s =
    if s.schedule.schedule_type == 4
    then "<b>Manual</b>"
    else if equals_number s.state (pos 0)
    then "<i>Scheduling Paused</i>"
    else "Scheduling Enabled"

unfoldable pub drawn : Option (List Row) → Drawn
drawn none = type_error
drawn (some rows) = table rows

-- a row, unless what it is made of or the rows behind it end with a TypeError
unfoldable pub add_row :
    Option A3 → Option String → (A3 → String → Row) → Option (List Row) → Option (List Row)
add_row none next row rest = none
add_row (some a) none row rest = none
add_row (some a) (some next) row none = none
add_row (some a) (some next) row (some rows) = some (row a next ∷ rows)

module _ {D : Type 0} (dates : Dates D) (get_text : String → String) (local_time : ℕ → ℕ × ℕ)
    (local_day : ℕ → ℕ × ℕ × ℕ) (twelve : Bool) (locale_date : ℕ → String) where
  abbrev date_text : ℕ → String
  date_text epoch = get_date local_time local_day twelve locale_date epoch true

  -- a text other than "Never" has no `getTime`
  unfoldable pub next_date : Next D → Option String
  next_date (text t) = if str_eq t "Never" then some "Never" else none
  next_date (at d) = some (date_text (dates.get_time d / 1000))

  unfoldable pub next_text : Stored → Option String
  unfolding next_date
  next_text s =
      if is_checked_bool s.state && not (s.schedule.schedule_type == 4)
      then next_date (get_sched_next dates get_text s.schedule)
      else some "N/A"

  unfoldable pub row_of : Stored → String → A3 → String → Row
  unfolding type_text status_text
  row_of s site a3 next = record {
    schedule_id = s.schedule_id;
    site = site;
    job_type = s.job_type;
    name = s.name;
    a3_name = a3.name;
    icon = get_job_type_icon (num (pos s.job_type));
    type_text = type_text s.job_type;
    status_text = status_text s;
    time =
        get_schedule_time local_time local_day twelve get_text s.schedule.schedule_type
          s.schedule.timestamp;
    last = if ltb 1 s.lastran then date_text s.lastran else "N/A";
    next = next;
  }

  -- the loop, which a TypeError ends
  unfoldable pub rows_of : Option A3 → String → List Stored → Option (List Row)
  unfolding next_text row_of is_left_out add_row
  rows_of a3 site [] = some []
  rows_of a3 site (s ∷ l) =
      let rest = rows_of a3 site l in
      if is_left_out s then rest else add_row a3 (next_text s) (row_of s site) rest

  unfoldable pub populate_schedules : Bool → String → List Stored → String → Storage → Drawn
  unfolding rows_of drawn
  populate_schedules is_success message schedules site storage =
      if is_success
      then drawn (rows_of (get_a3_from_id site storage) site schedules)
      else failed message
