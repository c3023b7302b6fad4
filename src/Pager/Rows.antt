-- ===== src/Pager/Rows.antt =====
-- webui/js/a3.js, `drawJobsTable`: the rows of the table of jobs and the note in place of it. The
-- texts of the console and the parts of a local date are parameters; a progress is a whole number
-- or no number.
use alike.Base.{
  ℕ, String, List, [], ◌∷◌, map, ℤ, pos, Bool, true, false, not, ◌||◌, ◌&&◌, Option, some, none,
  if◌then◌else◌,
}
use alike.Status.Value.{Value, undefined, null, to_number}
use alike.Status.Job.{get_status_desc, get_job_type_icon, get_job_type_desc}
use alike.Service.{is_numeric}
use alike.Jobs.{status_is, make_pb}
use alike.Format.Texts.{snip_string}
use alike.Format.Size.{pretty_size}
use alike.Format.Duration.{time_elapsed}
use alike.Clock.{get_date}

pub record Listed : Type 0 where
  pub job_id : String
  pub a3id : String
  pub a3_name : String
  pub name : List ℕ
  pub status : Value
  pub type : Value
  pub progress : Value
  pub time_begin : ℕ
  pub elapsed : ℕ
  pub total_size : Option ℕ
  pub final_size : Option ℕ

-- `bar`: the text of the bar, where there is one; `deletable`: the row has the icon for a deletion
pub record Row : Type 0 where
  pub job_id : String
  pub site : String
  pub name : List ℕ
  pub a3_name : String
  pub badge : String
  pub desc : Option String
  pub bar : String
  pub icon : String
  pub type_desc : String
  pub started : String
  pub total_time : String
  pub job_size : String
  pub stored : String
  pub deletable : Bool

pub data Shown : Type 0 where
  rows : List Row → Shown
  note : String → Shown

unfoldable pub is_active : Value → Bool
is_active s = status_is "active" s || status_is "activeWithErrors" s

-- `stat`
unfoldable pub badge_of : Value → String
unfolding is_active
badge_of s =
    if status_is "failed" s
    then "bg-danger"
    else if is_active s
    then "bg-active"
    else if status_is "errored" s
    then "bg-errored"
    else if status_is "cancelled" s
    then "bg-warning"
    else "bg-success"

-- `s == JobStatus.error`, which is undefined
unfoldable pub is_undefined : Value → Bool
is_undefined undefined = true
is_undefined null = true
is_undefined _ = false

-- `pg`, which is 1 for what is no number
unfoldable pub shown_progress : Value → ℤ
shown_progress v = elim (to_number v) [ some n ↦ if is_numeric v then n else pos 1 | none ↦ pos 1 ]

unfoldable pub bar_of : Listed → String
unfolding is_undefined shown_progress badge_of
bar_of r =
    if not (status_is "complete" r.status) && not (is_undefined r.status)
    then make_pb (shown_progress r.progress) (some (badge_of r.status))
    else ""

module _ (get_text : String → String) (local_time : ℕ → ℕ × ℕ) (local_day : ℕ → ℕ × ℕ × ℕ)
    (twelve : Bool) (locale_date : ℕ → String) where
  unfoldable pub row_of : Listed → Row
  unfolding badge_of bar_of is_active
  row_of r = record {
    job_id = r.job_id;
    site = r.a3id;
    name = snip_string r.name 64;
    a3_name = r.a3_name;
    badge = badge_of r.status;
    desc = get_status_desc get_text r.status;
    bar = bar_of r;
    icon = get_job_type_icon r.type;
    type_desc = get_job_type_desc get_text r.type;
    started = get_date local_time local_day twelve locale_date r.time_begin true;
    total_time = time_elapsed r.elapsed;
    job_size = pretty_size r.total_size;
    stored = pretty_size r.final_size;
    deletable = not (is_active r.status);
  }

  -- the page under its title; `act` tells whether it has only the jobs that are running
  unfoldable pub jobs_table : Bool → List Listed → Shown
  unfolding row_of
  jobs_table act [] =
      note (if act then "There are no jobs running currently." else "No jobs have been run yet!")
  jobs_table act (j ∷ jobs) = rows (map row_of (j ∷ jobs))
