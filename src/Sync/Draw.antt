-- ===== src/Sync/Draw.antt =====
-- webui/js/a3.js, `drawJoblog`: the page of a job's log, drawn from the answer or, if the page shows the
-- job already, synced with it. There are two settings: those of a page that is drawn, whose traces
-- a cookie hides, and those of the page that stands, whose traces its switch hides.
pub mod Systems
pub mod Polls
pub mod Details
use alike.Base.{
  ℕ, ℤ, String, List, [], ◌∷◌, ◌++◌, map, pos, negsuc, Bool, true, false, not, ◌&&◌, ◌||◌, Option,
  some, none, ◌==◌, leb, if◌then◌else◌, str_eq, length, ◌<>◌,
}
use alike.Status.Value.{Value, to_number, equals_number}
use alike.Status.Job.{get_state_class, get_job_log_entry_status_desc}
use alike.Sync.{
  Settings, Entry, Row, Page, VmEntries, JobData, row_of, progress_texts, polls_again, sync_joblog,
}

pub record Answer : Type 0 where
  pub result : String
  pub message : String
  pub job_id : String
  pub type : ℕ
  pub has_timestamp : Bool
  pub job : JobData

-- the window: whether it shows a log, of which job, with which rows and texts
pub record Window : Type 0 where
  pub is_viewing : Bool
  pub job_id : Option String
  pub page : Page
  pub progress : List (String × String × String)

pub data Effect : Type 0 where
  toast : String → String → String → Effect
  finish_line_load clear_timer set_job_cache slide_open poll : Effect
  -- the key under which the answer is kept in the storage
  keep_answer : String → Effect

-- `status >= n`
unfoldable pub at_least : ℕ → Value → Bool
at_least n v = elim (to_number v) [
  | none ↦ false
  | some (pos m) ↦ leb n m
  | some (negsuc m) ↦ false
]

-- the row of an entry of the system
unfoldable pub system_row : Settings → Entry → String × Row
system_row set e = (
  "joblog-systems",
  record {
    id = e.id;
    cls = if equals_number e.status (pos 4) then "trace" else "";
    is_hidden = equals_number e.status (pos 4) && not set.show_trace;
    ts = some e.timestamp;
    date = set.get_date e.timestamp;
    state_class = get_state_class e.status;
    state = get_job_log_entry_status_desc set.get_text e.status;
    message = e.description;
  },
)

-- the rows below the header of a system of the job
pub vm_rows : Settings → String → List VmEntries → List (String × Row)
vm_rows set id [] = []
vm_rows set id (vme ∷ vmes) =
    if str_eq vme.id id
    then map (λ e. ("vmd_" <> id, row_of set true e)) vme.entries ++ vm_rows set id vmes
    else vm_rows set id vmes

pub all_vm_rows : Settings → List (String × String × ℤ) → List VmEntries → List (String × Row)
unfolding vm_rows
all_vm_rows set [] vmes = []
all_vm_rows set (v ∷ vs) vmes = vm_rows set v.0 vmes ++ all_vm_rows set vs vmes

-- a job on the appliance itself has no systems
pub has_systems : ℕ → Bool
has_systems type = not (type == 10) && not (type == 200) && not (type == 201)

unfoldable pub drawn_page : Settings → Answer → Page
unfolding system_row all_vm_rows has_systems
drawn_page set a =
    let systems = map (system_row set) a.job.system_entries in
    if has_systems a.type
    then record {
      tables = "joblog-systems" ∷ map (λ v. "vmd_" <> v.0) a.job.vms_in_job;
      rows = systems ++ all_vm_rows set a.job.vms_in_job a.job.vm_entries;
    }
    else record { tables = "joblog-systems" ∷ []; rows = systems }

abbrev when : Bool → Effect → List Effect
when b e = if b then e ∷ [] else []

-- what stands before the page is drawn or synced
unfoldable pub begun : String → Answer → List Effect
unfolding at_least
begun site a =
    clear_timer ∷ []
    ++ when (at_least 4 a.job.status) (keep_answer ("jobid_" <> site <> "_" <> a.job_id))
    ++ when a.has_timestamp set_job_cache

abbrev is_shown : Window → Answer → Bool
is_shown w a = elim w.job_id [ none ↦ false | some id ↦ str_eq id a.job_id ]

-- `clear_timer` stands for a timer that there may be
pub draw_joblog : Settings → Settings → String → Answer → Window → Window × List Effect
unfolding begun drawn_page has_systems
draw_joblog fresh current site a w =
    if not (str_eq a.result "success")
    then (w, toast a.message "Failed to get job details" "error" ∷ finish_line_load ∷ [])
    else if not w.is_viewing
    then (w, clear_timer ∷ [])
    else if is_shown w a
    then (
      record w {
        page = (sync_joblog current a.job w.page).0;
        progress = (sync_joblog current a.job w.page).1;
      },
      begun site a ++ set_job_cache ∷ [] ++ when (sync_joblog current a.job w.page).2 poll,
    )
    else (
      record {
        is_viewing = true;
        job_id = some a.job_id;
        page = drawn_page fresh a;
        progress = if has_systems a.type then progress_texts a.job else [];
      },
      begun site a
          ++ when (length a.job.vms_in_job == 1) slide_open
          ++ finish_line_load ∷ []
          ++ when (polls_again a.job) poll,
    )
