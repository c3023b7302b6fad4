-- ===== src/Sync.antt =====
-- webui/js/a3.js, `syncJoblog`: how the log of a job that runs is brought up to date. The page is its
-- tables, and the rows that stand in them: those of a table stand in the order of the list. A row
-- without `data-ts` has no time. The head of the job and `job_cache` are left out.
pub mod Rows
pub mod Settled
pub mod Shown
pub mod Unique
pub mod Draw
mod Tests
use alike.Base.{
  ℕ, String, List, [], ◌∷◌, ◌++◌, ℤ, pos, Bool, true, false, not, ◌&&◌, ◌||◌, Option, some, none,
  ◌==◌, ltb, if◌then◌else◌, str_eq, any, length, codes, contains, ◌<>◌, map,
}
use alike.Status.Value.{Value, str, equals_number}
use alike.Status.Job.{get_state_class, get_job_log_entry_status_desc}
use alike.Jobs.{make_vm_pb, make_vm_pb_status}

pub record Entry : Type 0 where
  pub id : String
  pub timestamp : ℕ
  pub status : Value
  pub description : String

pub record Row : Type 0 where
  pub id : String
  pub cls : String
  pub is_hidden : Bool
  pub ts : Option ℕ
  pub date : String
  pub state_class : String
  pub state : String
  pub message : String

pub record Page : Type 0 where
  pub tables : List String
  -- each row with the table in which it stands
  pub rows : List (String × Row)

-- what the page reads besides the answer: a date's text, `getText`, and whether traces are shown
pub record Settings : Type 0 where
  pub get_date : ℕ → String
  pub get_text : String → String
  pub show_trace : Bool

-- `$("#" + id)` is the first element with that id
unfoldable pub find_row : String → List (String × Row) → Option Row
find_row id [] = none
find_row id ((t, r) ∷ rows) = if str_eq r.id id then some r else find_row id rows

unfoldable pub replace_row : String → Row → List (String × Row) → List (String × Row)
replace_row id new [] = []
replace_row id new ((t, r) ∷ rows) =
    if str_eq r.id id then (t, new) ∷ rows else (t, r) ∷ replace_row id new rows

-- nothing is appended to a table that is not there
unfoldable pub append_row : String → Row → Page → Page
append_row table r p =
    if any (str_eq table) p.tables
    then record { tables = p.tables; rows = p.rows ++ (table, r) ∷ [] }
    else p

-- an entry that is active is always updated, another if its time is not that of the row
unfoldable pub needs_update : Row → Entry → Bool
needs_update r e =
    equals_number e.status (pos 3) || elim r.ts [ none ↦ true | some t ↦ not (t == e.timestamp) ]

-- the row of an entry; only one of a system, `is_vm`, keeps the time
unfoldable pub row_of : Settings → Bool → Entry → Row
row_of set is_vm e = record {
  id = e.id;
  cls =
      if equals_number e.status (pos 3)
      then "active_task"
      else if equals_number e.status (pos 4)
      then "trace"
      else "";
  is_hidden = equals_number e.status (pos 4) && not set.show_trace;
  ts = if is_vm then some e.timestamp else none;
  date = set.get_date e.timestamp;
  state_class = get_state_class e.status;
  state = get_job_log_entry_status_desc set.get_text e.status;
  message = e.description;
}

unfoldable pub sync_entry : Settings → Bool → String → Entry → Page → Page
unfolding find_row replace_row append_row needs_update row_of
sync_entry set is_vm table e p = elim (find_row e.id p.rows) [
  | none ↦ append_row table (row_of set is_vm e) p
  | some r ↦
      if needs_update r e
      then record { tables = p.tables; rows = replace_row e.id (row_of set is_vm e) p.rows }
      else p
]

unfoldable pub sync_entries : Settings → Bool → String → List Entry → Page → Page
unfolding sync_entry
sync_entries set is_vm table [] p = p
sync_entries set is_vm table (e ∷ es) p =
    sync_entries set is_vm table es (sync_entry set is_vm table e p)

-- a system of the job with its entries
pub record VmEntries : Type 0 where
  pub id : String
  pub entries : List Entry

unfoldable pub sync_vms : Settings → List VmEntries → Page → Page
unfolding sync_entries
sync_vms set [] p = p
sync_vms set (vme ∷ vmes) p =
    sync_vms set vmes (sync_entries set true ("vmd_" <> vme.id) vme.entries p)

find_vm : String → List VmEntries → Option VmEntries
find_vm id [] = none
find_vm id (vme ∷ vmes) = if str_eq vme.id id then some vme else find_vm id vmes

-- `status === '1'`
is_errored : Entry → Bool
is_errored e = elim e.status [ str s ↦ str_eq s "1" | _ ↦ false ]

has_errored : List Entry → Bool
unfolding is_errored
has_errored [] = false
has_errored (e ∷ es) = is_errored e || has_errored es

-- a system that has not made progress is pending or errored if its entries say so
pub vm_status : ℤ → Value → String → List VmEntries → String
unfolding find_vm has_errored
vm_status progress status id vmes =
    let st = make_vm_pb_status progress status in
    if contains (codes "Not Processed") (codes st) || contains (codes "Not Started") (codes st)
    then elim (find_vm id vmes) [
      | none ↦ st
      | some vme ↦
          if has_errored vme.entries
          then "[Errored]"
          else if ltb 1 (length vme.entries)
          then "[Pending]"
          else st
    ]
    else st

-- the answer on a job: its status, its systems with their progress, and the entries
pub record JobData : Type 0 where
  pub status : Value
  -- id, name and progress
  pub vms_in_job : List (String × String × ℤ)
  pub system_entries : List Entry
  pub vm_entries : List VmEntries

-- `#vmd_prog_st_` and `#vmd_prog_` of every system of the job
pub progress_texts : JobData → List (String × String × String)
unfolding vm_status
progress_texts d =
    map (λ v. (v.0, vm_status v.2 d.status v.0 d.vm_entries, make_vm_pb v.2 d.status)) d.vms_in_job

-- whether the log is asked for again
pub polls_again : JobData → Bool
polls_again d =
    equals_number d.status (pos 2)
    || equals_number d.status (pos 3)
    || equals_number d.status (pos 0)

-- the page, the texts of the systems' progress, and whether the log is asked for again
unfoldable pub sync_joblog :
    Settings → JobData → Page → Page × List (String × String × String) × Bool
unfolding sync_entries sync_vms progress_texts polls_again
sync_joblog set d p = (
  sync_vms set d.vm_entries (sync_entries set false "joblog-systems" d.system_entries p),
  progress_texts d,
  polls_again d,
)
