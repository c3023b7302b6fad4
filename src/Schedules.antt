-- ===== src/Schedules.antt =====
-- webui/js/events.js: `saveScheduleRep`, `saveScheduleRestore` and, in Schedules/Backup,
-- `saveScheduleBackup`, which read the form of a
-- schedule, send it to the web service and show how that went. The form's fields are arguments,
-- an hour and a minute whole numbers, and so is what the awaited request comes to.
pub mod Saved
pub mod Backup
pub mod Adding
pub mod Picking
pub mod Options
pub mod Edited
pub mod Table
pub mod Created
mod Tests
use alike.Base.{
  ℕ, String, List, [], ◌∷◌, ◌++◌, Bool, true, false, ◌&&◌, Option, some, none, ltb, ◌==◌,
  if◌then◌else◌, length, str_eq,
}

-- an item of the list of systems; a replication has no `timestamp`
pub record Source : Type 0 where
  pub uuid : String
  pub dest_uuid : String
  pub sr : String
  pub timestamp : Option ℕ
  pub network : String

pub record Form : Type 0 where
  pub targets : List Source
  pub processor : String
  pub delete_backup : Bool
  pub snap_replica : Bool
  pub preserve_mac : Bool
  pub boot_target : Bool
  pub enable_cache : Bool
  pub cbt : Bool
  pub qhb : Bool
  pub schedule_name : String
  pub sched_freq : ℕ
  pub sched_hour : ℕ
  pub sched_min : ℕ
  pub sched_interval : ℕ
  pub weekdays : List Bool
  pub sched_monthday : ℕ
  pub num_concurrent : ℕ
  pub email_level : ℕ
  pub use_gfs : Bool
  pub gfs_profile : ℕ
  pub sched_a3id : String

-- the settings that only a replication has
pub record Replication : Type 0 where
  pub method : String
  pub delete_backup : ℕ
  pub snap_replica : ℕ
  pub preserve_mac : ℕ
  pub enable_cache : ℕ
  pub do_cbt : ℕ
  pub qhb : ℕ
  pub monthday : ℕ
  pub gfs : Option ℕ

pub record Args : Type 0 where
  pub job_type : ℕ
  pub sources : List Source
  pub boot_target : ℕ
  pub id : String
  pub name : String
  pub policy_type : ℕ
  pub stype : ℕ
  pub hour : ℕ
  pub min : ℕ
  pub interval : ℕ
  pub days : List Bool
  pub concurrent : ℕ
  pub email : ℕ
  pub replication : Option Replication

unfoldable pub flag : Bool → ℕ
flag b = if b then 1 else 0

-- for an hour above 23 the source sets `min`, and then sets it again
pub clamped_min : ℕ → ℕ
clamped_min m = if ltb 59 m then 59 else m

unfoldable pub rep_args : String → Form → Args
unfolding flag clamped_min
rep_args sched_id f = record {
  job_type = 5;
  sources = f.targets;
  boot_target = flag f.boot_target;
  id = sched_id;
  name = f.schedule_name;
  policy_type = 0;
  stype = f.sched_freq;
  hour = f.sched_hour;
  min = clamped_min f.sched_min;
  interval = f.sched_interval;
  days = f.weekdays;
  concurrent = f.num_concurrent;
  email = f.email_level;
  replication = some record {
    method = f.processor;
    delete_backup = flag f.delete_backup;
    snap_replica = flag f.snap_replica;
    preserve_mac = flag f.preserve_mac;
    enable_cache = flag f.enable_cache;
    do_cbt = flag f.cbt;
    qhb = flag f.qhb;
    monthday = f.sched_monthday;
    gfs = if f.use_gfs && ltb 0 f.gfs_profile then some f.gfs_profile else none;
  };
}

pub restore_args : String → Form → Args
unfolding flag
restore_args sched_id f = record {
  job_type = 1;
  sources = f.targets;
  boot_target = flag f.boot_target;
  id = sched_id;
  name = f.schedule_name;
  policy_type = 0;
  stype = f.sched_freq;
  hour = 0;
  min = 0;
  interval = 0;
  days = [];
  concurrent = f.num_concurrent;
  email = f.email_level;
  replication = none;
}

-- the awaited request: an answer with the schedule's id, if it has one, an exception with its
-- message, if it has one, or nothing, when the promise stays pending
pub data Awaited : Type 0 where
  fulfilled : Option String → Awaited
  thrown : Option String → Awaited
  unsettled : Awaited

pub data Step (A : Type 0) : Type 0 where
  show_line_load finish_line_load draw_schedules_table : Step A
  -- the text, if there is one, the title and the kind
  toast : Option String → String → String → Step A
  -- "schedule/set" with its arguments, to a site
  request : A → String → Step A
  run_schedule : String → String → Step A

abbrev pub no_systems : {A : Type 0} → List (Step A)
no_systems =
    show_line_load
    ∷ toast (some "No systems defined.  Please add at least 1 system to protect.")
        "Could not save Job!" "warning"
    ∷ finish_line_load
    ∷ []

abbrev failed_to_save : {A : Type 0} → Option String → List (Step A)
failed_to_save message = toast message "Failed to Save Schedule!" "error" ∷ finish_line_load ∷ []

unfoldable pub after_rep : {A : Type 0} → Awaited → List (Step A)
after_rep (fulfilled id) = draw_schedules_table ∷ finish_line_load ∷ []
after_rep (thrown message) = failed_to_save message
after_rep unsettled = []

unfoldable pub save_schedule_rep : String → Form → Awaited → List (Step Args)
unfolding after_rep
save_schedule_rep sched_id f w =
    if length f.targets == 0
    then no_systems
    else show_line_load ∷ request (rep_args sched_id f) f.sched_a3id ∷ after_rep w

-- a restore of type 5 is run at once
unfoldable pub after_restore : Form → Awaited → List (Step Args)
after_restore f (fulfilled none) = draw_schedules_table ∷ finish_line_load ∷ []
after_restore f (fulfilled (some id)) =
    if f.sched_freq == 5
    then run_schedule id f.sched_a3id ∷ finish_line_load ∷ []
    else draw_schedules_table ∷ finish_line_load ∷ []
after_restore f (thrown message) = failed_to_save message
after_restore f unsettled = []

unfoldable pub save_schedule_restore : String → Form → Awaited → List (Step Args)
unfolding after_restore
save_schedule_restore sched_id f w =
    if length f.targets == 0
    then no_systems
    else show_line_load ∷ request (restore_args sched_id f) f.sched_a3id ∷ after_restore f w
