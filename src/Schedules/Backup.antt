-- ===== src/Schedules/Backup.antt =====
-- webui/js/events.js: `saveScheduleBackup`. A system is kept with its disks, each with its check box;
-- a whole-host job has hosts, and a keyword takes the place of both.
pub mod Sources
pub mod Loaded
use alike.Base.{
  ℕ, String, List, [], ◌∷◌, map, Bool, true, false, ◌&&◌, Option, some, none, ltb, ◌==◌,
  if◌then◌else◌, length, str_eq, not, filter, any,
}
use alike.Schedules.{
  Awaited, Step, show_line_load, request, no_systems, flag, clamped_min, after_rep,
}

pub record Target : Type 0 where
  pub uuid : String
  -- the disks with their check boxes
  pub disks : List (String × Bool)

pub data Source : Type 0 where
  vm : String → List String → Source
  host : String → Source

pub record BackupForm : Type 0 where
  pub targets : List Target
  pub hosts : List String
  pub keyword : String
  pub use_tags : Bool
  pub schedule_name : String
  -- the selections, `none` where nothing is selected
  pub sched_freq : Option ℕ
  pub sched_hour : ℕ
  pub sched_min : ℕ
  pub sched_interval : Option ℕ
  pub weekdays : List Bool
  pub sched_monthday : ℕ
  pub qhb : Bool
  pub cbt : Bool
  pub disk_mem : Bool
  pub force_full : Bool
  pub num_concurrent : ℕ
  pub enable_vault : Bool
  pub email_level : ℕ
  pub use_gfs : Bool
  pub gfs_profile : ℕ
  pub sched_a3id : String

pub record BackupArgs : Type 0 where
  pub id : String
  pub name : String
  pub policy_type : ℕ
  pub keyword : Option String
  pub sources : List Source
  pub job_type : ℕ
  pub stype : Option ℕ
  pub hour : ℕ
  pub min : ℕ
  pub interval : Option ℕ
  pub days : List Bool
  pub monthday : ℕ
  pub method : String
  pub cbt : ℕ
  pub diskmem : ℕ
  pub forcefull : ℕ
  pub concurrent : ℕ
  pub vault : ℕ
  pub email : ℕ
  pub gfs : Option ℕ

-- the loop over the check boxes that are checked
unfoldable pub checked_ids : List (String × Bool) → List String
checked_ids [] = []
checked_ids ((id, checked) ∷ disks) = if checked then id ∷ checked_ids disks else checked_ids disks

abbrev pub all_checked : List (String × Bool) → Bool
all_checked disks = not (any (λ d. not d.1) disks)

unfoldable pub volumes : Target → List String
unfolding checked_ids
volumes t = if all_checked t.disks then [] else checked_ids t.disks

abbrev vm_source : Target → Source
vm_source t = vm t.uuid (volumes t)

-- the hosts are read only if there are no systems
unfoldable pub backup_sources : BackupForm → List Source
unfolding volumes
backup_sources f =
    if length f.targets == 0 then map (λ h. host h) f.hosts else map vm_source f.targets

unfoldable pub policy_type : BackupForm → ℕ
policy_type f =
    if not (str_eq f.keyword "")
    then (if f.use_tags then 3 else 2)
    else if (length f.targets == 0) && ltb 0 (length f.hosts)
    then 1
    else 0

unfoldable pub backup_args : String → BackupForm → BackupArgs
unfolding backup_sources policy_type
backup_args sched_id f = record {
  id = sched_id;
  name = f.schedule_name;
  policy_type = policy_type f;
  keyword = if str_eq f.keyword "" then none else some f.keyword;
  sources = backup_sources f;
  job_type = 0;
  stype = f.sched_freq;
  hour = f.sched_hour;
  min = clamped_min f.sched_min;
  interval = f.sched_interval;
  days = f.weekdays;
  monthday = f.sched_monthday;
  method = if f.qhb then "qhb" else "enh";
  cbt = flag f.cbt;
  diskmem = flag f.disk_mem;
  forcefull = flag f.force_full;
  concurrent = f.num_concurrent;
  vault = flag f.enable_vault;
  email = f.email_level;
  gfs = if f.use_gfs && ltb 0 f.gfs_profile then some f.gfs_profile else none;
}

unfoldable pub save_schedule_backup : String → BackupForm → Awaited → List (Step BackupArgs)
unfolding backup_sources backup_args
save_schedule_backup sched_id f w =
    if str_eq f.keyword "" && (length (backup_sources f) == 0)
    then no_systems
    else show_line_load ∷ request (backup_args sched_id f) f.sched_a3id ∷ after_rep w
