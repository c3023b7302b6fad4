-- ===== src/Schedules/Backup/Loaded.antt =====
-- webui/js/a3.js: what `setSharedSched` and, of a system's disks, `editBackupSchedule` put into the form
-- of a schedule that is edited. A disk is its `data-id`. The hour and minute and the day of the
-- month of a number of seconds, in the browser's time zone, are parameters.
pub mod Again
pub mod Times
use alike.Base.{
  ℕ, String, List, [], ◌∷◌, map, Bool, true, false, not, ◌&&◌, ◌||◌, ◌==◌, if◌then◌else◌, length,
  Option, some, none, ltb, str_eq, any,
}
use alike.Schedules.Backup.{Target, BackupForm}

pub record Stored : Type 0 where
  pub id : String
  pub name : String
  pub schedule_type : ℕ
  pub days : List String
  pub num_concurrent : ℕ
  pub allow_job_email : ℕ
  pub timestamp : ℕ
  pub interval : ℕ

unfoldable pub includes : List String → String → Bool
includes l t = any (λ x. str_eq x t) l

-- `makeDiskItem` with its check box: no volumes are all of them
unfoldable pub disk_item : List String → String → String × Bool
unfolding includes
disk_item volumes id = (id, not (not (length volumes == 0) && not (includes volumes id)))

unfoldable pub loaded : String → List String → List String → Target
unfolding disk_item
loaded uuid disks volumes = record { uuid = uuid; disks = map (disk_item volumes) disks }

-- The days of the check boxes, in the order in which `renderSchedulePanel` has them and the handlers
-- that save read them: from Monday on, with Sunday, 0, at the end. A box that is checked stays so.
abbrev pub day_texts : List String
day_texts = "1" ∷ "2" ∷ "3" ∷ "4" ∷ "5" ∷ "6" ∷ "0" ∷ []

unfoldable pub check_days : List String → List String → List Bool → List Bool
unfolding includes
check_days days [] bs = bs
check_days days (t ∷ ts) [] = []
check_days days (t ∷ ts) (b ∷ bs) = (includes days t || b) ∷ check_days days ts bs

-- the values of the options of `#sched-freq` and `#sched-interval`
abbrev pub freq_options : List ℕ
freq_options = 0 ∷ 1 ∷ 4 ∷ []

abbrev pub interval_options : List ℕ
interval_options = 0 ∷ 900 ∷ 1800 ∷ 3600 ∷ 7200 ∷ 14400 ∷ 21600 ∷ 28800 ∷ 43200 ∷ []

-- `val(v)` of a list of options: without such an option nothing is selected
unfoldable pub select : List ℕ → ℕ → Option ℕ
select [] v = none
select (o ∷ os) v = let rest = select os v in if o == v then some o else rest

-- `#emailLevel` goes from 0 to 2
unfoldable pub level_of : ℕ → ℕ
level_of n = if ltb 2 n then 2 else n

module _ (local_time : ℕ → ℕ × ℕ) (local_date : ℕ → ℕ) where
  -- with the id that the button to save keeps
  unfoldable pub set_shared_sched : Stored → String → BackupForm → String × BackupForm
  unfolding check_days select level_of
  set_shared_sched d a3id f = (
    d.id,
    record f {
      sched_a3id = a3id;
      schedule_name = d.name;
      sched_freq = select freq_options d.schedule_type;
      weekdays = check_days d.days day_texts f.weekdays;
      num_concurrent = if d.num_concurrent == 0 then f.num_concurrent else d.num_concurrent;
      email_level = level_of d.allow_job_email;
      sched_hour = (local_time d.timestamp).0;
      sched_min = (local_time d.timestamp).1;
      sched_interval = select interval_options d.interval;
      sched_monthday = local_date d.timestamp;
    },
  )
