-- ===== src/Schedules/Created.antt =====
-- webui/js/a3.js: the form of a new schedule, from the choice of its A3 in `handleEditSchedule` to
-- `createNewBackup`, `createNewReplicate` and `createNewRestore`, and the handler of
-- ".sched-type-new" in webui/js/events.js. The fields that the panels draw are an argument, and so
-- are the local hour, minute and day of the month. The options of a destination, which a
-- replication and a restore fill from the cache, are those of Destinations, and are taken to be filled.
pub mod Sent
mod Tests
use alike.Base.{
  ℕ, String, List, [], ◌∷◌, map, Bool, true, false, not, ◌&&◌, ◌==◌, Option, some, none, str_eq,
  if◌then◌else◌,
}
use alike.Storage.{A3, Storage}
use alike.Hosts.{known_a3s}
use alike.Schedules.{Form}
use alike.Schedules.Backup.{BackupForm}
use alike.Schedules.Backup.Loaded.{check_days, day_texts}

-- what stands on the page: the TypeError of a cache that is not there, the note of `checkNoA3s`, a
-- hidden field, or a choice by id and name
pub data Pick : Type 0 where
  type_error no_a3s : Pick
  hidden : String → Pick
  choice : List (String × String) → Pick

unfoldable pub pick_of : Option (List A3) → Pick
pick_of none = type_error
pick_of (some []) = no_a3s
pick_of (some (a ∷ [])) = hidden a.id
pick_of (some (a ∷ b ∷ rest)) = choice (map (λ x. (x.id, x.name)) (a ∷ b ∷ rest))

unfoldable pub handle_edit_schedule : Storage → Pick
unfolding pick_of
handle_edit_schedule s = pick_of (known_a3s s)

pub record Call : Type 0 where
  pub call : String
  pub callback : String
  -- `args["backups"]` is 1
  pub with_backups : Bool
  pub site : String

abbrev from_site : String → String → String → Call
from_site call callback site = record {
  call = call;
  callback = callback;
  with_backups = false;
  site = site;
}

abbrev pub working_days : List String
working_days = "1" ∷ "2" ∷ "3" ∷ "4" ∷ "5" ∷ []

-- a form with the id of the button that saves, and its calls
pub data Opened : Type 0 where
  backup : String → BackupForm → List Call → Opened
  replication restore : String → Form → List Call → Opened

module _ (hour minute date : ℕ) where
  unfoldable pub create_new_backup : BackupForm → String → Opened
  unfolding check_days
  create_new_backup f a3id =
      backup "0"
        record f {
          sched_a3id = a3id;
          schedule_name = "New Backup Job";
          email_level = 0;
          weekdays = check_days working_days day_texts f.weekdays;
          sched_monthday = date;
          sched_hour = hour;
          sched_min = minute;
        }
        (from_site "sources" "populateBackupSrc" a3id
          ∷ from_site "gfsProfiles" "populateGfsOpts" a3id
          ∷ [])

  unfoldable pub create_new_replicate : Form → String → Opened
  unfolding check_days
  create_new_replicate f a3id =
      replication "0"
        record f {
          sched_a3id = a3id;
          schedule_name = "New Replication Job";
          email_level = 0;
          weekdays = check_days working_days day_texts f.weekdays;
          sched_monthday = date;
          sched_hour = hour;
          sched_min = minute;
        }
        (from_site "sources" "populateRepSrc" a3id
          ∷ from_site "gfsProfiles" "populateGfsOpts" a3id
          ∷ [])

  -- "Run Immediately" takes the place of the first two types
  unfoldable pub create_new_restore : Form → String → Opened
  create_new_restore f a3id =
      restore "0"
        record f {
          sched_freq = 5;
          sched_a3id = a3id;
          schedule_name = "New Restore Job";
          email_level = 0;
          sched_monthday = date;
          sched_hour = hour;
          sched_min = minute;
        }
        (record (from_site "sources" "populateRestSrc" a3id) { with_backups = true } ∷ [])

  -- a button for a type with the A3 that is picked: whether the warning of the edition has been shown,
  -- `window.drWarnRep`, and the form, or none where the warning is shown or no button has the type
  unfoldable pub sched_type_new :
      ℕ → BackupForm → Form → Bool → String → String → Bool × Option Opened
  sched_type_new edition b f warned type a3id =
      if str_eq type "backup"
      then (warned, some (create_new_backup b a3id))
      else if str_eq type "restore"
      then (warned, some (create_new_restore f a3id))
      else if str_eq type "replicate"
      then (if not (edition == 2) && not warned
          then (true, none)
          else (warned, some (create_new_replicate f a3id)))
      else (warned, none)
