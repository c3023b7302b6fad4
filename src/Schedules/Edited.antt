-- ===== src/Schedules/Edited.antt =====
-- webui/js/a3.js: what `editBackupSchedule` puts into the form of a backup, the options, the tabs and
-- the lists. What `setSharedSched` does, which it calls first, is in Schedules/Backup/Loaded.
pub mod Again
pub mod Opened
pub mod Items
mod Tests
use alike.Base.{
  ℕ, suc, ◌+◌, String, List, [], ◌∷◌, ◌++◌, negsuc, map, Bool, true, false, not, ◌&&◌, ◌||◌, ◌==◌,
  ltb, if◌then◌else◌, show, some, none,
}
use alike.Status.Value.{Value}
use alike.Schedules.Backup.{BackupForm}
use alike.Schedules.Backup.Loaded.{disk_item}
use alike.Schedules.Options.{populate_gfs_opts}
use alike.Schedules.Picking.{System, Host, Page, keyword, wholehost}
use alike.Schedules.Picking.Listed.{make_source_item, make_source_host, sched_tabber}

-- a system that is stored with a backup; no volumes are all disks
pub record StoredVm : Type 0 where
  pub uuid : String
  pub name : String
  pub type : Value
  pub disks : List String
  pub volumes : List String

pub record StoredHost : Type 0 where
  pub uuid : String
  pub native_name : String
  pub type : Value

-- the stored backup; a profile of 0 is none
pub record StoredBackup : Type 0 where
  pub policy_type : ℕ
  pub policy_filter : String
  pub use_enhanced : Bool
  pub do_cbt : Bool
  pub force_full : Bool
  pub vault_enable : Bool
  pub gfs_profile : ℕ
  pub qhb : ℕ
  pub disk_and_memory : Bool
  pub hosts : List StoredHost
  pub vms : List StoredVm

-- the options, and the profile once the profiles have arrived
unfoldable pub edit_backup_options : StoredBackup → List ℕ → BackupForm → BackupForm
edit_backup_options d ids f = record f {
  qhb = (not d.use_enhanced && f.qhb) || d.qhb == 1;
  cbt = d.do_cbt || f.cbt;
  disk_mem = d.disk_and_memory || f.disk_mem;
  force_full = d.force_full || f.force_full;
  enable_vault = d.vault_enable || f.enable_vault;
  use_gfs = not (d.gfs_profile == 0) || f.use_gfs;
  gfs_profile =
      populate_gfs_opts ids d.gfs_profile (if d.gfs_profile == 0 then f.gfs_profile else 0);
  keyword = d.policy_filter;
  use_tags = d.policy_type == 3 || f.use_tags;
}

unfoldable pub disk_ids : ℕ → List String → List String
disk_ids i [] = []
disk_ids i (name ∷ names) = show i ∷ disk_ids (suc i) names

-- the texts of the console are a parameter
module _ (text : String → String) where
  unfoldable pub edited_system : StoredVm → System
  unfolding disk_ids
  edited_system v = record (make_source_item text v.uuid v.name (negsuc 0) v.type) {
    trash = true;
    arrow_shown = true;
    disks = some record {
      shown = false;
      no_disks = 0;
      rows = map (disk_item v.volumes) (disk_ids 0 v.disks);
    };
  }

  unfoldable pub edited_host : StoredHost → Host
  edited_host h = make_source_host text h.uuid h.native_name h.type (negsuc 0)

  -- the branches on the type of the policy
  unfoldable pub edit_tabs : StoredBackup → Page → Page
  unfolding edited_host
  edit_tabs d p =
      if ltb 1 d.policy_type
      then record (sched_tabber keyword p) { wholehost_off = true; manual_off = true }
      else if d.policy_type == 1
      then record (sched_tabber wholehost p) {
        chosen_hosts = p.chosen_hosts ++ map edited_host d.hosts;
        keyword_off = true;
        manual_off = true;
      }
      else p

  unfoldable pub edit_lists : StoredBackup → Page → Page
  unfolding edit_tabs edited_system
  edit_lists d p =
      let q : Page = edit_tabs d p in record q { chosen = q.chosen ++ map edited_system d.vms }

-- the options that `renderBackupPanel` leaves
unfoldable pub new_backup_options : BackupForm → BackupForm
new_backup_options f = record f {
  qhb = false;
  cbt = false;
  disk_mem = false;
  force_full = false;
  enable_vault = false;
  use_gfs = false;
  gfs_profile = 0;
  keyword = "";
  use_tags = false;
}
