-- ===== src/Schedules/Edited/Tests.antt =====
-- A backup of two systems that is edited, one of them with one of its disks.
use alike.Base.{some, [], ◌∷◌, true, false, ◌≡◌, refl, ◌==◌, if◌then◌else◌}
use alike.Status.Value.{undefined}
use alike.Schedules.Backup.{BackupForm, backup_args}
use alike.Schedules.Picking.{Page, manual}
use alike.Schedules.Edited.{StoredVm, StoredBackup}
use alike.Schedules.Edited.Opened.{saved_form, host_sources, vm_sources, backup_args-opened}

abbrev web : StoredVm
web = record {
  uuid = "v1";
  name = "web";
  type = undefined;
  disks = "root" ∷ "data" ∷ [];
  volumes = "1" ∷ [];
}

abbrev mail : StoredVm
mail = record web { uuid = "v2"; name = "mail"; volumes = [] }

abbrev nightly : StoredBackup
nightly = record {
  policy_type = 0;
  policy_filter = "";
  use_enhanced = true;
  do_cbt = true;
  force_full = false;
  vault_enable = true;
  gfs_profile = 7;
  qhb = 0;
  disk_and_memory = false;
  hosts = [];
  vms = web ∷ mail ∷ [];
}

abbrev form : BackupForm
form = record {
  targets = [];
  hosts = [];
  keyword = "";
  use_tags = false;
  schedule_name = "Nightly";
  sched_freq = some 0;
  sched_hour = 2;
  sched_min = 30;
  sched_interval = some 0;
  weekdays = [];
  sched_monthday = 1;
  qhb = false;
  cbt = true;
  disk_mem = false;
  force_full = false;
  num_concurrent = 1;
  enable_vault = false;
  email_level = 0;
  use_gfs = false;
  gfs_profile = 0;
  sched_a3id = "1";
}

abbrev page : Page
page = record {
  systems = [];
  chosen = [];
  hosts = [];
  chosen_hosts = [];
  tab = manual;
  manual_off = false;
  wholehost_off = false;
  keyword_off = false;
  site = "1";
  calls = [];
}

backup_args-opened_example :
    ((backup_args "4" (saved_form (λ t. t) nightly (7 ∷ []) page form)).policy_type ≡ 0)
    × ((backup_args "4" (saved_form (λ t. t) nightly (7 ∷ []) page form)).sources
        ≡ (if nightly.policy_type == 1 then host_sources nightly else vm_sources nightly))
backup_args-opened_example = backup_args-opened (λ t. t) "4" nightly (7 ∷ []) page form refl
