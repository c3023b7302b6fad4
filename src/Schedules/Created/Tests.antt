-- ===== src/Schedules/Created/Tests.antt =====
-- A restore that is created for the second of two A3s.
use alike.Base.{[], ◌∷◌, true, false, some, ◌≡◌, refl, All, lookup}
use alike.Storage.{Storage, a3s}
use alike.Hosts.{known_a3s}
use alike.Schedules.{Form, fulfilled}
use alike.Schedules.Backup.{BackupForm}
use alike.Schedules.Created.{handle_edit_schedule, sched_type_new}
use alike.Schedules.Created.Sent.{
  opened_sites, is_picked, has_id, is_opened, is_button, created-sites,
}

abbrev storage : Storage
storage =
    (
      "a3Cache",
      a3s (
          record { id = "1"; guid = "g1"; name = "East" }
          ∷ record { id = "2"; guid = "g2"; name = "West" }
          ∷ []),
    )
    ∷ []

abbrev backup_form : BackupForm
backup_form = record {
  targets = [];
  hosts = [];
  keyword = "";
  use_tags = false;
  schedule_name = "";
  sched_freq = some 0;
  sched_hour = 0;
  sched_min = 0;
  sched_interval = some 0;
  weekdays = false ∷ false ∷ false ∷ false ∷ false ∷ false ∷ false ∷ [];
  sched_monthday = 0;
  qhb = false;
  cbt = true;
  disk_mem = false;
  force_full = false;
  num_concurrent = 2;
  enable_vault = false;
  email_level = 0;
  use_gfs = false;
  gfs_profile = 0;
  sched_a3id = "0";
}

abbrev form : Form
form = record {
  targets =
      record { uuid = "v1"; dest_uuid = "h1"; sr = "s1"; timestamp = some 5; network = "n1" } ∷ [];
  processor = "enh";
  delete_backup = false;
  snap_replica = false;
  preserve_mac = false;
  boot_target = false;
  enable_cache = false;
  cbt = false;
  qhb = false;
  schedule_name = "";
  sched_freq = 0;
  sched_hour = 0;
  sched_min = 0;
  sched_interval = 0;
  weekdays = [];
  sched_monthday = 0;
  num_concurrent = 2;
  email_level = 0;
  use_gfs = false;
  gfs_profile = 0;
  sched_a3id = "0";
}

west_picked : is_picked (handle_edit_schedule storage) "2" ≡ true
unfolding handle_edit_schedule known_a3s lookup
west_picked = refl

created-sites_example :
    (has_id (known_a3s storage) "2" ≡ true)
    × All
        (λ site. site ≡ "2")
        (opened_sites
          (sched_type_new 9 45 1 0 backup_form form false "restore" "2").1
          (fulfilled (some "7")))
    × (is_opened
          (sched_type_new 9 45 1 0 backup_form form
            (sched_type_new 9 45 1 0 backup_form form false "restore" "2").0
            "restore"
            "2").1
        ≡ is_button "restore")
created-sites_example =
    created-sites 9 45 1 0 storage backup_form form false "restore" "2" (fulfilled (some "7"))
      west_picked
