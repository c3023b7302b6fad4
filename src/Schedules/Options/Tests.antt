-- ===== src/Schedules/Options/Tests.antt =====
-- A replication with a retention profile that is edited, with Q-Hybrid.
use alike.Base.{[], ◌∷◌, true, false, some, none, ◌≡◌, refl, ◌==◌, ltb, if◌then◌else◌, not, ◌&&◌}
use alike.Schedules.{Form, rep_args, flag}
use alike.Schedules.Options.{RepOptions, is_none_or_zero, rep_form}
use alike.Schedules.Options.Loaded.{edited, rep_args-edited}

abbrev options : RepOptions
options = record {
  do_cbt = false;
  qhb = true;
  snapshot_target = true;
  restore = false;
  boot = true;
  force = some 0;
  gfs_profile = 7;
}

abbrev form : Form
form = record {
  targets = [];
  processor = "";
  delete_backup = false;
  snap_replica = false;
  preserve_mac = false;
  boot_target = false;
  enable_cache = false;
  cbt = false;
  qhb = false;
  schedule_name = "Nightly";
  sched_freq = 0;
  sched_hour = 1;
  sched_min = 15;
  sched_interval = 0;
  weekdays = [];
  sched_monthday = 3;
  num_concurrent = 2;
  email_level = 1;
  use_gfs = false;
  gfs_profile = 0;
  sched_a3id = "1";
}

rep_args-edited_example :
    ((rep_args "4" (rep_form (edited options (6 ∷ 7 ∷ [])) form)).boot_target ≡ flag true)
    × ((rep_args "4" (rep_form (edited options (6 ∷ 7 ∷ [])) form)).replication
        ≡ some record {
          method = "on";
          delete_backup = 0;
          snap_replica = flag true;
          preserve_mac = flag false;
          enable_cache = flag (is_none_or_zero (some 0));
          do_cbt = flag false;
          qhb = flag (not false && true);
          monthday = 3;
          gfs = if (false && not (7 == 0)) && ltb 0 7 then some 7 else none;
        })
rep_args-edited_example = rep_args-edited "4" options (6 ∷ 7 ∷ []) form refl
