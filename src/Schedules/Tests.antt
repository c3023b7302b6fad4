-- ===== src/Schedules/Tests.antt =====
-- The theorems on saving at forms with one system.
use alike.Base.{
  any, some, ltb, if◌then◌else◌, not, ◌||◌, map, arith, codes, refl, [], ◌∷◌, true, false, none,
  ◌≡◌, ◌==◌,
}
use alike.Schedules.{Source}
use alike.Schedules.Adding.{Item, Inputs, is_zero, is_listed, add_rep_src}
use alike.Schedules.Adding.Once.{IsComplete, add_rep_src_lem}
use alike.Schedules.Backup.{Target, BackupForm, volumes, backup_args}
use alike.Schedules.Backup.Loaded.{Stored, includes, day_texts, loaded, set_shared_sched}
use alike.Schedules.Backup.Loaded.Again.{loaded-volumes}
use alike.Schedules.Backup.Loaded.Times.{is_among, offered, backup_args-set_shared_sched}

abbrev web : Source
web = record { uuid = "v1"; dest_uuid = "h1"; sr = "s1"; timestamp = none; network = "n1" }

abbrev mail : Target
mail = record { uuid = "v2"; disks = ("0", true) ∷ ("1", false) ∷ [] }

abbrev nightly : BackupForm
nightly = record {
  targets = mail ∷ [];
  hosts = [];
  keyword = "";
  use_tags = false;
  schedule_name = "New Backup Job";
  sched_freq = some 0;
  sched_hour = 2;
  sched_min = 30;
  sched_interval = some 0;
  weekdays = true ∷ true ∷ [];
  sched_monthday = 1;
  qhb = false;
  cbt = true;
  disk_mem = false;
  force_full = false;
  num_concurrent = 2;
  enable_vault = false;
  email_level = 0;
  use_gfs = true;
  gfs_profile = 0;
  sched_a3id = "1";
}

abbrev web_item : Item
web_item = record { source = web; name = "web"; dest_name = codes "host"; sr_note = " [local] " }

abbrev inputs : Inputs
inputs = record {
  src_vms = ("v1", "web") ∷ ("v3", "files") ∷ [];
  dest_uuid = "h1";
  dest_name = codes "> host";
  dest_sr = "s1";
  dest_sr_name = "local";
  dest_network = "n1";
  is_vhd_visible = false;
  dest_vhd = "";
}

h1_chosen : is_zero "h1" ≡ false
h1_chosen = refl

add_rep_src_lem_example :
    IsComplete inputs.src_vms (add_rep_src (λ c. c == 32) (λ t. t) inputs (web_item ∷ [])).0
    × ((not (is_listed "v1" (web_item ∷ []))
          || is_listed "v1" (add_rep_src (λ c. c == 32) (λ t. t) inputs (web_item ∷ [])).0)
        ≡ true)
add_rep_src_lem_example =
    add_rep_src_lem (λ c. c == 32) (λ t. t) inputs (web_item ∷ []) "v1" h1_chosen refl

second_checked : any (λ d. d.1) (loaded "v2" ("0" ∷ "1" ∷ "2" ∷ []) ("1" ∷ [])).disks ≡ true
unfolding loaded
second_checked = refl

loaded-volumes_example :
    loaded "v2" ("0" ∷ "1" ∷ "2" ∷ []) (volumes (loaded "v2" ("0" ∷ "1" ∷ "2" ∷ []) ("1" ∷ [])))
    ≡ loaded "v2" ("0" ∷ "1" ∷ "2" ∷ []) ("1" ∷ [])
loaded-volumes_example = loaded-volumes "v2" ("0" ∷ "1" ∷ "2" ∷ []) ("1" ∷ []) second_checked

abbrev kept : Stored
kept = record {
  id = "12";
  name = "Nightly";
  schedule_type = 0;
  days = "1" ∷ "3" ∷ [];
  num_concurrent = 2;
  allow_job_email = 1;
  timestamp = 1714557900;
  interval = 0;
}

abbrev fresh_form : BackupForm
fresh_form = record nightly { weekdays = map (λ t. false) day_texts }

backup_args-set_shared_sched_example :
    let (id, form) = set_shared_sched (λ t. (9, 45)) (λ t. 1) kept "1" fresh_form in
    let a = backup_args id form in
    (a.id ≡ kept.id)
    × (a.name ≡ kept.name)
    × (a.stype
        ≡ (if is_among (0 ∷ 1 ∷ 4 ∷ []) kept.schedule_type then some kept.schedule_type else none))
    × (a.interval ≡ (if is_among offered kept.interval then some kept.interval else none))
    × (a.concurrent
        ≡ (if kept.num_concurrent == 0 then fresh_form.num_concurrent else kept.num_concurrent))
    × (a.email ≡ (if ltb 2 kept.allow_job_email then 2 else kept.allow_job_email))
    × (a.monthday ≡ 1)
    × (a.days ≡ map (includes kept.days) day_texts)
    × (a.hour ≡ 9)
    × (a.min ≡ 45)
backup_args-set_shared_sched_example =
    backup_args-set_shared_sched (λ t. (9, 45)) (λ t. 1) kept "1" fresh_form refl (omega arith)
