-- ===== src/Schedules/Options.antt =====
-- webui/js/events.js: the handlers of the options of a schedule, and of webui/js/a3.js the options
-- that `editBackupSchedule` and `editRepSchedule` set. A check box is whether it is checked and
-- disabled.
pub mod Loaded
mod Tests
use alike.Base.{
  ℕ, String, List, [], ◌∷◌, Bool, true, false, not, ◌&&◌, ◌||◌, Option, some, none, ◌==◌, ltb,
  if◌then◌else◌, any,
}
use alike.Schedules.{Form}
use alike.Schedules.Backup.{BackupForm}

-- which parts of the times are shown, and the button to save
pub record Times : Type 0 where
  pub timepicker : Bool
  pub weekdays : Bool
  pub intervals : Bool
  pub dayofmonth : Bool
  pub is_green : Bool
  pub save_text : String

-- `#sched-freq`
unfoldable pub sched_freq : ℕ → Times → Times
sched_freq val t =
    if val == 0
    then record t { timepicker = true; weekdays = true; intervals = true; dayofmonth = false }
    else if val == 1
    then record t { timepicker = true; dayofmonth = true; weekdays = false; intervals = false }
    else if val == 4
    then record t {
      timepicker = false;
      weekdays = false;
      intervals = false;
      dayofmonth = false;
      is_green = false;
      save_text = if t.is_green then "Save" else t.save_text;
    }
    else if val == 5
    then record t {
      timepicker = false;
      weekdays = false;
      intervals = false;
      dayofmonth = false;
      is_green = true;
      save_text = "Run Now";
    }
    else t

pub record Box : Type 0 where
  pub checked : Bool
  pub disabled : Bool

-- `prop("checked", b)` and `prop("disabled", b)`
abbrev pub check : Bool → Box → Box
check b box = record box { checked = b }

abbrev pub disable : Bool → Box → Box
disable b box = record box { disabled = b }

-- a click of the user, and `trigger("click")` on a check box
unfoldable pub native_click : Box → Box
native_click box = if box.disabled then box else record box { checked = not box.checked }

-- the text of `#use-gfs-lbl`, and that `#gfsProfileList` is shown
unfoldable pub use_gfs : Bool → String × Bool
use_gfs checked = if checked then ("Use GFS Profile", true) else ("Use Standard Retention", false)

-- `#emailLevel`
unfoldable pub email_level : ℕ → String
email_level lvl =
    if lvl == 0
    then "No Email notifications"
    else if lvl == 1
    then "Email only when errors occur"
    else "Email after every job"

pub data Processor : Type 0 where
  cbt enhanced qhb : Processor

abbrev pub is_cbt : Processor → Bool
is_cbt cbt = true
is_cbt enhanced = false
is_cbt qhb = false

abbrev pub is_qhb : Processor → Bool
is_qhb cbt = false
is_qhb enhanced = false
is_qhb qhb = true

-- `.sched-processor`, with the box `#diskMem`
unfoldable pub sched_processor : Processor → Box → Box
sched_processor p disk_mem =
    if is_qhb p then record { checked = false; disabled = true } else disable false disk_mem

-- the options of a replication; `#deleteBackup` is in a comment of the page
pub record RepPanel : Type 0 where
  pub processor : Processor
  pub use_gfs : Box
  pub snap_replica : Box
  pub preserve_mac : Box
  pub enable_cache : Box
  pub boot_target : Bool
  -- 0 is also what stands for no selection
  pub gfs_profile : ℕ

-- `.sched-processor-rep`, after the radio button is checked
unfoldable pub sched_processor_rep : Processor → RepPanel → RepPanel
sched_processor_rep p r =
    if is_cbt p
    then record r {
      processor = p;
      use_gfs = disable true r.use_gfs;
      snap_replica = record { checked = false; disabled = true };
      preserve_mac = record { checked = false; disabled = true };
      enable_cache = record { checked = false; disabled = true };
    }
    else record r {
      processor = p;
      use_gfs = disable false r.use_gfs;
      snap_replica = disable false r.snap_replica;
      preserve_mac = disable false r.preserve_mac;
      enable_cache = disable false r.enable_cache;
    }

abbrev open_box : Box
open_box = record { checked = false; disabled = false }

-- what `renderReplicatePanel` leaves, which clicks on `#cbt` at its end
unfoldable pub new_rep_panel : RepPanel
unfolding sched_processor_rep
new_rep_panel = sched_processor_rep cbt record {
  processor = cbt;
  use_gfs = open_box;
  snap_replica = open_box;
  preserve_mac = open_box;
  enable_cache = open_box;
  boot_target = false;
  gfs_profile = 0;
}

-- the options that are stored with a replication; 0 is no profile
pub record RepOptions : Type 0 where
  pub do_cbt : Bool
  pub qhb : Bool
  pub snapshot_target : Bool
  pub restore : Bool
  pub boot : Bool
  pub force : Option ℕ
  pub gfs_profile : ℕ

unfoldable pub stored_processor : RepOptions → Processor
stored_processor o = if o.do_cbt then cbt else if o.qhb then qhb else enhanced

abbrev pub check_if : Bool → Box → Box
check_if b box = if b then check true box else box

abbrev pub is_none_or_zero : Option ℕ → Bool
is_none_or_zero none = false
is_none_or_zero (some n) = n == 0

-- the options of `editRepSchedule`; a profile is not among the options of `#gfsProfile` yet
unfoldable pub edit_rep_options : RepOptions → RepPanel → RepPanel
unfolding sched_processor_rep stored_processor native_click
edit_rep_options o r =
    let q : RepPanel = sched_processor_rep (stored_processor o) r in
    record q {
      snap_replica = check_if o.snapshot_target q.snap_replica;
      preserve_mac = check_if o.restore q.preserve_mac;
      boot_target = o.boot || q.boot_target;
      enable_cache = check_if (is_none_or_zero o.force) q.enable_cache;
      use_gfs = if o.gfs_profile == 0 then q.use_gfs else native_click (check true q.use_gfs);
      gfs_profile = if o.gfs_profile == 0 then q.gfs_profile else 0;
    }

-- `populateGfsOpts`: the value of `#gfsProfile` with the ids of an answer
unfoldable pub populate_gfs_opts : List ℕ → ℕ → ℕ → ℕ
populate_gfs_opts [] ours val = val
populate_gfs_opts (id ∷ ids) ours val = if any (λ i. i == ours) (id ∷ ids) then ours else id

-- what `saveScheduleRep` reads of the options; the radio buttons have no value of their own
unfoldable pub rep_form : RepPanel → Form → Form
rep_form r f = record f {
  processor = "on";
  delete_backup = false;
  snap_replica = r.snap_replica.checked;
  preserve_mac = r.preserve_mac.checked;
  boot_target = r.boot_target;
  enable_cache = r.enable_cache.checked;
  cbt = is_cbt r.processor;
  qhb = is_qhb r.processor;
  use_gfs = r.use_gfs.checked;
  gfs_profile = r.gfs_profile;
}
