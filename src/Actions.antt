-- ===== src/Actions.antt =====
-- webui/js/events.js: the button that starts a quick restore, the handlers that delete a version, an
-- agent and a host, that vault by hand, and that change a license. What an awaited request comes to
-- is an argument.
pub mod Licensed
pub mod Once
mod Tests
use alike.Base.{
  ℕ, String, List, [], ◌∷◌, ◌++◌, Bool, true, false, not, Option, some, none, ◌==◌, length,
  if◌then◌else◌,
}
use alike.Schedules.Backup.{all_checked, checked_ids}

-- an answer with its message, an exception with its message, or nothing
pub data Awaited : Type 0 where
  fulfilled thrown : Option String → Awaited
  unsettled : Awaited

pub data Step (A : Type 0) : Type 0 where
  show_line_load finish_line_load remove_row : Step A
  -- the call, its arguments and its site
  request : String → A → String → Step A
  -- the licenses are asked for again
  list_licenses : Step A
  toast : Option String → String → String → Step A

-- a version of a backup
pub record Version : Type 0 where
  pub ds : ℕ
  pub uuid : String
  pub ts : ℕ

unfoldable pub delete_backup : Version → String → Awaited → List (Step Version)
delete_backup v site (fulfilled _) =
    show_line_load ∷ request "version/delete" v site ∷ remove_row ∷ finish_line_load ∷ []
delete_backup v site (thrown message) =
    show_line_load
    ∷ request "version/delete" v site
    ∷ toast message "Failed to delete Version" "error"
    ∷ finish_line_load
    ∷ []
delete_backup v site unsettled = show_line_load ∷ request "version/delete" v site ∷ []

-- `ds` is 0 to vault and 1 to fetch back
unfoldable pub manual_vault : String → ℕ → ℕ → String → Awaited → List (Step Version)
manual_vault uuid ts ds site w =
    show_line_load
    ∷ request "vaulting/manualVault" (record { ds = ds; uuid = uuid; ts = ts }) site
    ∷ (elim w [
      | fulfilled _ ↦ finish_line_load ∷ []
      | thrown message ↦ toast message "Failed to start vault" "error" ∷ finish_line_load ∷ []
      | unsettled ↦ []
    ])

unfoldable pub agent_delete : String → Awaited → List (Step String)
agent_delete guid w = request "agent/delete" guid "0" ∷ (elim w [
  | fulfilled message ↦ toast message "Agent removed" "success" ∷ remove_row ∷ []
  | thrown message ↦ toast message "Failed to remove agent" "error" ∷ []
  | unsettled ↦ []
])

unfoldable pub host_delete : String → Awaited → List (Step String)
host_delete guid w = show_line_load ∷ request "host/delete" guid "0" ∷ (elim w [
  | fulfilled _ ↦ remove_row ∷ finish_line_load ∷ []
  | thrown message ↦ toast message "Failed to remove host" "error" ∷ finish_line_load ∷ []
  | unsettled ↦ []
])

-- the check box of a license, after the click: the box and the steps
unfoldable pub agent_license : String → Bool → Awaited → Bool × List (Step String)
agent_license guid checked w =
    let sent = request (if checked then "agent/license" else "agent/unlicense") guid "0" in
    elim w [
      | fulfilled message ↦ (
        checked,
        sent
            ∷ list_licenses
            ∷ toast message (if checked then "Agent licensed" else "Agent unlicensed") "success"
            ∷ [],
      )
      | thrown message ↦
          (not checked, sent ∷ toast message "Failed to modify licensing" "error" ∷ [])
      | unsettled ↦ (checked, sent ∷ [])
    ]

-- the guid and whether it is to be licensed
unfoldable pub host_license : String → Bool → Awaited → Bool × List (Step (String × ℕ))
host_license guid checked w =
    let sent = request "host/license" (guid, if checked then 1 else 0) "0" in
    elim w [
      | fulfilled _ ↦ (checked, sent ∷ list_licenses ∷ [])
      | thrown message ↦
          (not checked, sent ∷ toast message "Failed to modify licensing" "error" ∷ [])
      | unsettled ↦ (checked, sent ∷ [])
    ]

-- the window of a quick restore: the boxes of the disks, the rest of what is sent, and whether its
-- button has the class `quick-restore-start`
pub record Window : Type 0 where
  pub disks : List (String × Bool)
  pub dest_uuid : String
  pub vm_uuid : String
  pub ds : ℕ
  pub ts : ℕ
  pub sr : String
  pub vhd : String
  pub network : String
  pub site : String
  pub is_armed : Bool

pub record RestoreArgs : Type 0 where
  pub disks : Option (List String)
  pub dest_uuid : String
  pub vm_uuid : String
  pub ds : ℕ
  pub ts : ℕ
  pub sr : String
  pub vhd : String
  pub template : String
  pub network : String

abbrev pub restore_args : Window → Option (List String) → RestoreArgs
restore_args w disks = record {
  disks = disks;
  dest_uuid = w.dest_uuid;
  vm_uuid = w.vm_uuid;
  ds = w.ds;
  ts = w.ts;
  sr = w.sr;
  vhd = w.vhd;
  template = "Other install media";
  network = w.network;
}

abbrev pub start : Window → Option (List String) → Window × List (Step RestoreArgs)
start w disks =
    (record w { is_armed = false }, request "restore/quick" (restore_args w disks) w.site ∷ [])

-- a click on the button
unfoldable pub quick_restore_start : Window → Window × List (Step RestoreArgs)
unfolding checked_ids
quick_restore_start w =
    if not w.is_armed
    then (w, [])
    else if all_checked w.disks
    then start w none
    else if length (checked_ids w.disks) == 0
    then (
      w,
      toast (some "No disks selected!.  Please include at least 1 disk to restore.")
            "Nothing to restore!" "warning"
          ∷ [],
    )
    else start w (some (checked_ids w.disks))
