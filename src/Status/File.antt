-- ===== src/Status/File.antt =====
-- webui/js/utils.js: the state of a backup's files, the platform icons, the power state and the
-- tests of a check box.
pub mod Corrupt
use alike.Base.{
  ℕ, String, List, [], ◌∷◌, ℤ, pos, negsuc, Bool, true, false, ◌||◌, ◌&&◌, Option, some, none,
  if◌then◌else◌, ◌<>◌, codes, contains,
}
use alike.Status.Enums.{Enum, vm_file_status}
use alike.Status.Value.{
  Value, undefined, null, bool, num, str, to_number, is_case, equals_number, equals_text,
  show_value,
}
use alike.Status.Job.{member, label}

-- `v == VmFileStatus.name`
abbrev equals_member : Value → Option ℤ → Bool
equals_member v none = false
equals_member v (some n) = equals_number v n

-- 0=good, 1=corrupt, 2=validating, 3=committing
unfoldable pub get_file_status : Value → ℕ
unfolding member
get_file_status type =
    if equals_member type (member "vmFileStatusCorruptedOnsite" vm_file_status)
      || equals_member type (member "vmFileStatusCorruptedOffsite" vm_file_status)
      || equals_member type (member "vmFileStatusCorruptedBoth" vm_file_status)
    then 1
    else if equals_member type (member "vmFileStatusCommitted" vm_file_status)
    then 2
    else if equals_member type (member "vmFileStatusUncommitted" vm_file_status)
    then 3
    else 0

unfoldable pub get_file_status_text : Value → String
get_file_status_text s =
    if equals_number s (pos 1)
    then "Backup contains corrupt data!"
    else if equals_number s (pos 2)
    then "Backup data validation in progress"
    else if equals_number s (pos 3)
    then "Backup data being committed"
    else "Backup data validated successfully!"

abbrev icon : String → String → String
icon img title = "<img src=\"/images/" <> img <> "\" title=\"" <> title <> "\">"

unfoldable pub get_file_status_icon : Value → String
get_file_status_icon type =
    let s = num (pos (get_file_status type)) in
    let img =
      if equals_number s (pos 1)
      then "vm_corrupt_icon.png"
      else if equals_number s (pos 2)
      then "vm_validating_icon.png"
      else if equals_number s (pos 3)
      then "vm_commit_icon.png"
      else "vm_validated_icon.png" in
    icon img (get_file_status_text s)

unfoldable pub get_backup_status_icon : Value → String
get_backup_status_icon s =
    let img =
      if equals_number s (pos 1)
      then "validate-fail-icon.png"
      else if equals_number s (pos 2)
      then "validating-icon.png"
      else if equals_number s (pos 3)
      then "committed-icon.png"
      else "validate-complete-icon.png" in
    icon img (get_file_status_text s)

abbrev is_null : Value → Bool
is_null null = true
is_null v = false

unfoldable pub get_power_state : Value → String
get_power_state s =
    if equals_text s "0" || equals_text s "halted"
    then "<img src='/images/vm-stopped.png' title='VM is Stopped'>"
    else if equals_text s "1" || equals_text s "paused"
    then "<img src='/images/vm-paused.png' title='VM is Paused'>"
    else if equals_text s "2" || equals_text s "running"
    then "<img src='/images/vm-running.png' title='VM is Running'>"
    else if equals_text s "3"
    then "<img src='/images/vm-paused.png' title='VM is Paused'>"
    else if equals_text s "4" || equals_text s "unknown"
    then "<img src='/images/vm-unknown.png' title='VM power state is unknown'>"
    else if equals_text s "6"
    then "<img src='/images/vm-paused.png' title='VM is Paused'>"
    else if is_null s || equals_text s ""
    then "<img src='/images/vm_valid_icon.png'>"
    else "<img src='/images/vm_valid_icon.png' title='VM power state is " <> show_value s <> "'>"

unfoldable pub is_checked_bool : Value → Bool
is_checked_bool thing =
    equals_number thing (pos 1) || equals_text thing "true" || equals_text thing "1"

unfoldable pub is_checked : Value → String
is_checked thing = if is_checked_bool thing then "checked" else ""

-- `typeof type === "string" && type.includes("XCP")`
abbrev names_xcp : Value → Bool
names_xcp (str s) = contains (codes "XCP") (codes s)
names_xcp v = false

module _ (text : String → String) where
  unfoldable pub get_virt_type_text : Value → String
  get_virt_type_text type =
      let n = to_number type in
      if is_case (label 2) n
      then text "plat-xen"
      else if is_case (label 3) n
      then text "plat-hv"
      else if is_case (label 10) n
      then text "plat-phys"
      else if is_case (label 22) n
      then "XCP-ng"
      else "Unknown Type"

  -- `none` is `undefined`
  unfoldable pub get_plat_type_icon : Value → Option String
  get_plat_type_icon type =
      if names_xcp type
      then some ("<img src=\"/images/xcp_icon.png\" title='" <> show_value type <> "'>")
      else if is_case (label 2) n
      then some ("<img src=\"/images/platicon-xen.png\" title='" <> t <> "'>")
      else if is_case (label 3) n
      then some ("<img src=\"/images/platicon-hv.png\" title='" <> t <> "'>")
      else if is_case (label 10) n
      then some ("<img src=\"/images/platicon-phy.png\" title='" <> t <> "'>")
      else none
    where
      n : Option ℤ
      n = to_number type

      t : String
      t = get_virt_type_text type

  unfoldable pub get_virt_type_icon : Value → String
  get_virt_type_icon type =
      if names_xcp type
      then "<img src=\"/images/xcp_icon.png\" title='" <> show_value type <> "'>"
      else if is_case (label 2) n
      then "<img src=\"/images/xen-icon_new.png\" title='" <> t <> "'>"
      else if is_case (label 22) n
      then "<img src=\"/images/xcp_icon.png\" title='" <> t <> "'>"
      else if is_case (label 3) n
      then "<img src=\"/images/hyperv-icon-tiny.png\" title='" <> t <> "'>"
      else if is_case (label 10) n
      then "<img src=\"/images/windowsflag.png\" title='" <> t <> "'>"
      else if is_case (some (negsuc 0)) n
      then "<img src=\"/images/folder_icon.png\" title=\"Folder\">"
      else "<img src=\"/images/help.png\" alt='" <> t <> "'>"
    where
      n : Option ℤ
      n = to_number type

      t : String
      t = get_virt_type_text type
