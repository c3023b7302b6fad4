-- ===== src/Status/Job.antt =====
-- webui/js/utils.js: the words and classes for jobs, their entries and their retention. A switch
-- without a default returns `undefined`, which is `none`.
pub mod Tables
use alike.Base.{
  ℕ, String, List, [], ◌∷◌, ℤ, pos, negsuc, int_lt, Bool, false, ◌||◌, Option, some, none, lookup,
  if◌then◌else◌, ◌<>◌,
}
use alike.Status.Enums.{Enum, job_type, job_status, job_entry_status}
use alike.Status.Value.{Value, to_number, show_number, is_case, equals_number}

-- `Enum.name` as the label of a case
unfoldable pub member : String → Enum → Option ℤ
unfolding lookup
member k e = lookup k e

abbrev pub label : ℕ → Option ℤ
label n = some (pos n)

unfoldable pub get_retention : Value → String
get_retention stat =
    let n = to_number stat in
    if is_case (label 4) n
    then "Yearly"
    else if is_case (label 3) n
    then "Monthly"
    else if is_case (label 2) n
    then "Weekly"
    else if is_case (label 1) n
    then "Daily"
    else if is_case (label 0) n
    then "Basic"
    else "Unknown"

unfoldable pub get_vm_jld_state : Value → String
get_vm_jld_state stat =
    let n = to_number stat in
    if is_case (label 3) n
    then "jld_stat jld_stat_pending"
    else if is_case (label 2) n
    then "jld_stat jld_stat_active"
    else if is_case (label 1) n
    then "jld_stat jld_stat_failed"
    else if is_case (label 0) n
    then "jld_stat jld_stat_complete"
    else "jld_stat jld_stat_active"

unfoldable pub get_state_class_old : Value → Option String
unfolding member
get_state_class_old stat =
    let n = to_number stat in
    if is_case (member "ok" job_entry_status) n
    then some "status-pill status-ok"
    else if is_case (member "failed" job_entry_status) n
    then some "status-pill status-failed"
    else if is_case (member "warning" job_entry_status) n
    then some "status-pill status-errored"
    else if is_case (member "trace" job_entry_status) n
    then some "status-pill status-trace"
    else if is_case (member "active" job_entry_status) n
    then some "status-pill status-active"
    else none

unfoldable pub get_status_class : Value → Option String
unfolding member
get_status_class stat =
    let n = to_number stat in
    if is_case (member "pending" job_status) n
    then some "status-pill status-pending"
    else if is_case (member "paused" job_status) n
    then some "status-paused"
    else if is_case (member "active" job_status) n
    then some "status-pill status-active"
    else if is_case (member "activeWithErrors" job_status) n
    then some "status-pill status-active-errors"
    else if is_case (member "warning" job_status) n
    then some "status-pill status-complete-warning"
    else if is_case (member "errored" job_status) n
    then some "bg-danger"
    else if is_case (member "cancelled" job_status) n
    then some "status-pill status-cancelled"
    else if is_case (member "complete" job_status) n
    then some "status-pill status-ok"
    else if is_case (member "failed" job_status) n
    then some "status-pill status-failed"
    else none

-- `v > k`, where NaN is greater than nothing
abbrev pub above : Option ℤ → ℕ → Bool
above none k = false
above (some n) k = int_lt (pos k) n

unfoldable pub get_syslog_class : Value → String
get_syslog_class stat =
    let n = to_number stat in
    let cls =
      if above n 6
      then " badge-secondary"
      else if above n 5
      then " badge-success"
      else if above n 4
      then " badge-primary"
      else if above n 3
      then " badge-warning"
      else if above n 2
      then " badge-danger"
      else " badge-danger" in
    "badge" <> cls

-- `getJobTypeIcon`
unfoldable pub get_job_type_icon : Value → String
get_job_type_icon type =
    let n = to_number type in
    if is_case (label 0) n || is_case (label 2) n || is_case (label 6) n
    then "<img src=\"/images/jobicon-backup.png\" alt=\"Backup job\">"
    else if is_case (label 1) n
        || is_case (label 3) n
        || is_case (label 7) n
        || is_case (label 16) n
    then "<img src=\"/images/jobicon-restore.png\" alt=\"Restore job\">"
    else if is_case (label 5) n || is_case (label 14) n
    then "<img src=\"/images/jobicon-restore.png\" alt=\"Replicate job\">"
    else if is_case (label 8) n
    then "<img src=\"/images/jobicon-vault.png\" alt=\"Offsite Vault job\">"
    else "<img src=\"/images/jobicon-system.png\" alt=\"System Vault job\">"

-- `getStateClass`
unfoldable pub get_state_class : Value → String
get_state_class st =
    if equals_number st (pos 0)
    then "badge badge-success"
    else if equals_number st (pos 1)
    then "badge badge-danger"
    else if equals_number st (pos 2)
    then "badge badge-warning"
    else if equals_number st (pos 3)
    then "badge badge-primary"
    else if equals_number st (pos 4)
    then "badge bg-gray disabled"
    else ""

-- `getSubStatusStr`
unfoldable pub get_sub_status_str : Value → String
get_sub_status_str st =
    if equals_number st (pos 1)
    then "Active"
    else if equals_number st (pos 2)
    then "Active (Bill Ready)"
    else if equals_number st (pos 3)
    then "Cancelled"
    else if equals_number st (pos 4)
    then "Suspended"
    else if equals_number st (pos 5)
    then "Expired"
    else if equals_number st (pos 10)
    then "Enabled"
    else if equals_number st (pos 11)
    then "Suspended"
    else "N/A"

-- `getNotifyIcon`
unfoldable pub get_notify_icon : Value → String
get_notify_icon s =
    let n = to_number s in
    if is_case (label 2) n
    then "<div class=\"notice-warn\"></div>"
    else if is_case (label 1) n
    then "<div class=\"notice-error\"></div>"
    else "<div class=\"notice-info\"></div>"

module _ (text : String → String) where
  unfoldable pub get_status_desc : Value → Option String
  unfolding member
  get_status_desc stat =
      let n = to_number stat in
      if is_case (member "pending" job_status) n
      then some (text "jstat-pend")
      else if is_case (member "paused" job_status) n
      then some (text "jstat-pause")
      else if is_case (member "active" job_status) n
      then some " Active "
      else if is_case (member "activeWithErrors" job_status) n
      then some "<i class='fa fa-exclamation-triangle' style='color:#fff'></i>  Active &nbsp;"
      else if is_case (member "warning" job_status) n
      then some "<i class='fa fa-exclamation-triangle' style='color:#ffc107'></i>  Notice &nbsp;"
      else if is_case (member "errored" job_status) n
      then some " Error "
      else if is_case (member "cancelled" job_status) n
      then some (text "jstat-canc")
      else if is_case (member "complete" job_status) n
      then some (text "jstat-done")
      else if is_case (member "failed" job_status) n
      then some (text "jstat-fail")
      else none

  unfoldable pub get_job_type_desc : Value → String
  unfolding member
  get_job_type_desc type =
      let n = to_number type in
      if is_case (label 100) n
      then text "type-back"
      else if is_case (label 101) n
      then text "type-rest"
      else if is_case (member "backup" job_type) n
      then text "type-back"
      else if is_case (member "restore" job_type) n
      then text "type-rest"
      else if is_case (member "agentBackup" job_type) n
      then text "type-qhbback"
      else if is_case (member "fileRestore" job_type) n
      then text "type-flr"
      else if is_case (member "replicate" job_type) n
      then text "type-rep"
      else if is_case (member "rawBackup" job_type) n
      then text "type-enhback"
      else if is_case (member "rawRestore" job_type) n
      then text "type-rest"
      else if is_case (label 200) n
      then text "type-vault"
      else if is_case (label 201) n
      then "Reverse Vault"
      else if is_case (member "offsite" job_type) n
      then text "type-vault"
      else if is_case (member "system" job_type) n
      then text "type-sys"
      else if is_case (member "validateVm" job_type) n
      then text "type-validate"
      else if is_case (member "rawRestoreToFile" job_type) n
      then text "type-vhd"
      else if is_case (member "rawReplicate" job_type) n
      then text "type-rep"
      else "Unknown Job Type: " <> show_number n

  unfoldable pub get_job_log_entry_status_desc : Value → String
  unfolding member
  get_job_log_entry_status_desc stat =
      let n = to_number stat in
      if is_case (member "ok" job_entry_status) n
      then text "stat-ok"
      else if is_case (member "failed" job_entry_status) n
      then text "stat-fail"
      else if is_case (member "warning" job_entry_status) n
      then text "stat-warn"
      else if is_case (member "active" job_entry_status) n
      then "Active"
      else if is_case (member "trace" job_entry_status) n
      then text "stat-trace"
      else "Unknown status: " <> show_number n
