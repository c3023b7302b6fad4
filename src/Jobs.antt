-- ===== src/Jobs.antt =====
-- webui/js/a3.js: the console's watch over running jobs (`checkRunningJobs`, `jobDiff`), the list of
-- alerts (`showAlerts`) and the bar of a system in a job (`makeVmPB`, `makeVmPbStatus`), with
-- `makePB` of webui/js/utils.js. A progress is a whole number, so that rounding leaves it alone.
pub mod Watch
pub mod Alerts
pub mod Bars
mod Tests
use alike.Base.{
  ℕ, zero, suc, ◌+◌, ◌-◌, String, List, [], ◌∷◌, ◌++◌, map, ℤ, pos, negsuc, int_lt, Bool, true,
  false, not, ◌||◌, ◌==◌, Option, some, none, any, filter, length, if◌then◌else◌, show, ◌<>◌,
  lookup, insert,
}
use alike.Status.Enums.{job_status}
use alike.Status.Value.{Value, num, equals_number, show_number}
use alike.Storage.{Job, jobs, Item, Storage, clear_meta_caches}
use alike.Format.Duration.{time_elapsed as elapsed, time_since}

-- what the watch does beside the storage; a toast has its text, title and kind
pub data Action : Type 0 where
  do_toast : String → String → String → Action
  get_job_history build_meta_caches : Action

-- `v == JobStatus.name`
unfoldable pub status_is : String → Value → Bool
unfolding lookup
status_is name v = elim (lookup name job_status) [ none ↦ false | some n ↦ equals_number v n ]

abbrev pub has_job : List Job → ℕ → Bool
has_job l id = any (λ j. id == j.job_id) l

-- the jobs of `prev` that are not in `cur`
unfoldable pub job_diff : List Job → List Job → List Job
job_diff prev cur = filter (λ j. not (has_job cur j.job_id)) prev

pub finished : Job → Action
finished j =
    let ttype =
      if status_is "warning" (num (pos j.status)) || status_is "failed" (num (pos j.status))
      then "warning"
      else "success" in
    do_toast
      ("Backup job: "
        <> j.name
        <> " finished <br>\n\t\t\t\t\tRun time:  "
        <> elapsed j.time_elapsed
        <> "\n\t\t\t\t\t")
      "Job completed" ttype

-- a system job has ended
abbrev pub clears : List Job → Bool
clears done = any (λ j. j.type == 10) done

abbrev when : Bool → Action → List Action
when b a = if b then a ∷ [] else []

abbrev after : List Job → Storage → Storage
after done s = if clears done then clear_meta_caches s else s

pub cur_jobs : Storage → Option (List Job)
cur_jobs s = elim (lookup "curJobs" s) [ some (jobs l) ↦ some l | _ ↦ none ]

-- `history` tells whether the page shows the history of jobs
pub check_running_jobs : Bool → List Job → Storage → Storage × List Action
check_running_jobs history now s = elim (cur_jobs s) [
  | none ↦ (insert "curJobs" (jobs now) s, [])
  | some cache ↦
      if length now == length cache
      then (insert "curJobs" (jobs now) s, [])
      else (let done = job_diff cache now in
          if length done == 0 then (insert "curJobs" (jobs now) s, []) else (
            insert "curJobs" (jobs now) (after done s),
            map finished done
                ++ when history get_job_history
                ++ when (clears done) build_meta_caches,
          ))
]

pub record Alert : Type 0 where
  pub id : String
  pub source : String
  pub message : String
  pub timestamp : ℕ

pub alert_row : ℕ → Alert → String
alert_row now r =
    "<a href=\"#\" class=\"dropdown-item\"><div class=\"media\"> <div class=\"media-body\"> <h3 class=\"dropdown-item-title\"> A3 "
    <> r.source
    <> "\n\t\t<span class=\"float-right text-sm text-danger\"><i class=\"fas fa-times-circle delete-alert\" data-id='"
    <> r.id
    <> "' '></i></span>\n\t\t</h3> <p class=\"text-sm\">'"
    <> r.message
    <> "'</p> <p class=\"text-sm text-muted\"><i class=\"far fa-clock mr-1\"></i> "
    <> time_since now r.timestamp
    <> "</p> </div></div></a>"

-- the line behind the last row that is shown
pub more_row : ℕ → String
more_row left =
    "<a href=\"#\" class=\"dropdown-item\"> <i class=\"fas fa-exclamation mr-2\"></i> "
    <> show left
    <> " additional messages <span class=\"float-right text-muted text-sm\">"
    <> show left
    <> " more</span> </a> <div class=\"dropdown-divider\"></div>"

-- the loop: `max` counts down, and at 0 it ends
pub alert_rows : ℕ → ℕ → ℕ → List Alert → String
alert_rows now total max [] = ""
alert_rows now total max (r ∷ rs) =
    let rest = alert_rows now total (max - 1) rs in
    alert_row now r <> (if max - 1 == 0 then more_row (total - 10) else rest)

-- the rows, the badge's text and the header's
pub show_alerts : ℕ → List Alert → String × String × String
show_alerts now all = (
  alert_rows now (length all) 10 all,
  (if length all == 0 then "" else show (length all)),
  show (length all),
)

abbrev below : ℤ → ℕ → Bool
below p k = int_lt p (pos k)

-- a color that is left out is `none`
pub pb_color : ℤ → Option String → String
pb_color perc (some c) = c
pb_color perc none =
    if below perc 25
    then "bg-success"
    else if below perc 50
    then "bg-info"
    else if below perc 85
    then "bg-warning"
    else "bg-danger"

-- the bars that the source builds first are overwritten
pub make_pb : ℤ → Option String → String
unfolding pb_color
make_pb perc color =
    let p = show_number (some perc) in
    let c = pb_color perc color in
    let start =
      "<div class='progress rounded'><div class='progress-bar " <> c
      <> "' role='progressbar' aria-valuenow='" <> p
      <> "' aria-valuemin='0' aria-valuemax='100' style='width: " <> p in
    if below perc 10
    then start <> "%'></div> &nbsp; <span class='text-center'></span> </div>"
    else start <> "%'> <span class='text-center'>" <> p <> "%</span> </div> </div>"

-- the job was cancelled or has failed
pub has_stopped : Value → Bool
unfolding status_is
has_stopped status = status_is "cancelled" status || status_is "failed" status

-- the bar's number and class
pub vm_bar : ℤ → Value → ℤ × String
vm_bar (negsuc n) status = (pos (n + 1), "bg-danger")
vm_bar (pos zero) status = if has_stopped status then (pos 1, "bg-warning") else (pos 0, "")
vm_bar (pos (suc n)) status =
    if below (pos (suc n)) 100 then (pos (suc n), "bg-info") else (pos (suc n), "bg-success")

pub make_vm_pb : ℤ → Value → String
unfolding vm_bar
make_vm_pb vmprog status = make_pb (vm_bar vmprog status).0 (some (vm_bar vmprog status).1)

pub make_vm_pb_status : ℤ → Value → String
make_vm_pb_status (negsuc n) status = " [Failed] "
make_vm_pb_status (pos zero) status =
    if has_stopped status then " [Not Processed] " else " [Not Started] "
make_vm_pb_status (pos (suc n)) status =
    if below (pos (suc n)) 100 then " [In Process] " else " [Completed] "
