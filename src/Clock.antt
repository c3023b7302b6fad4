-- ===== src/Clock.antt =====
-- webui/js/utils.js: times of day and schedules, `getTime`, `getDate`, `getDateCust`,
-- `getScheduleTime`, and the words for a schedule's systems, `getScheduleVmSummaryText`. The parts
-- of a date in the browser's time zone are the parameters: the hours and minutes, and the year,
-- month and day, of a number of seconds. `twelve` tells whether `getTimeFmt()` is "12".
pub mod Noon
pub mod Next
use alike.Base.{
  ℕ, zero, suc, ◌-◌, String, List, [], ◌∷◌, Bool, true, false, ltb, leb, ◌==◌, if◌then◌else◌,
  length, show, ◌<>◌,
}

-- `if (n < 10) { n = '0' + n; }`
unfoldable pub padded : ℕ → String
padded n = if ltb n 10 then "0" <> show n else show n

-- the hour of `getTime` on a clock with twelve hours
unfoldable pub hour_of_twelve : ℕ → String
unfolding padded
hour_of_twelve h = if ltb 12 h then show (h - 12) else if h == 0 then "12" else padded h

module _ (local_time : ℕ → ℕ × ℕ) (local_day : ℕ → ℕ × ℕ × ℕ) (twelve : Bool) where
  unfoldable pub get_time : ℕ → String
  unfolding padded hour_of_twelve
  get_time epoch =
      let (h, m) = local_time epoch in
      if epoch == 0
      then "N/A"
      else if twelve
      then hour_of_twelve h <> ":" <> padded m <> " " <> (if leb 12 h then "pm" else "am")
      else padded h <> ":" <> padded m

  unfoldable pub get_date_cust : ℕ → Bool → String
  unfolding padded
  get_date_cust epoch show_time =
      let (year, month, day) = local_day epoch in
      let out = padded month <> "/" <> padded day in
      if show_time then out <> "/" <> show year <> " " <> get_time epoch else out

  -- `toLocaleDateString()` of a number of seconds is the browser's
  unfoldable pub get_date : (ℕ → String) → ℕ → Bool → String
  get_date locale_date epoch show_time =
      if epoch == 0
      then "N/A"
      else if show_time
      then locale_date epoch <> " " <> get_time epoch
      else locale_date epoch

  module _ (text : String → String) where
    -- a schedule's type and time
    unfoldable pub get_schedule_time : ℕ → ℕ → String
    unfolding padded
    get_schedule_time type timestamp =
        let (h, m) = local_time timestamp in
        let out =
          if type == 0
          then text "daily"
          else if type == 1
          then text "monthly"
          else "On " <> get_date_cust timestamp false in
        if type == 4
        then "N/A"
        else if twelve
        then out
          <> " at "
          <> (if ltb 12 h then show (h - 12) else show h)
          <> ":"
          <> padded m
          <> " "
          <> (if ltb 12 h then "pm" else "am")
        else out <> " at " <> show h <> ":" <> padded m

-- the names of the systems, with commas between them
pub commas : List String → String
commas [] = ""
commas (n ∷ []) = n
commas (n ∷ m ∷ ns) = n <> ", " <> commas (m ∷ ns)

-- `policy` is `Options.policyType`, `filter` is `Options.policyFilterString`
pub get_schedule_vm_summary_text : ℕ → String → List String → String
unfolding commas
get_schedule_vm_summary_text policy filter_string vms =
    if policy == 0
    then (if length vms == 0
        then "<u>No systems selected</u>"
        else if ltb (length vms) 4
        then commas vms
        else show (length vms) <> " Systems in job")
    else "<b>Policy Job</b>: "
      <> (if policy == 1
          then "All Guests on defined host(s) "
          else if policy == 2
          then "Search filter: " <> filter_string
          else if policy == 3
          then "Xen Tag filter: " <> filter_string
          else "")
