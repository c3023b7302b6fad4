-- ===== src/Jobs/Watch.antt =====
-- The watch over running jobs.
use alike.Base.{
  ℕ, String, List, [], ◌∷◌, ◌++◌, Bool, true, false, not, ◌&&◌, ◌==◌, ==_iff, ◌≡◌, ◌≢◌, refl, ap,
  arith, if◌then◌else◌, some, length, lookup, insert, remove, lookup-insert, lookup-remove, eq_iff,
  Option-cases, inl, inr, suc, ◌||◌, pos, ◌<>◌,
}
use alike.Status.Value.{num}
use alike.Format.Duration.{time_elapsed}
use alike.Storage.{Job, jobs, Storage, clear_meta_caches}
use alike.Jobs.{
  Action, do_toast, status_is, get_job_history, build_meta_caches, has_job, job_diff, clears,
  cur_jobs, check_running_jobs,
}

-- A job has ended exactly if it was there before and is not there now.
pub has_job-job_diff :
    (id : ℕ) (prev cur : List Job)
    → has_job (job_diff prev cur) id ≡ (has_job prev id && not (has_job cur id))
unfolding job_diff
has_job-job_diff id [] cur = refl
has_job-job_diff id (j ∷ prev) cur = ground (
  arith,
  has_job-job_diff id prev cur,
  ==_iff id j.job_id,
  ap (has_job cur) {x = id} {y = j.job_id},
)

-- what is read back from the storage, whatever happens to its other items
cur_jobs-insert : (l : List Job) (s : Storage) → cur_jobs (insert "curJobs" (jobs l) s) ≡ some l
unfolding cur_jobs
cur_jobs-insert l s =
    ground (arith, lookup-insert "curJobs" "curJobs" (jobs l) s, eq_iff "curJobs" "curJobs")

other-clear_meta_caches :
    (k : String) (s : Storage)
    → k ≢ "poolCache"
    → k ≢ "srCache"
    → k ≢ "a3Cache"
    → lookup k (clear_meta_caches s) ≡ lookup k s
unfolding clear_meta_caches
other-clear_meta_caches k s p q r = ground (
  arith,
  lookup-remove "poolCache" k (remove "srCache" (remove "a3Cache" s)),
  lookup-remove "srCache" k (remove "a3Cache" s),
  lookup-remove "a3Cache" k s,
  eq_iff "poolCache" k,
  eq_iff "srCache" k,
  eq_iff "a3Cache" k,
)

-- The watch leaves the running jobs in the storage for its next round, and touches no item but
-- them and the caches of pools, repositories and A3s.
pub check_running_jobs-cur_jobs :
    (history : Bool) (now : List Job) (s : Storage) (k : String)
    → k ≢ "curJobs"
    → k ≢ "poolCache"
    → k ≢ "srCache"
    → k ≢ "a3Cache"
    → (cur_jobs (check_running_jobs history now s).0 ≡ some now)
      × (lookup k (check_running_jobs history now s).0 ≡ lookup k s)
unfolding check_running_jobs
check_running_jobs-cur_jobs history now s k c p q r = elim (Option-cases (cur_jobs s)) [
  | inl none_yet ↦
      ground
        (arith, cur_jobs-insert now s, lookup-insert "curJobs" k (jobs now) s, eq_iff "curJobs" k)
  | inr (cache, e) ↦ ground (
    arith,
    cur_jobs-insert now s,
    cur_jobs-insert now (clear_meta_caches s),
    lookup-insert "curJobs" k (jobs now) s,
    lookup-insert "curJobs" k (jobs now) (clear_meta_caches s),
    other-clear_meta_caches k s p q r,
    eq_iff "curJobs" k,
  )
]

-- the actions behind the toasts
abbrev pub follow_up : Bool → List Job → List Action
follow_up history done =
    if length done == 0
    then []
    else (if history then get_job_history ∷ [] else [])
      ++ (if clears done then build_meta_caches ∷ [] else [])

-- how many jobs of the list have the id
abbrev pub count : ℕ → List Job → ℕ
count id [] = 0
count id (j ∷ l) = let rest = count id l in if id == j.job_id then suc rest else rest

-- the text, the title and the kind of the toast of a job that has ended
abbrev pub ended : Job → Action
ended j =
    do_toast
      ("Backup job: "
        <> j.name
        <> " finished <br>\n\t\t\t\t\tRun time:  "
        <> time_elapsed j.time_elapsed
        <> "\n\t\t\t\t\t")
      "Job completed"
      (if status_is "warning" (num (pos j.status)) || status_is "failed" (num (pos j.status))
        then "warning"
        else "success")

-- When a job has ended and the number of jobs is the same as before, nothing is shown, and no
-- later round can show it: the job is gone from what the rounds compare.
pub check_running_jobs-missed :
    (history : Bool) (now cache later : List Job) (s : Storage) (id : ℕ)
    → cur_jobs s ≡ some cache
    → length now ≡ length cache
    → has_job (job_diff cache now) id ≡ true
    → ((check_running_jobs history now s).1 ≡ [])
      × (cur_jobs (check_running_jobs history now s).0 ≡ some now)
      × (has_job (job_diff now later) id ≡ false)
unfolding check_running_jobs
check_running_jobs-missed history now cache later s id h same gone =
    ground
      (arith, cur_jobs-insert now s, has_job-job_diff id cache now, has_job-job_diff id now later)
