-- ===== src/Joblog/Progress.antt =====
-- What an entry tells of its machine's progress.
use alike.Base.{ℕ, List, Bool, true, not, ◌&&◌, ◌||◌, ◌≡◌, ◌≤◌, ◌↔◌, arith}
use alike.Joblog.{has, check_vm_progress}

abbrev pub tells_done : List ℕ → Bool
tells_done d =
    has d "Backup complete"
    || (has d "of VM" && has d "is complete")
    || has d "Replicated VM:"
    || has d "Replication completed for VM:"

abbrev pub tells_failure : List ℕ → Bool
tells_failure d =
    (has d "of VM" && has d "was not completed")
    || has d "Restore failed"
    || has d "Backup failed"
    || has d "Error processing VM"

-- An entry that tells that its machine is done counts as done, whatever else it tells. One that
-- tells a failure and no end counts as failed. The others are in progress if they tell of the
-- beginning, else not started or unknown.
pub check_vm_progress_lem :
    (d : List ℕ)
    → (check_vm_progress d ≤ 4)
      × ((check_vm_progress d ≡ 0) ↔ (tells_done d ≡ true))
      × ((check_vm_progress d ≡ 1) ↔ ((not (tells_done d) && tells_failure d) ≡ true))
      × ((check_vm_progress d ≡ 2)
          ↔ ((not (tells_done d || tells_failure d) && has d "Beginning work on") ≡ true))
unfolding check_vm_progress
check_vm_progress_lem d = ground arith
