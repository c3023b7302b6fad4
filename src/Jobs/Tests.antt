-- ===== src/Jobs/Tests.antt =====
-- The theorems on jobs, alerts and bars at concrete ones.
use alike.Base.{[], ◌∷◌}
use alike.Storage.{Job, jobs, Storage}

abbrev nightly : Job
nightly = record { job_id = 7; name = "nightly"; type = 0; status = 6; time_elapsed = 90 }

abbrev running : Storage
running = ("curJobs", jobs (nightly ∷ [])) ∷ []
