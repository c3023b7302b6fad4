-- ===== src/Sync/Draw/Polls.antt =====
-- When the log of a job is asked for again, and when its answer is kept.
use alike.Base.{String, Bool, true, false, ◌&&◌, ◌≡◌, arith, if◌then◌else◌, str_eq, any}
use alike.Sync.{Settings, polls_again, sync_joblog}
use alike.Sync.Draw.{
  Answer, Window, Effect, toast, finish_line_load, clear_timer, set_job_cache, slide_open, poll,
  keep_answer, at_least, begun, draw_joblog,
}

abbrev pub is_poll : Effect → Bool
is_poll poll = true
is_poll (toast a b c) = false
is_poll finish_line_load = false
is_poll clear_timer = false
is_poll set_job_cache = false
is_poll slide_open = false
is_poll (keep_answer k) = false

abbrev pub is_keep : Effect → Bool
is_keep (keep_answer k) = true
is_keep poll = false
is_keep (toast a b c) = false
is_keep finish_line_load = false
is_keep clear_timer = false
is_keep set_job_cache = false
is_keep slide_open = false

-- the answer is shown: it is no error, and the log is still looked at
abbrev pub is_taken : Answer → Window → Bool
is_taken a w = str_eq a.result "success" && w.is_viewing

-- A log is asked for again exactly if the answer is shown and its job has the status 0, 2 or 3, and
-- the answer is kept exactly if it is shown and the status is at least 4, both also where the page
-- is only synced. An answer that is not shown leaves the window as it was.
pub draw_joblog_lem :
    (fresh current : Settings) (site : String) (a : Answer) (w : Window)
    → (any is_poll (draw_joblog fresh current site a w).1 ≡ (is_taken a w && polls_again a.job))
      × (any is_keep (draw_joblog fresh current site a w).1
          ≡ (is_taken a w && at_least 4 a.job.status))
      × ((if is_taken a w then w else (draw_joblog fresh current site a w).0) ≡ w)
unfolding draw_joblog begun sync_joblog
draw_joblog_lem fresh current site a w = (ground arith, ground arith, ground arith)
