-- ===== src/Sync/Draw/Details.antt =====
-- webui/js/a3.js, `getJobDetails`, and webui/js/events.js, `.go_joblog`: the log of a job is drawn from
-- the storage or asked for. A visit is a click, or the timer of a log that is drawn; what the service
-- replies, and whether the log is still looked at then, belong to the visit.
pub mod Kept
mod Tests
use alike.Base.{
  ℕ, String, List, [], ◌∷◌, ◌++◌, Bool, true, false, not, ◌&&◌, ◌||◌, Option, some, none,
  if◌then◌else◌, str_eq, ◌<>◌, lookup, insert,
}
use alike.Sync.{Settings}
use alike.Sync.Draw.{
  Answer, Window, Effect, toast, finish_line_load, clear_timer, set_job_cache, slide_open, poll,
  keep_answer, draw_joblog,
}

abbrev pub key : String → String → String
key site id = "jobid_" <> site <> "_" <> id

-- `since` is 0
pub record Request : Type 0 where
  pub site : String
  pub job_id : String
  pub since : ℕ
  pub shows_load : Bool

pub data Details : Type 0 where
  drawn : Answer → Details
  asked : Request → Details

-- the page shows the log of this job
unfoldable pub is_update : String → Window → Bool
is_update id w = elim w.job_id [ none ↦ false | some shown ↦ str_eq shown id ]

unfoldable pub get_job_details : String → String → Window → List (String × Answer) → Details
unfolding is_update
get_job_details site id w kept = elim (lookup (key site id) kept) [
  | some a ↦ drawn a
  | none ↦ asked (record { site = site; job_id = id; since = 0; shows_load = not (is_update id w) })
]

-- the answers that are kept, after what a drawing does
unfoldable pub stored : Answer → List Effect → List (String × Answer) → List (String × Answer)
stored a [] kept = kept
stored a (keep_answer k ∷ es) kept = stored a es (insert k a kept)
stored a (toast x y z ∷ es) kept = stored a es kept
stored a (finish_line_load ∷ es) kept = stored a es kept
stored a (clear_timer ∷ es) kept = stored a es kept
stored a (set_job_cache ∷ es) kept = stored a es kept
stored a (slide_open ∷ es) kept = stored a es kept
stored a (poll ∷ es) kept = stored a es kept

pub record Console : Type 0 where
  pub window : Window
  pub kept : List (String × Answer)
  pub requests : List Request

pub record Visit : Type 0 where
  pub site : String
  pub id : String
  pub is_click : Bool
  pub reply : Answer
  pub is_viewing : Bool

module _ (fresh current : Settings) where
  -- `drawJoblog` on an answer
  unfoldable pub receive : String → Answer → Console → Console
  unfolding stored
  receive site a c = record c {
    window = (draw_joblog fresh current site a c.window).0;
    kept = stored a (draw_joblog fresh current site a c.window).1 c.kept;
  }

  unfoldable pub shown_or_asked : Visit → Details → Console → Console
  unfolding receive
  shown_or_asked v (drawn a) c = receive v.site a c
  shown_or_asked v (asked r) c = receive v.site v.reply (record c {
    window = record c.window { is_viewing = v.is_viewing };
    requests = c.requests ++ r ∷ [];
  })

  unfoldable pub visit : Visit → Console → Console
  unfolding shown_or_asked
  visit v c =
      let w = record c.window { is_viewing = v.is_click || c.window.is_viewing } in
      shown_or_asked v (get_job_details v.site v.id w c.kept) (record c { window = w })

  unfoldable pub visits : List Visit → Console → Console
  unfolding visit
  visits [] c = c
  visits (v ∷ vs) c = visits vs (visit v c)
