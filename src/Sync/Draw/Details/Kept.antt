-- ===== src/Sync/Draw/Details/Kept.antt =====
-- When the log of a job is not asked for again.
use alike.Base.{
  String, List, [], ◌∷◌, ◌++◌, ◌||◌, not, true, false, some, none, ◌≡◌, refl, All, All-append,
  str_eq, eq_iff, lookup, insert, lookup-insert, Bool-cases, Option-cases, inl, inr, eq_refl, ◌∙◌,
}
use alike.Sync.{Settings}
use alike.Sync.Draw.{
  Answer, Window, Effect, toast, finish_line_load, clear_timer, set_job_cache, slide_open, poll,
  keep_answer, begun, at_least, draw_joblog, is_shown, when,
}
use alike.Sync.Draw.Details.{
  key, Request, get_job_details, stored, is_update, Console, Visit, receive, shown_or_asked, visit,
  visits,
}

-- there is an answer under the key
abbrev pub IsKept : String → List (String × Answer) → Type 0
IsKept k kept = (a : Answer) × (lookup k kept ≡ some a)

insert-IsKept :
    (k j : String) (a : Answer) (kept : List (String × Answer))
    → IsKept k kept
    → IsKept k (insert j a kept)
insert-IsKept k j a kept (b, e) = elim (Bool-cases (str_eq j k)) [
  | inl same ↦ (a, rw (lookup-insert j k a kept, same) refl)
  | inr other ↦ (b, rw (lookup-insert j k a kept, other) e)
]

stored-IsKept :
    (k : String) (a : Answer) (es : List Effect) (kept : List (String × Answer))
    → IsKept k kept
    → IsKept k (stored a es kept)
unfolding stored
stored-IsKept k a [] kept h = h
stored-IsKept k a (keep_answer j ∷ es) kept h =
    stored-IsKept k a es (insert j a kept) (insert-IsKept k j a kept h)
stored-IsKept k a (toast x y z ∷ es) kept h = stored-IsKept k a es kept h
stored-IsKept k a (finish_line_load ∷ es) kept h = stored-IsKept k a es kept h
stored-IsKept k a (clear_timer ∷ es) kept h = stored-IsKept k a es kept h
stored-IsKept k a (set_job_cache ∷ es) kept h = stored-IsKept k a es kept h
stored-IsKept k a (slide_open ∷ es) kept h = stored-IsKept k a es kept h
stored-IsKept k a (poll ∷ es) kept h = stored-IsKept k a es kept h

-- a request is for another log
abbrev pub IsOther : String → Request → Type 0
IsOther k r = str_eq (key r.site r.job_id) k ≡ false

module _ (fresh current : Settings) (k : String) where
  abbrev Holds : Console → Type 0
  Holds c = IsKept k c.kept × All (IsOther k) c.requests

  receive-Holds :
      (site : String) (a : Answer) (c : Console) → Holds c → Holds (receive fresh current site a c)
  unfolding receive
  receive-Holds site a c (h, r) =
      (stored-IsKept k a (draw_joblog fresh current site a c.window).1 c.kept h, r)

  -- what is missing is not under the key
  missing-IsOther :
      (j : String) (kept : List (String × Answer))
      → IsKept k kept
      → lookup j kept ≡ none
      → str_eq j k ≡ false
  missing-IsOther j kept (b, e) missing = elim (Bool-cases (str_eq j k)) [
    | inl same ↦ let e' : lookup j kept ≡ some b = rw ((eq_iff j k).0 same) e in cc
    | inr other ↦ other
  ]

  -- the page that is looked at again, and the request of a visit
  abbrev viewed : Visit → Console → Console
  viewed v c = record c {
    window = record c.window { is_viewing = v.is_click || c.window.is_viewing };
  }

  abbrev request_of : Visit → Console → Request
  request_of v c = record {
    site = v.site;
    job_id = v.id;
    since = 0;
    shows_load = not (is_update v.id (viewed v c).window);
  }

  visit-Holds : (v : Visit) (c : Console) → Holds c → Holds (visit fresh current v c)
  unfolding visit shown_or_asked get_job_details
  visit-Holds v c (h, r) = elim (Option-cases (lookup (key v.site v.id) c.kept)) [
    | inl missing ↦
        let r' : Request = request_of v c in
        rw (missing, get_job_details)
          (receive-Holds v.site v.reply
            (record c {
              window = record c.window { is_viewing = v.is_viewing };
              requests = c.requests ++ r' ∷ [];
            })
            (
              h,
              All-append (IsOther k) c.requests (r' ∷ []) r
                  (missing-IsOther (key v.site v.id) c.kept h missing, tt),
            ))
    | inr (a, e) ↦ rw (e, get_job_details) (receive-Holds v.site a (viewed v c) (h, r))
  ]

  visits-Holds : (vs : List Visit) (c : Console) → Holds c → Holds (visits fresh current vs c)
  unfolding visits
  visits-Holds [] c h = h
  visits-Holds (v ∷ vs) c h = visits-Holds vs _ (visit-Holds v c h)

stored-append :
    (a : Answer) (es more : List Effect) (kept : List (String × Answer))
    → stored a (es ++ more) kept ≡ stored a more (stored a es kept)
unfolding stored
stored-append a [] more kept = refl
stored-append a (keep_answer j ∷ es) more kept = stored-append a es more (insert j a kept)
stored-append a (toast x y z ∷ es) more kept = stored-append a es more kept
stored-append a (finish_line_load ∷ es) more kept = stored-append a es more kept
stored-append a (clear_timer ∷ es) more kept = stored-append a es more kept
stored-append a (set_job_cache ∷ es) more kept = stored-append a es more kept
stored-append a (slide_open ∷ es) more kept = stored-append a es more kept
stored-append a (poll ∷ es) more kept = stored-append a es more kept

-- what follows takes nothing away
more-IsKept :
    (k : String) (a : Answer) (es more : List Effect) (kept : List (String × Answer))
    → IsKept k (stored a es kept)
    → IsKept k (stored a (es ++ more) kept)
more-IsKept k a es more kept h =
    rw (stored-append a es more kept) (stored-IsKept k a more (stored a es kept) h)

begun-IsKept :
    (site : String) (a : Answer) (kept : List (String × Answer))
    → at_least 4 a.job.status ≡ true
    → IsKept (key site a.job_id) (stored a (begun site a) kept)
unfolding begun stored
begun-IsKept site a kept over =
    let k = key site a.job_id in
    rw over (
      stored-IsKept k a (when a.has_timestamp set_job_cache) (insert k a kept)
        (a, lookup-insert k k a kept ∙ (let same : str_eq k k ≡ true = eq_refl k in rw same refl)))

-- what is drawn of a job that is over is kept
finished-IsKept :
    (fresh current : Settings) (site : String) (a : Answer) (w : Window)
    (kept : List (String × Answer))
    → str_eq a.result "success" ≡ true
    → w.is_viewing ≡ true
    → at_least 4 a.job.status ≡ true
    → IsKept (key site a.job_id) (stored a (draw_joblog fresh current site a w).1 kept)
unfolding draw_joblog
finished-IsKept fresh current site a w kept fine viewing over =
    let k = key site a.job_id in
    let first = begun-IsKept site a kept over in
    elim (Bool-cases (is_shown w a)) [
      | inl e ↦ rw (fine, viewing, e) (more-IsKept k a _ _ kept (more-IsKept k a _ _ kept first))
      | inr e ↦
          rw (fine, viewing, e)
            (more-IsKept k a _ _ kept (more-IsKept k a _ _ kept (more-IsKept k a _ _ kept first)))
    ]

-- Once an answer has been drawn for a job whose status is at least 4, on a page that shows logs,
-- no later visit of the same page, to this log or to others, asks for that log again, whatever the
-- service replies and whether or not it is still looked at, as long as nothing else removes items
-- from the storage.
pub visits-once :
    (fresh current : Settings) (site : String) (a : Answer) (c : Console) (vs : List Visit)
    → c.requests ≡ []
    → str_eq a.result "success" ≡ true
    → c.window.is_viewing ≡ true
    → at_least 4 a.job.status ≡ true
    → All
        (IsOther (key site a.job_id))
        (visits fresh current vs (receive fresh current site a c)).requests
unfolding receive
visits-once fresh current site a c vs none_yet fine viewing over =
    let k = key site a.job_id in
    (visits-Holds fresh current k vs (receive fresh current site a c)
      (finished-IsKept fresh current site a c.window c.kept fine viewing over, rw none_yet tt)).1
