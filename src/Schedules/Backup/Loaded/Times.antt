-- ===== src/Schedules/Backup/Loaded/Times.antt =====
-- The times of a schedule that is loaded into a fresh form and saved.
use alike.Base.{
  ℕ, ◌≤◌, String, List, [], ◌∷◌, map, Bool, false, ◌||◌, ◌≡◌, refl, arith, any, ltb, ◌==◌, ==_iff,
  if◌then◌else◌, some, none,
}
use alike.Schedules.{clamped_min}
use alike.Schedules.Backup.{BackupForm, backup_args}
use alike.Schedules.Backup.Loaded.{
  Stored, includes, day_texts, check_days, select, level_of, set_shared_sched,
}

abbrev pub is_among : List ℕ → ℕ → Bool
is_among os v = any (λ o. o == v) os

-- once a day, and each 15 and 30 minutes and 1, 2, 4, 6, 8 and 12 hours
abbrev pub offered : List ℕ
offered = 0 ∷ 900 ∷ 1800 ∷ 3600 ∷ 7200 ∷ 14400 ∷ 21600 ∷ 28800 ∷ 43200 ∷ []

days_of :
    (days texts : List String)
    → check_days days texts (map (λ t. false) texts) ≡ map (includes days) texts
unfolding check_days
days_of days [] = refl
days_of days (t ∷ ts) = rw (days_of days ts, or_false (includes days t)) refl
  where
    or_false : (b : Bool) → (b || false) ≡ b
    or_false b = ground arith

select-listed :
    (os : List ℕ) (v : ℕ) → select os v ≡ (if any (λ o. o == v) os then some v else none)
unfolding select
select-listed [] v = refl
select-listed (o ∷ os) v = ground (arith, select-listed os v, ==_iff o v)

-- A schedule that is loaded into a form without a day checked, and saved, keeps its id and its name; its
-- type if it is daily, monthly or by hand, and its interval if the page offers it, and else neither;
-- its number of concurrent systems, or the form's if it is 0, and its level of messages up to 2. It is sent with exactly its days, from Monday on, and the local hour of
-- its time; its minute too, which is below 60.
pub backup_args-set_shared_sched :
    (local_time : ℕ → ℕ × ℕ) (local_date : ℕ → ℕ) (d : Stored) (a3id : String) (f : BackupForm)
    → f.weekdays ≡ map (λ t. false) day_texts
    → (local_time d.timestamp).1 ≤ 59
    → let (id, form) = set_shared_sched local_time local_date d a3id f in
      let a = backup_args id form in
      (a.id ≡ d.id)
      × (a.name ≡ d.name)
      × (a.stype
          ≡ (if is_among (0 ∷ 1 ∷ 4 ∷ []) d.schedule_type then some d.schedule_type else none))
      × (a.interval ≡ (if is_among offered d.interval then some d.interval else none))
      × (a.concurrent ≡ (if d.num_concurrent == 0 then f.num_concurrent else d.num_concurrent))
      × (a.email ≡ (if ltb 2 d.allow_job_email then 2 else d.allow_job_email))
      × (a.monthday ≡ local_date d.timestamp)
      × (a.days ≡ map (includes d.days) day_texts)
      × (a.hour ≡ (local_time d.timestamp).0)
      × (a.min ≡ (local_time d.timestamp).1)
unfolding set_shared_sched backup_args clamped_min level_of
backup_args-set_shared_sched local_time local_date d a3id f fresh minute = (
  refl,
  refl,
  select-listed (0 ∷ 1 ∷ 4 ∷ []) d.schedule_type,
  select-listed offered d.interval,
  refl,
  refl,
  refl,
  rw fresh (days_of d.days day_texts),
  refl,
  ground arith,
)
