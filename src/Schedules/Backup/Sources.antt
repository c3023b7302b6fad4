-- ===== src/Schedules/Backup/Sources.antt =====
-- What a backup is sent for.
use alike.Base.{
  suc, ◌≤◌, String, List, [], ◌∷◌, map, Bool, true, false, ◌&&◌, ◌||◌, ◌≡◌, refl, ap, arith, ◌==◌,
  ltb, if◌then◌else◌, length, Bool-cases, inl, inr, str_eq, not, any,
}
use alike.Schedules.{Awaited, show_line_load, request, no_systems, after_rep}
use alike.Schedules.Saved.{sent, is_busy, is_unsettled, after_rep-is_busy, clamped_min-le}
use alike.Schedules.Backup.{
  Target, BackupForm, checked_ids, all_checked, volumes, backup_sources, policy_type, backup_args,
  save_schedule_backup,
}

abbrev pub is_nil {ℓ} : {A : Type ℓ} → List A → Bool
is_nil [] = true
is_nil (x ∷ xs) = false

abbrev pub none_checked : List (String × Bool) → Bool
none_checked disks = not (any (λ d. d.1) disks)

checked_ids-is_nil :
    (disks : List (String × Bool)) → is_nil (checked_ids disks) ≡ none_checked disks
unfolding checked_ids
checked_ids-is_nil [] = refl
checked_ids-is_nil ((id, checked) ∷ disks) = ground (arith, checked_ids-is_nil disks)

-- A system is sent without volumes exactly if all of its disks are checked or none is.
pub volumes-is_nil :
    (t : Target) → is_nil (volumes t) ≡ (all_checked t.disks || none_checked t.disks)
unfolding volumes
volumes-is_nil t = ground (arith, checked_ids-is_nil t.disks)

length-map : {A B : Type 0} (f : A → B) (l : List A) → length (map f l) ≡ length l
length-map f [] = refl
length-map f (x ∷ xs) = ap (λ n. suc n) (length-map f xs)

length-backup_sources :
    (f : BackupForm)
    → length (backup_sources f)
      ≡ (if length f.targets == 0 then length f.hosts else length f.targets)
unfolding backup_sources
length-backup_sources f = elim (Bool-cases (length f.targets == 0)) [
  | inl e ↦ rw e (length-map _ f.hosts)
  | inr e ↦ rw e (length-map _ f.targets)
]

abbrev pub is_empty : BackupForm → Bool
is_empty f = str_eq f.keyword "" && (length f.targets == 0) && (length f.hosts == 0)

is_empty_lem :
    (f : BackupForm) → (str_eq f.keyword "" && (length (backup_sources f) == 0)) ≡ is_empty f
is_empty_lem f = ground (arith, length-backup_sources f)

saved :
    (id : String) (f : BackupForm) (w : Awaited)
    → save_schedule_backup id f w ≡ (
        if is_empty f
        then no_systems
        else show_line_load ∷ request (backup_args id f) f.sched_a3id ∷ after_rep w)
unfolding save_schedule_backup
saved id f w =
    ap
      (λ b.
        if b
        then no_systems
        else show_line_load ∷ request (backup_args id f) f.sched_a3id ∷ after_rep w)
      (is_empty_lem f)

sent_once :
    (id : String) (f : BackupForm) (w : Awaited)
    → (sent (save_schedule_backup id f w) ≡ (if is_empty f then [] else backup_args id f ∷ []))
      × (is_busy false (save_schedule_backup id f w)
          ≡ (if is_empty f then false else is_unsettled w))
sent_once id f w = elim (Bool-cases (is_empty f)) [
  | inl e ↦ rw (saved id f w, e) (refl, refl)
  | inr e ↦
      rw (saved id f w, e)
        (ap (λ l. backup_args id f ∷ l) (after_rep-is_busy w).0, (after_rep-is_busy w).1)
]

-- A backup with neither systems nor hosts nor a keyword is not sent. Any other is sent once, with
-- as many sources as there are systems, or hosts where there are no systems. Its type is 2 or 3 if
-- it has a keyword, otherwise 1 if it has hosts in place of systems, otherwise 0; its minute is at
-- most 59. The page stays busy exactly if the request was sent and its promise stays pending.
pub save_schedule_backup_lem :
    (id : String) (f : BackupForm) (w : Awaited)
    → (sent (save_schedule_backup id f w) ≡ (if is_empty f then [] else backup_args id f ∷ []))
      × (length (backup_args id f).sources
          ≡ (if length f.targets == 0 then length f.hosts else length f.targets))
      × ((backup_args id f).min ≤ 59)
      × (ltb 1 (backup_args id f).policy_type ≡ not (str_eq f.keyword ""))
      × (((backup_args id f).policy_type == 1)
          ≡ (str_eq f.keyword "" && (length f.targets == 0) && not (length f.hosts == 0)))
      × (is_busy false (save_schedule_backup id f w)
          ≡ (if is_empty f then false else is_unsettled w))
unfolding backup_args policy_type
save_schedule_backup_lem id f w = (
  (sent_once id f w).0,
  length-backup_sources f,
  clamped_min-le f.sched_min,
  ground arith,
  ground arith,
  (sent_once id f w).1,
)
