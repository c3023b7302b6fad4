-- ===== src/Schedules/Edited/Again.antt =====
-- What is saved again of a backup that was loaded.
use alike.Base.{
  ℕ, String, List, [], ◌∷◌, Bool, true, ◌&&◌, ◌||◌, some, none, ◌≡◌, refl, arith, ◌==◌, ltb,
  if◌then◌else◌, any, str_eq, Bool-cases, inl, inr,
}
use alike.Schedules.{flag}
use alike.Schedules.Backup.{BackupForm, backup_args}
use alike.Schedules.Options.{populate_gfs_opts}
use alike.Schedules.Edited.{StoredBackup, edit_backup_options, new_backup_options}

-- the options of a form in which a backup is edited
abbrev pub again : StoredBackup → List ℕ → BackupForm → BackupForm
again d ids f = edit_backup_options d ids (new_backup_options f)

abbrev pub is_ready : StoredBackup → List ℕ → Bool
is_ready d ids = d.gfs_profile == 0 || any (λ i. i == d.gfs_profile) ids

profile :
    (d : StoredBackup) (ids : List ℕ) (f : BackupForm)
    → is_ready d ids ≡ true
    → (if (again d ids f).use_gfs && ltb 0 (again d ids f).gfs_profile
        then some (again d ids f).gfs_profile
        else none)
      ≡ (if d.gfs_profile == 0 then none else some d.gfs_profile)
unfolding edit_backup_options new_backup_options populate_gfs_opts
profile d [] f h = ground arith
profile d (i ∷ ids) f h = elim (Bool-cases (d.gfs_profile == 0)) [
  | inl z ↦ rw z refl
  | inr z ↦
      let listed : any (λ j. j == d.gfs_profile) (i ∷ ids) ≡ true = ground arith in
      let positive : ltb 0 d.gfs_profile ≡ true = ground (arith, z) in rw (listed, z, positive) refl
]

-- A backup that is edited and saved unchanged, after the profiles have arrived with its own among
-- them, is sent with the options that are stored: the method, CBT, the memory, the full backup, the
-- vault, the retention profile, and the keyword.
pub backup_args-again :
    (id : String) (d : StoredBackup) (ids : List ℕ) (f : BackupForm)
    → is_ready d ids ≡ true
    → ((backup_args id (again d ids f)).method ≡ (if d.qhb == 1 then "qhb" else "enh"))
      × ((backup_args id (again d ids f)).cbt ≡ flag d.do_cbt)
      × ((backup_args id (again d ids f)).diskmem ≡ flag d.disk_and_memory)
      × ((backup_args id (again d ids f)).forcefull ≡ flag d.force_full)
      × ((backup_args id (again d ids f)).vault ≡ flag d.vault_enable)
      × ((backup_args id (again d ids f)).gfs
          ≡ (if d.gfs_profile == 0 then none else some d.gfs_profile))
      × ((backup_args id (again d ids f)).keyword
          ≡ (if str_eq d.policy_filter "" then none else some d.policy_filter))
unfolding backup_args flag edit_backup_options new_backup_options
backup_args-again id d ids f h =
    (ground arith, ground arith, ground arith, ground arith, ground arith, profile d ids f h, refl)
