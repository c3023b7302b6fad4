-- ===== src/Schedules/Edited/Opened.antt =====
-- The systems and hosts that are saved again of a backup that was loaded.
use alike.Base.{
  ℕ, suc, String, List, [], ◌∷◌, map, Bool, true, false, not, ◌&&◌, ◌≡◌, refl, ap, ◌∙◌, arith, ◌==◌,
  ltb, if◌then◌else◌, length, str_eq, Bool-cases, inl, inr,
}
use alike.Schedules.Backup.{
  BackupForm, Source, vm, host, volumes, backup_args, backup_sources, policy_type,
}
use alike.Schedules.Backup.Loaded.{loaded}
use alike.Schedules.Picking.{Host, Page, target_of, disk_rows, picked}
use alike.Schedules.Picking.Listed.{make_source_item, make_source_host, sched_tabber}
use alike.Schedules.Edited.{
  StoredVm, StoredHost, StoredBackup, edit_backup_options, new_backup_options, disk_ids,
  edited_system, edited_host, edit_tabs, edit_lists,
}
use alike.Schedules.Edited.Again.{again}

-- the systems that a stored backup has, as they are sent
abbrev pub vm_sources : StoredBackup → List Source
vm_sources d = map (λ v. vm v.uuid (volumes (loaded v.uuid (disk_ids 0 v.disks) v.volumes))) d.vms

abbrev pub host_sources : StoredBackup → List Source
host_sources d = map (λ h. host h.uuid) d.hosts

-- a keyword for the types 2 and 3 alone; hosts for the type 1 alone, without systems; systems for
-- the type 0
abbrev pub is_consistent : StoredBackup → Bool
is_consistent d =
    ltb d.policy_type 4
    && (if ltb 1 d.policy_type
        then not (str_eq d.policy_filter "")
        else str_eq d.policy_filter ""
          && (if d.policy_type == 1
              then length d.vms == 0 && not (length d.hosts == 0)
              else not (length d.vms == 0)))

module _ (text : String → String) where
  -- nothing is chosen in the form yet
  abbrev pub opened : StoredBackup → Page → Page
  opened d p = edit_lists text d (record p { chosen = []; chosen_hosts = [] })

  opened-chosen :
      (d : StoredBackup) (p : Page) → (opened d p).chosen ≡ map (edited_system text) d.vms
  unfolding edit_lists edit_tabs sched_tabber
  opened-chosen d p = elim (Bool-cases (ltb 1 d.policy_type)) [
    | inl e ↦ rw e refl
    | inr e ↦ elim (Bool-cases (d.policy_type == 1)) [
      | inl k ↦ rw (e, k) refl
      | inr k ↦ rw (e, k) refl
    ]
  ]

  opened-chosen_hosts :
      (d : StoredBackup) (p : Page)
      → (opened d p).chosen_hosts
        ≡ (if d.policy_type == 1 then map (edited_host text) d.hosts else [])
  unfolding edit_lists edit_tabs sched_tabber
  opened-chosen_hosts d p = elim (Bool-cases (ltb 1 d.policy_type)) [
    | inl e ↦ let other : (d.policy_type == 1) ≡ false = ground (arith, e) in rw (e, other) refl
    | inr e ↦ elim (Bool-cases (d.policy_type == 1)) [
      | inl k ↦ rw (e, k) refl
      | inr k ↦ rw (e, k) refl
    ]
  ]

  -- the boxes of the disks are those that `loaded` gives
  sent_systems :
      (l : List StoredVm)
      → map (λ t. vm t.uuid (volumes t)) (map target_of (map (edited_system text) l))
        ≡ map (λ v. vm v.uuid (volumes (loaded v.uuid (disk_ids 0 v.disks) v.volumes))) l
  unfolding target_of edited_system disk_rows make_source_item loaded
  sent_systems [] = refl
  sent_systems (v ∷ l) =
      ap (λ r. vm v.uuid (volumes (loaded v.uuid (disk_ids 0 v.disks) v.volumes)) ∷ r)
        (sent_systems l)

  sent_hosts :
      (l : List StoredHost)
      → map (λ h. host h) (map (λ (h : Host). h.uuid) (map (edited_host text) l))
        ≡ map (λ h. host h.uuid) l
  unfolding edited_host make_source_host
  sent_hosts [] = refl
  sent_hosts (h ∷ l) = ap (λ r. host h.uuid ∷ r) (sent_hosts l)

  -- the systems count if there are any
  sent_sources :
      (vms : List StoredVm) (hs : List StoredHost) (one : Bool)
      → (if one then length vms == 0 else true) ≡ true
      → (if length (map target_of (map (edited_system text) vms)) == 0
          then map
              (λ h. host h)
              (map (λ (h : Host). h.uuid) (if one then map (edited_host text) hs else []))
          else map (λ t. vm t.uuid (volumes t)) (map target_of (map (edited_system text) vms)))
        ≡ (if one
            then map (λ h. host h.uuid) hs
            else map (λ v. vm v.uuid (volumes (loaded v.uuid (disk_ids 0 v.disks) v.volumes))) vms)
  sent_sources [] hs true e = sent_hosts hs
  sent_sources [] hs false e = refl
  sent_sources (v ∷ vms) hs true e = ground arith
  sent_sources (v ∷ vms) hs false e =
      let some_vms : (suc (length (map target_of (map (edited_system text) vms))) == 0) ≡ false =
        ground arith in
      rw some_vms (sent_systems (v ∷ vms))

  length-map : {A B : Type 0} (f : A → B) (l : List A) → length (map f l) ≡ length l
  length-map f [] = refl
  length-map f (x ∷ xs) = ap (λ n. suc n) (length-map f xs)

  length-hosts :
      (hs : List StoredHost) (one : Bool)
      → length (map (λ (h : Host). h.uuid) (if one then map (edited_host text) hs else []))
        ≡ (if one then length hs else 0)
  length-hosts hs true = length-map _ (map (edited_host text) hs) ∙ length-map _ hs
  length-hosts hs false = refl

  -- the form that is saved
  abbrev pub saved_form : StoredBackup → List ℕ → Page → BackupForm → BackupForm
  saved_form d ids p f = picked (opened d p) (again d ids f)

  sources-opened :
      (d : StoredBackup) (ids : List ℕ) (p : Page) (f : BackupForm)
      → is_consistent d ≡ true
      → backup_sources (saved_form d ids p f)
        ≡ (if d.policy_type == 1 then host_sources d else vm_sources d)
  unfolding backup_sources picked
  sources-opened d ids p f h =
      rw (opened-chosen d p, opened-chosen_hosts d p)
        (sent_sources d.vms d.hosts (d.policy_type == 1) (ground arith))

  length-opened :
      (d : StoredBackup) (ids : List ℕ) (p : Page) (f : BackupForm)
      → (length (saved_form d ids p f).targets ≡ length d.vms)
        × (length (saved_form d ids p f).hosts ≡ (if d.policy_type == 1 then length d.hosts else 0))
  unfolding picked
  length-opened d ids p f =
      rw (opened-chosen d p, opened-chosen_hosts d p)
        (
          length-map target_of (map (edited_system text) d.vms) ∙ length-map _ d.vms,
          length-hosts d.hosts (d.policy_type == 1),
        )

  policy_type-opened :
      (d : StoredBackup) (ids : List ℕ) (p : Page) (f : BackupForm)
      → is_consistent d ≡ true
      → policy_type (saved_form d ids p f) ≡ d.policy_type
  unfolding policy_type picked edit_backup_options new_backup_options
  policy_type-opened d ids p f h =
      let sizes = length-opened d ids p f in ground (arith, sizes.0, sizes.1)

  -- A stored backup that is consistent, opened in a form in which nothing is chosen and saved
  -- unchanged, is sent with its type, and with its hosts if the type is 1, otherwise with its
  -- systems, each with the volumes that the boxes of its disks stand for.
  pub backup_args-opened :
      (id : String) (d : StoredBackup) (ids : List ℕ) (p : Page) (f : BackupForm)
      → is_consistent d ≡ true
      → ((backup_args id (saved_form d ids p f)).policy_type ≡ d.policy_type)
        × ((backup_args id (saved_form d ids p f)).sources
            ≡ (if d.policy_type == 1 then host_sources d else vm_sources d))
  unfolding backup_args
  backup_args-opened id d ids p f h = (policy_type-opened d ids p f h, sources-opened d ids p f h)
