-- ===== src/Schedules/Created/Sent.antt =====
-- To which A3 the calls of a new schedule go.
use alike.Base.{
  ℕ, String, List, [], ◌∷◌, ◌++◌, map, Bool, true, false, Option, some, none, ◌≡◌, ◌⊎◌, refl, arith,
  any, All, str_eq, Bool-cases, Option-cases, inl, inr, length, ◌==◌, ◌&&◌, ◌||◌,
}
use alike.Storage.{A3, Storage}
use alike.Hosts.{known_a3s}
use alike.Schedules.{
  Form, Awaited, fulfilled, thrown, unsettled, Step, show_line_load, finish_line_load,
  draw_schedules_table, toast, request, run_schedule, after_rep, after_restore, save_schedule_rep,
  save_schedule_restore,
}
use alike.Schedules.Backup.{BackupForm, backup_sources, save_schedule_backup}
use alike.Schedules.Created.{
  Pick, type_error, no_a3s, hidden, choice, pick_of, handle_edit_schedule, Opened, backup,
  replication, restore, create_new_backup, create_new_replicate, create_new_restore, sched_type_new,
}

-- the sites of what is sent
abbrev pub sent_to : {A : Type 0} → List (Step A) → List String
sent_to [] = []
sent_to (request a site ∷ steps) = site ∷ sent_to steps
sent_to (run_schedule id site ∷ steps) = site ∷ sent_to steps
sent_to (show_line_load ∷ steps) = sent_to steps
sent_to (finish_line_load ∷ steps) = sent_to steps
sent_to (draw_schedules_table ∷ steps) = sent_to steps
sent_to (toast m t k ∷ steps) = sent_to steps

-- the sites of the calls that fill a form, and of those of its save
abbrev pub sites : Opened → Awaited → List String
sites (backup id f calls) w = map (λ c. c.site) calls ++ sent_to (save_schedule_backup id f w)
sites (replication id f calls) w = map (λ c. c.site) calls ++ sent_to (save_schedule_rep id f w)
sites (restore id f calls) w = map (λ c. c.site) calls ++ sent_to (save_schedule_restore id f w)

-- of what a click opens, if it opens a form
abbrev pub opened_sites : Option Opened → Awaited → List String
opened_sites none w = []
opened_sites (some o) w = sites o w

-- the value of the field, or of one of the options
abbrev pub is_picked : Pick → String → Bool
is_picked type_error id = false
is_picked no_a3s id = false
is_picked (hidden x) id = str_eq x id
is_picked (choice l) id = any (λ o. str_eq o.0 id) l

abbrev pub has_id : Option (List A3) → String → Bool
has_id none id = false
has_id (some l) id = any (λ a. str_eq a.id id) l

any-options :
    (l : List A3) (id : String)
    → any (λ (o : String × String). str_eq o.0 id) (map (λ x. (x.id, x.name)) l)
      ≡ any (λ a. str_eq a.id id) l
any-options [] id = refl
any-options (a ∷ l) id = rw (any-options l id) refl

pick_of-has_id : (l : Option (List A3)) (id : String) → is_picked (pick_of l) id ≡ has_id l id
unfolding pick_of
pick_of-has_id none id = refl
pick_of-has_id (some []) id = refl
pick_of-has_id (some (a ∷ [])) id = ground arith
pick_of-has_id (some (a ∷ b ∷ rest)) id = any-options (a ∷ b ∷ rest) id

after_rep_to :
    (A : Type 0) (a3id : String) (w : Awaited)
    → All (λ site. site ≡ a3id) (sent_to (after_rep {A = A} w))
unfolding after_rep
after_rep_to A a3id (fulfilled id) = tt
after_rep_to A a3id (thrown message) = tt
after_rep_to A a3id unsettled = tt

backup_to :
    (id : String) (f : BackupForm) (w : Awaited)
    → All (λ site. site ≡ f.sched_a3id) (sent_to (save_schedule_backup id f w))
unfolding save_schedule_backup
backup_to id f w = elim (Bool-cases (str_eq f.keyword "" && (length (backup_sources f) == 0))) [
  | inl empty ↦ rw empty tt
  | inr filled ↦ rw filled (refl, after_rep_to _ f.sched_a3id w)
]

rep_to :
    (id : String) (f : Form) (w : Awaited)
    → All (λ site. site ≡ f.sched_a3id) (sent_to (save_schedule_rep id f w))
unfolding save_schedule_rep
rep_to id f w = elim (Bool-cases (length f.targets == 0)) [
  | inl empty ↦ rw empty tt
  | inr filled ↦ rw filled (refl, after_rep_to _ f.sched_a3id w)
]

after_restore_to :
    (f : Form) (w : Awaited) → All (λ site. site ≡ f.sched_a3id) (sent_to (after_restore f w))
unfolding after_restore
after_restore_to f (fulfilled none) = tt
after_restore_to f (fulfilled (some id)) = elim (Bool-cases (f.sched_freq == 5)) [
  | inl at_once ↦ rw at_once (refl, tt)
  | inr later ↦ rw later tt
]
after_restore_to f (thrown message) = tt
after_restore_to f unsettled = tt

restore_to :
    (id : String) (f : Form) (w : Awaited)
    → All (λ site. site ≡ f.sched_a3id) (sent_to (save_schedule_restore id f w))
unfolding save_schedule_restore
restore_to id f w = elim (Bool-cases (length f.targets == 0)) [
  | inl empty ↦ rw empty tt
  | inr filled ↦ rw filled (refl, after_restore_to f w)
]

opened_to :
    (hour minute date : ℕ) (b : BackupForm) (f : Form) (a3id : String) (w : Awaited)
    → All (λ site. site ≡ a3id) (sites (create_new_backup hour minute date b a3id) w)
      × All (λ site. site ≡ a3id) (sites (create_new_replicate hour minute date f a3id) w)
      × All (λ site. site ≡ a3id) (sites (create_new_restore hour minute date f a3id) w)
unfolding create_new_backup create_new_replicate create_new_restore
opened_to hour minute date b f a3id w =
    ((refl, (refl, backup_to "0" _ w)), (refl, (refl, rep_to "0" _ w)), (refl, restore_to "0" _ w))

abbrev pub is_opened : Option Opened → Bool
is_opened none = false
is_opened (some o) = true

-- the types of the buttons
abbrev pub is_button : String → Bool
is_button type = str_eq type "backup" || str_eq type "restore" || str_eq type "replicate"

opened_by :
    (hour minute date edition : ℕ) (b : BackupForm) (f : Form) (warned : Bool) (type a3id : String)
    (o : Opened)
    → (sched_type_new hour minute date edition b f warned type a3id).1 ≡ some o
    → (o ≡ create_new_backup hour minute date b a3id)
      ⊎ ((o ≡ create_new_replicate hour minute date f a3id)
          ⊎ (o ≡ create_new_restore hour minute date f a3id))
unfolding sched_type_new
opened_by hour minute date edition b f warned type a3id o h = ground arith

click_to :
    (hour minute date edition : ℕ) (b : BackupForm) (f : Form) (warned : Bool) (type a3id : String)
    (w : Awaited)
    → All
        (λ site. site ≡ a3id)
        (opened_sites (sched_type_new hour minute date edition b f warned type a3id).1 w)
click_to hour minute date edition b f warned type a3id w =
    let (to_backup, to_rep, to_restore) = opened_to hour minute date b f a3id w in
    elim (Option-cases (sched_type_new hour minute date edition b f warned type a3id).1) [
      | inl e ↦ rw e tt
      | inr (o, e) ↦ rw e (elim (opened_by hour minute date edition b f warned type a3id o e) [
        | inl e ↦ rw e to_backup
        | inr (inl e) ↦ rw e to_rep
        | inr (inr e) ↦ rw e to_restore
      ])
    ]

-- Whichever A3 is picked on the page of a new schedule, and whichever type: it is one of the A3s that
-- are kept, and every call that fills a form that a click opens, and every one that saves or starts what is filled
-- in, goes to it. Of each type whose button is clicked twice the second click opens a form,
-- whatever the edition is, also where the first one only warns.
pub created-sites :
    (hour minute date edition : ℕ) (s : Storage) (b : BackupForm) (f : Form) (warned : Bool)
    (type a3id : String) (w : Awaited)
    → is_picked (handle_edit_schedule s) a3id ≡ true
    → (has_id (known_a3s s) a3id ≡ true)
      × All
          (λ site. site ≡ a3id)
          (opened_sites (sched_type_new hour minute date edition b f warned type a3id).1 w)
      × (is_opened
            (sched_type_new hour minute date edition b f
              (sched_type_new hour minute date edition b f warned type a3id).0
              type
              a3id).1
          ≡ is_button type)
unfolding handle_edit_schedule sched_type_new
created-sites hour minute date edition s b f warned type a3id w picked = (
  rw (← pick_of-has_id (known_a3s s) a3id) picked,
  click_to hour minute date edition b f warned type a3id w,
  ground arith,
)
