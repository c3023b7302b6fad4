-- ===== src/Actions/Once.antt =====
-- How often a quick restore is sent.
use alike.Base.{
  ℕ, suc, String, List, [], ◌∷◌, ◌++◌, Bool, true, false, not, ◌||◌, ◌≡◌, refl, ap, arith, ◌==◌,
  if◌then◌else◌, length, any, Bool-cases, inl, inr,
}
use alike.Schedules.Backup.{all_checked, checked_ids}
use alike.Actions.{
  Step, show_line_load, finish_line_load, remove_row, request, list_licenses, toast, Window,
  RestoreArgs, quick_restore_start,
}

-- between two clicks the user checks other boxes
unfoldable pub presses : List (List (String × Bool)) → Window → List (Step RestoreArgs)
presses [] w = []
presses (disks ∷ ds) w =
    let r = quick_restore_start (record w { disks = disks }) in r.1 ++ presses ds r.0

abbrev pub requests : List (Step RestoreArgs) → ℕ
requests [] = 0
requests (request c a site ∷ steps) = suc (requests steps)
requests (show_line_load ∷ steps) = requests steps
requests (finish_line_load ∷ steps) = requests steps
requests (remove_row ∷ steps) = requests steps
requests (list_licenses ∷ steps) = requests steps
requests (toast m t k ∷ steps) = requests steps

-- something is left to restore
abbrev pub is_some_checked : List (String × Bool) → Bool
is_some_checked disks = all_checked disks || any (λ d. d.1) disks

presses-disarmed :
    (ds : List (List (String × Bool))) (w : Window)
    → w.is_armed ≡ false
    → requests (presses ds w) ≡ 0
unfolding presses quick_restore_start
presses-disarmed [] w h = refl
presses-disarmed (disks ∷ ds) w h =
    rw h (presses-disarmed ds (record w { disks = disks; is_armed = false }) refl)

checked_ids-any :
    (disks : List (String × Bool)) → (length (checked_ids disks) == 0) ≡ not (any (λ d. d.1) disks)
unfolding checked_ids
checked_ids-any [] = refl
checked_ids-any ((id, true) ∷ disks) = ground arith
checked_ids-any ((id, false) ∷ disks) = checked_ids-any disks

-- However often the button of a quick restore is clicked, and whichever boxes are checked at each
-- click, the restore is sent once if at some click a box was checked or there was no disk, and
-- otherwise never.
pub presses-requests :
    (ds : List (List (String × Bool))) (w : Window)
    → w.is_armed ≡ true
    → requests (presses ds w) ≡ (if any is_some_checked ds then 1 else 0)
unfolding presses quick_restore_start
presses-requests [] w h = refl
presses-requests (disks ∷ ds) w h = elim (Bool-cases (all_checked disks)) [
  | inl e ↦
      rw (h, e)
        (ap (λ n. suc n) (presses-disarmed ds (record w { disks = disks; is_armed = false }) refl))
  | inr e ↦ elim (Bool-cases (any (λ d. d.1) disks)) [
    | inl k ↦
        rw (h, e, checked_ids-any disks, k)
          (ap (λ n. suc n)
            (presses-disarmed ds (record w { disks = disks; is_armed = false }) refl))
    | inr k ↦
        rw (h, e, checked_ids-any disks, k)
          (presses-requests ds (record w { disks = disks; is_armed = true }) refl)
  ]
]
