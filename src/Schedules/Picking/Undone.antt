-- ===== src/Schedules/Picking/Undone.antt =====
-- A system that is chosen and given back.
use alike.Base.{
  ℕ, List, [], ◌∷◌, ◌++◌, map, Option, some, none, ◌≡◌, refl, length, ◌==◌, Bool-cases,
  Option-cases, inl, inr,
}
use alike.Schedules.Picking.{
  System, Page, in_source, take_out, sort_by, show_disk_list, take_system, give_back,
  sched_src_item, choose_system, close_other_tabs, open_without_systems, return_system, sched_trash,
}
use alike.Schedules.Picking.Back.{IsStrict, taken-sort_by}
use alike.Schedules.Picking.Kept.{system, system_trash, clicks, click, system_place}

take_out-last : {A : Type 0} (l : List A) (x : A) → take_out (l ++ x ∷ []) (length l) ≡ some (x, l)
unfolding take_out
take_out-last [] x = refl
take_out-last (y ∷ l) x = rw (take_out-last l x) refl

take_out-beyond : {A : Type 0} (l : List A) → take_out l (length l) ≡ none
unfolding take_out
take_out-beyond [] = refl
take_out-beyond (x ∷ l) = rw (take_out-beyond l) refl

-- a system that goes both ways keeps its place and its name
there_and_back :
    (s : System)
    → ((give_back (take_system s)).uuid ≡ s.uuid) × (s.place ≡ (give_back (take_system s)).place)
unfolding give_back take_system show_disk_list
there_and_back s = elim (Option-cases s.disks) [
  | inl e ↦ rw e (refl, refl)
  | inr (d, e) ↦ rw e (refl, refl)
]

abbrev IsUndone : Page → Page → Type 0
IsUndone p q = (map (λ s. s.uuid) q.systems ≡ map (λ s. s.uuid) p.systems) × (q.chosen ≡ p.chosen)

opened-IsUndone : (p q : Page) → IsUndone p q → IsUndone p (open_without_systems q)
unfolding open_without_systems
opened-IsUndone p q u = elim (Bool-cases (length q.chosen == 0)) [ inl e ↦ rw e u | inr e ↦ rw e u ]

undone :
    (p : Page) (i : ℕ) (t : Option (System × List System))
    → take_out p.systems i ≡ t
    → IsStrict system_place p.systems
    → IsUndone p (sched_trash (length p.chosen) (choose_system p t))
unfolding sched_trash choose_system return_system close_other_tabs
undone p i none e s = rw (take_out-beyond p.chosen) (refl, refl)
undone p i (some (x, rest)) e s =
    let back : System = give_back (take_system x) in
    let q : Page = record (choose_system p (some (x, rest))) {
      systems = sort_by system_place (rest ++ back ∷ []);
      chosen = p.chosen;
    } in
    rw (take_out-last p.chosen (take_system x)) (
      opened-IsUndone p q (
        taken-sort_by system_place (λ z. z.uuid) p.systems i back s e (there_and_back x).1
            (there_and_back x).0,
        refl,
      ))

-- In a form whose systems are in the strict order of their places, a system that is chosen and
-- then given back stands where it was, and the systems that were chosen before are as they were.
pub clicks-there_and_back :
    (i : ℕ) (p : Page)
    → IsStrict system_place p.systems
    → (map
          (λ s. s.uuid)
          (clicks (system (in_source i) ∷ system_trash (length p.chosen) ∷ []) p).systems
        ≡ map (λ s. s.uuid) p.systems)
      × ((clicks (system (in_source i) ∷ system_trash (length p.chosen) ∷ []) p).chosen ≡ p.chosen)
unfolding clicks click sched_src_item
clicks-there_and_back i p s = undone p i (take_out p.systems i) refl s
