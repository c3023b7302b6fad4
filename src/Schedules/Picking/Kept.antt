-- ===== src/Schedules/Picking/Kept.antt =====
-- What clicks on the lists keep.
use mathlib.Core.List.{Perm}
use mathlib.Core.List.Perm
use alike.Base.{
  ℕ, ℤ, String, List, [], ◌∷◌, ◌++◌, map, false, Option, some, none, ◌≡◌, refl, ap, ◌∙◌, ◌==◌,
  length, Bool-cases, Option-cases, inl, inr,
}
use alike.Schedules.Picking.{
  System, Host, Page, Spot, in_source, in_target, take_out, sort_by, show_disk_list, take_system,
  close_other_tabs, sched_src_item, give_back, open_without_systems, sched_trash, sched_src_host,
  choose_system, return_system, choose_host, return_host, open_without_hosts, sched_host_trash,
}
use alike.Schedules.Picking.Moved.{
  IsSorted, sort_by-IsSorted, taken-IsSorted, moved-perm, sorted_in-perm,
}

-- a click on an item of either list, or on the icon of one that is chosen
pub data Click : Type 0 where
  system host : Spot → Click
  system_trash host_trash : ℕ → Click

unfoldable pub click : Click → Page → Page
click (system s) p = sched_src_item s p
click (host s) p = sched_src_host s p
click (system_trash j) p = sched_trash j p
click (host_trash j) p = sched_host_trash j p

unfoldable pub clicks : List Click → Page → Page
clicks [] p = p
clicks (c ∷ cs) p = clicks cs (click c p)

abbrev pub systems_of : Page → List String
systems_of p = map (λ s. s.uuid) (p.systems ++ p.chosen)

abbrev pub hosts_of : Page → List String
hosts_of p = map (λ h. h.uuid) (p.hosts ++ p.chosen_hosts)

abbrev pub system_place : System → ℤ
system_place s = s.place

abbrev pub host_place : Host → ℤ
host_place h = h.place

-- the lists of what there is are in the order of the places
abbrev pub AreSorted : Page → Type 0
AreSorted p = IsSorted system_place p.systems × IsSorted host_place p.hosts

-- nothing is lost or added between two forms
abbrev pub SameItems : Page → Page → Type 0
SameItems p q = Perm (systems_of p) (systems_of q) × Perm (hosts_of p) (hosts_of q)

take_system-uuid : (s : System) → (take_system s).uuid ≡ s.uuid
unfolding take_system show_disk_list
take_system-uuid s = elim (Option-cases s.disks) [ inl e ↦ rw e refl | inr (d, e) ↦ rw e refl ]

abbrev Kept : Page → Page → Type 0
Kept p q = AreSorted q × SameItems q p

unchanged : (p : Page) → AreSorted p → Kept p p
unchanged p s = (s, (Perm.rfl, Perm.rfl))

open_without_systems-Kept : (p q : Page) → Kept p q → Kept p (open_without_systems q)
unfolding open_without_systems
open_without_systems-Kept p q k = elim (Bool-cases (length q.chosen == 0)) [
  | inl e ↦ rw e k
  | inr e ↦ rw e k
]

open_without_systems-chosen_hosts :
    (p : Page) → (open_without_systems p).chosen_hosts ≡ p.chosen_hosts
unfolding open_without_systems
open_without_systems-chosen_hosts p = elim (Bool-cases (length p.chosen == 0)) [
  | inl e ↦ rw e refl
  | inr e ↦ rw e refl
]

open_without_hosts-Kept : (p q : Page) → Kept p q → Kept p (open_without_hosts q)
unfolding open_without_hosts
open_without_hosts-Kept p q k = elim (Bool-cases (length q.chosen_hosts == 0)) [
  | inl e ↦ rw e k
  | inr e ↦ rw e k
]

choose_system-Kept :
    (p : Page) (i : ℕ) (t : Option (System × List System))
    → take_out p.systems i ≡ t
    → AreSorted p
    → Kept p (choose_system p t)
unfolding choose_system close_other_tabs
choose_system-Kept p i none e s = unchanged p s
choose_system-Kept p i (some (x, rest)) e s = (
  (taken-IsSorted system_place p.systems i e s.0, s.1),
  (moved-perm _ p.systems p.chosen i (take_system x) e (take_system-uuid x), Perm.rfl),
)

return_system-Kept :
    (p : Page) (j : ℕ) (t : Option (System × List System))
    → take_out p.chosen j ≡ t
    → AreSorted p
    → Kept p (return_system p t)
unfolding return_system give_back
return_system-Kept p j none e s = unchanged p s
return_system-Kept p j (some (x, rest)) e s =
    open_without_systems-Kept p
      (record p { systems = sort_by system_place (p.systems ++ give_back x ∷ []); chosen = rest })
      (
        (sort_by-IsSorted system_place (p.systems ++ give_back x ∷ []), s.1),
        (sorted_in-perm _ system_place p.systems p.chosen j (give_back x) e refl, Perm.rfl),
      )

choose_host-Kept :
    (p : Page) (i : ℕ) (t : Option (Host × List Host))
    → take_out p.hosts i ≡ t
    → AreSorted p
    → Kept p (choose_host p t)
unfolding choose_host
choose_host-Kept p i none e s = unchanged p s
choose_host-Kept p i (some (x, rest)) e s = (
  (s.0, taken-IsSorted host_place p.hosts i e s.1),
  (Perm.rfl, moved-perm _ p.hosts p.chosen_hosts i _ e refl),
)

return_host-Kept :
    (p : Page) (j : ℕ) (t : Option (Host × List Host))
    → take_out p.chosen_hosts j ≡ t
    → AreSorted p
    → Kept p (return_host p t)
unfolding return_host
return_host-Kept p j none e s = unchanged p s
return_host-Kept p j (some (x, rest)) e s =
    open_without_hosts-Kept p
      (record p {
        hosts = sort_by host_place (p.hosts ++ record x { trash = false } ∷ []);
        chosen_hosts = rest;
      })
      (
        (s.0, sort_by-IsSorted host_place (p.hosts ++ record x { trash = false } ∷ [])),
        (Perm.rfl, sorted_in-perm _ host_place p.hosts p.chosen_hosts j _ e refl),
      )

Kept-trans : (p q r : Page) → Kept p q → (AreSorted q → Kept q r) → Kept p r
Kept-trans p q r k f = let g = f k.0 in (g.0, (Perm.trans g.1.0 k.1.0, Perm.trans g.1.1 k.1.1))

either-Kept :
    {A : Type 0} (p : Page) (f : A → Page) (o : Option A)
    → AreSorted p
    → ((a : A) → o ≡ some a → Kept p (f a))
    → Kept p (elim o [ none ↦ p | some a ↦ f a ])
either-Kept p f none s k = unchanged p s
either-Kept p f (some a) s k = k a refl

click-Kept : (c : Click) (p : Page) → AreSorted p → Kept p (click c p)
unfolding click sched_src_item sched_trash sched_src_host sched_host_trash close_other_tabs
click-Kept (system (in_source i)) p s = choose_system-Kept p i (take_out p.systems i) refl s
click-Kept (system (in_target j)) p s =
    either-Kept p (λ t. close_other_tabs p) (take_out p.chosen j) s (λ t e. unchanged p s)
click-Kept (host (in_source i)) p s = choose_host-Kept p i (take_out p.hosts i) refl s
click-Kept (host (in_target j)) p s =
    either-Kept p _ (take_out p.chosen_hosts j) s (λ t e. unchanged p s)
click-Kept (system_trash j) p s = return_system-Kept p j (take_out p.chosen j) refl s
click-Kept (host_trash j) p s =
    let q = open_without_systems p in
    either-Kept p (λ t. return_host q (some t)) (take_out p.chosen_hosts j) s
      λ t e.
        Kept-trans p q (return_host q (some t)) (open_without_systems-Kept p p (unchanged p s)) (
          return_host-Kept q j (some t)
            (ap (λ l. take_out l j) (open_without_systems-chosen_hosts p) ∙ e))

-- However the items of a form whose lists are in the order of the places are clicked, the lists
-- stay in that order, and the form has the systems and the hosts that it had, each as often.
pub clicks-Kept :
    (cs : List Click) (p : Page) → AreSorted p → AreSorted (clicks cs p) × SameItems (clicks cs p) p
unfolding clicks
clicks-Kept [] p s = unchanged p s
clicks-Kept (c ∷ cs) p s =
    Kept-trans p (click c p) (clicks cs (click c p)) (click-Kept c p s) (clicks-Kept cs (click c p))
