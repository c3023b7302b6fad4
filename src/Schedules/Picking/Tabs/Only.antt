-- ===== src/Schedules/Picking/Tabs/Only.antt =====
-- That the request to save names all that is chosen, and the icon that opens a tab too early.
use alike.Base.{
  ℕ, suc, String, List, [], ◌∷◌, ◌++◌, map, Bool, true, false, some, ◌≡◌, refl, ◌∙◌, append-nil,
  arith, length, ◌==◌, if◌then◌else◌, Bool-cases, inl, inr, ◌||◌,
}
use alike.Schedules.Backup.{BackupForm}
use alike.Schedules.Picking.{
  System, Host, Page, take_out, open_without_systems, return_host, open_without_hosts,
  sched_host_trash,
}
use alike.Schedules.Picking.Sent.{named, choice, named-choice}
use alike.Schedules.Picking.Tabs.{Reach, IsGuarded}
use alike.Schedules.Picking.Tabs.Guarded.{Reach-IsGuarded}

abbrev pub all_chosen : Page → List String
all_chosen p = map (λ s. s.uuid) p.chosen ++ map (λ h. h.uuid) p.chosen_hosts

choice-all : (p : Page) → IsGuarded p → choice p ≡ all_chosen p
choice-all p g = lists p.chosen p.chosen_hosts (ground arith)
  where
    lists :
        (l : List System) (m : List Host)
        → ((length l == 0) || (length m == 0)) ≡ true
        → (if length l == 0 then map (λ h. h.uuid) m else map (λ s. s.uuid) l)
          ≡ map (λ s. s.uuid) l ++ map (λ h. h.uuid) m
    lists [] m h = refl
    lists (x ∷ l) [] h =
        let some_left : (suc (length l) == 0) ≡ false = ground arith in
        rw (some_left, append-nil) refl
    lists (x ∷ l) (y ∷ m) h = ground arith

-- Start where the tabs of the other choices are disabled as soon as something is chosen, as in a
-- new form. Whatever the steps, as long as hosts are given back only when one is left, the request
-- to save then names all systems and all hosts that are chosen.
pub Reach-named :
    (is_space : ℕ → Bool) (text : String → String) (p q : Page) (id : String) (f : BackupForm)
    → IsGuarded p
    → Reach is_space text p q
    → named id q f ≡ all_chosen q
Reach-named is_space text p q id f g r = named-choice id q f ∙ choice-all q (Reach-IsGuarded r g)

trashed :
    (j : ℕ) (p : Page) (t : Host × List Host)
    → take_out p.chosen_hosts j ≡ some t
    → sched_host_trash j p ≡ return_host (open_without_systems p) (some t)
unfolding sched_host_trash
trashed j p t e = rw (e, sched_host_trash) refl

opened :
    (p : Page)
    → p.chosen ≡ []
    → open_without_systems p ≡ record p { keyword_off = false; wholehost_off = false }
unfolding open_without_systems
opened p c = rw c refl

-- In a form without chosen systems, the icon of a chosen host takes one host out of the chosen ones
-- and opens the tab of keywords and that of hosts, whether or not other hosts stay chosen; the tab
-- of systems it opens exactly if none stays, and leaves as it was otherwise.
pub sched_host_trash_lem :
    (j : ℕ) (p : Page) (t : Host × List Host)
    → take_out p.chosen_hosts j ≡ some t
    → p.chosen ≡ []
    → ((sched_host_trash j p).chosen_hosts ≡ t.1)
      × ((sched_host_trash j p).keyword_off ≡ false)
      × ((sched_host_trash j p).wholehost_off ≡ false)
      × ((sched_host_trash j p).manual_off ≡ (if length t.1 == 0 then false else p.manual_off))
unfolding sched_host_trash open_without_systems return_host open_without_hosts
sched_host_trash_lem j p t e c = elim (Bool-cases (length t.1 == 0)) [
  | inl z ↦ rw (trashed j p t e, opened p c, z) (refl, refl, refl, refl)
  | inr z ↦ rw (trashed j p t e, opened p c, z) (refl, refl, refl, refl)
]
