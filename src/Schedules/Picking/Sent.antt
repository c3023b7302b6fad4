-- ===== src/Schedules/Picking/Sent.antt =====
-- What is sent for the systems and the hosts that were chosen.
use mathlib.Core.List.{Nodup, Mem, Nodup-append, map-append, mem-append_right, mem-append_left}
use mathlib.Core.List.Perm
use mathlib.Core.Path.{subst}
use alike.Base.{
  suc, String, List, [], ◌∷◌, ◌++◌, map, ◌≡◌, refl, ap, ◌==◌, if◌then◌else◌, length, Bool-cases,
  inl, inr,
}
use alike.Schedules.Backup.{Source, vm, host, BackupForm, volumes, backup_sources, backup_args}
use alike.Schedules.Picking.{System, Host, Page, target_of, picked}
use alike.Schedules.Picking.Kept.{
  Click, clicks, AreSorted, systems_of, hosts_of, SameItems, clicks-Kept,
}

abbrev pub source_uuid : Source → String
source_uuid (vm uuid volumes) = uuid
source_uuid (host uuid) = uuid

-- the systems and hosts that a request names
abbrev pub named : String → Page → BackupForm → List String
named id p f = map source_uuid (backup_args id (picked p f)).sources

-- what the choice comes to: the hosts count only without systems
abbrev pub choice : Page → List String
choice p =
    if length p.chosen == 0 then map (λ h. h.uuid) p.chosen_hosts else map (λ s. s.uuid) p.chosen

named-hosts : (l : List String) → map source_uuid (map (λ h. host h) l) ≡ l
named-hosts [] = refl
named-hosts (x ∷ l) = ap (λ r. x ∷ r) (named-hosts l)

named-systems :
    (l : List System)
    → map source_uuid (map (λ t. vm t.uuid (volumes t)) (map target_of l)) ≡ map (λ s. s.uuid) l
unfolding target_of
named-systems [] = refl
named-systems (x ∷ l) = ap (λ r. x.uuid ∷ r) (named-systems l)

length-targets : (l : List System) → length (map target_of l) ≡ length l
length-targets [] = refl
length-targets (x ∷ l) = ap (λ n. suc n) (length-targets l)

-- The request to save a backup names the systems that are chosen, or the chosen hosts where there
-- are no such systems, in the order in which they stand.
pub named-choice : (id : String) (p : Page) (f : BackupForm) → named id p f ≡ choice p
unfolding backup_args backup_sources picked
named-choice id p f = elim (Bool-cases (length p.chosen == 0)) [
  | inl e ↦ rw (length-targets p.chosen, e) (named-hosts (map (λ h. h.uuid) p.chosen_hosts))
  | inr e ↦ rw (length-targets p.chosen, e) (named-systems p.chosen)
]

-- of a part of what a form has
Nodup-choice : (p : Page) → Nodup (systems_of p) → Nodup (hosts_of p) → Nodup (choice p)
Nodup-choice p s h = elim (Bool-cases (length p.chosen == 0)) [
  | inl e ↦ rw e (Nodup-append.0 (subst Nodup (map-append _ p.hosts p.chosen_hosts) h)).1
  | inr e ↦ rw e (Nodup-append.0 (subst Nodup (map-append _ p.systems p.chosen) s)).1
]

Mem-choice : (p : Page) (u : String) → Mem u (choice p) → Mem u (systems_of p ++ hosts_of p)
Mem-choice p u = elim (Bool-cases (length p.chosen == 0)) [
  | inl e ↦
      rw (e, map-append (λ (h : Host). h.uuid) p.hosts p.chosen_hosts)
        (λ m. mem-append_right (systems_of p) (mem-append_right (map (λ h. h.uuid) p.hosts) m))
  | inr e ↦
      rw (e, map-append (λ (s : System). s.uuid) p.systems p.chosen)
        (λ m. mem-append_left (hosts_of p) (mem-append_right (map (λ s. s.uuid) p.systems) m))
]

-- Take a form whose lists are in the order of the places, and which has no system and no host
-- twice. However its items are clicked, the request to save then names exactly the chosen systems
-- or, if there are none, the chosen hosts, in the order in which they stand; it names none twice,
-- and only ones that the form had.
pub clicks-named :
    (cs : List Click) (p : Page) (id : String) (f : BackupForm)
    → AreSorted p
    → Nodup (systems_of p)
    → Nodup (hosts_of p)
    → (named id (clicks cs p) f ≡ choice (clicks cs p))
      × Nodup (named id (clicks cs p) f)
      × ((u : String) → Mem u (named id (clicks cs p) f) → Mem u (systems_of p ++ hosts_of p))
clicks-named cs p id f sorted s h =
    let q : Page = clicks cs p in
    let kept : SameItems q p = (clicks-Kept cs p sorted).1 in
    rw (named-choice id q f) (
      refl,
      Nodup-choice q (Perm.nodup (Perm.symm kept.0) s) (Perm.nodup (Perm.symm kept.1) h),
      λ u m. (Perm.mem_iff (Perm.append kept.0 kept.1)).0 (Mem-choice q u m),
    )
