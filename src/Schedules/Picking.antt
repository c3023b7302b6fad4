-- ===== src/Schedules/Picking.antt =====
-- webui/js/events.js and webui/js/a3.js: the form of a backup, where systems and hosts are moved
-- between the list of what there is and the list of what is chosen. A list is the `li` elements of
-- its `ul`, in their order. A click is on the element at an index.
pub mod Moved
pub mod Back
pub mod Kept
pub mod Sent
pub mod Undone
pub mod Listed
pub mod Tabs
mod Tests
use alike.Base.{
  ℕ, zero, suc, ◌+◌, String, List, [], ◌∷◌, ◌++◌, ℤ, pos, negsuc, int_lt, map, Bool, true, false,
  not, ◌&&◌, ◌||◌, Option, some, none, ◌==◌, if◌then◌else◌, length, str_eq, any, filter, show,
}
use alike.Status.File.{get_virt_type_icon}
use alike.Status.Value.{Value}
use alike.Schedules.Backup.{Target, BackupForm}

-- the class of the element with the arrow
pub data Arrow : Type 0 where
  expand collapse : Arrow

-- the element `.disk-list`: whether it is shown, how often it says that there are no disks, and
-- the check boxes with their `data-id`
pub record DiskList : Type 0 where
  pub shown : Bool
  pub no_disks : ℕ
  pub rows : List (String × Bool)

-- an item of class `sched-src-item`; `place` is its `data-pos`
pub record System : Type 0 where
  pub place : ℤ
  pub uuid : String
  pub name : String
  pub icon : String
  pub trash : Bool
  pub arrow : Arrow
  pub arrow_shown : Bool
  pub disks : Option DiskList

-- an item of class `sched-src-host`
pub record Host : Type 0 where
  pub place : ℤ
  pub uuid : String
  pub name : String
  pub icon : String
  pub trash : Bool

pub data Tab : Type 0 where
  manual wholehost keyword : Tab

-- a call of the web service
pub data Call : Type 0 where
  -- "disks" with `vmuuid`, to a site
  disks_call : String → String → Call
  -- "sources" with `isHost`, to a site
  hosts_call : String → Call

-- `#src-systems`, `#target-systems`, `#src-hosts`, `#target-hosts`, the tab that is active, the
-- tabs with the class `disabled`, `#sched-a3id` and the calls that were made, the last one first
pub record Page : Type 0 where
  pub systems : List System
  pub chosen : List System
  pub hosts : List Host
  pub chosen_hosts : List Host
  pub tab : Tab
  pub manual_off : Bool
  pub wholehost_off : Bool
  pub keyword_off : Bool
  pub site : String
  pub calls : List Call

module _ {A : Type 0} where
  -- the element at an index, and the others
  unfoldable pub take_out : List A → ℕ → Option (A × List A)
  take_out [] i = none
  take_out (x ∷ l) zero = some (x, l)
  take_out (x ∷ l) (suc i) = elim (take_out l i) [
    | none ↦ none
    | some (y, rest) ↦ some (y, x ∷ rest)
  ]

  -- `items.sort((a, b) => pos(a) - pos(b))`, which keeps the order of items with one place
  unfoldable pub insert_by : (A → ℤ) → A → List A → List A
  insert_by place x [] = x ∷ []
  insert_by place x (y ∷ l) =
      let rest = insert_by place x l in if int_lt (place y) (place x) then y ∷ rest else x ∷ y ∷ l

  unfoldable pub sort_by : (A → ℤ) → List A → List A
  unfolding insert_by
  sort_by place [] = []
  sort_by place (x ∷ l) = insert_by place x (sort_by place l)

-- where a click was
pub data Spot : Type 0 where
  in_source in_target : ℕ → Spot

-- what the handler of `.sched-src-item` does to an item that it moves
unfoldable pub show_disk_list : System → System
show_disk_list s = elim s.disks [
  | none ↦ s
  | some d ↦ record s { disks = some record d { shown = true } }
]

unfoldable pub take_system : System → System
unfolding show_disk_list
take_system s = record (show_disk_list s) {
  trash = true;
  arrow_shown = elim s.arrow [ expand ↦ true | collapse ↦ s.arrow_shown ];
}

has_disk_list : System → Bool
has_disk_list s = elim s.disks [ none ↦ false | some d ↦ true ]

unfoldable pub close_other_tabs : Page → Page
close_other_tabs p = record p { keyword_off = true; wholehost_off = true }

unfoldable pub choose_system : Page → Option (System × List System) → Page
unfolding take_system has_disk_list
choose_system p none = p
choose_system p (some (s, rest)) = close_other_tabs record p {
  systems = rest;
  chosen = p.chosen ++ take_system s ∷ [];
  calls = if has_disk_list s then p.calls else disks_call s.uuid p.site ∷ p.calls;
}

-- `.sched-src-item`
unfoldable pub sched_src_item : Spot → Page → Page
unfolding take_out choose_system close_other_tabs
sched_src_item (in_target j) p = elim (take_out p.chosen j) [
  | none ↦ p
  | some _ ↦ close_other_tabs p
]
sched_src_item (in_source i) p = choose_system p (take_out p.systems i)

unfoldable pub hide_disk_list : Option DiskList → Option DiskList
hide_disk_list none = none
hide_disk_list (some d) = some record d { shown = false }

unfoldable pub give_back : System → System
unfolding hide_disk_list
give_back s = record s {
  trash = false;
  disks = hide_disk_list s.disks;
  arrow = expand;
  arrow_shown = false;
}

-- the end of the handler of `.sched-trash`
unfoldable pub open_without_systems : Page → Page
open_without_systems p =
    if length p.chosen == 0 then record p { keyword_off = false; wholehost_off = false } else p

unfoldable pub return_system : Page → Option (System × List System) → Page
unfolding give_back sort_by open_without_systems
return_system p none = p
return_system p (some (s, rest)) =
    open_without_systems
      record p { systems = sort_by (λ x. x.place) (p.systems ++ give_back s ∷ []); chosen = rest }

-- `.sched-trash` on the icon of the system at an index of `#target-systems`
unfoldable pub sched_trash : ℕ → Page → Page
unfolding take_out return_system
sched_trash j p = return_system p (take_out p.chosen j)

unfoldable pub choose_host : Page → Option (Host × List Host) → Page
choose_host p none = p
choose_host p (some (h, rest)) = record p {
  hosts = rest;
  chosen_hosts = p.chosen_hosts ++ record h { trash = true } ∷ [];
  keyword_off = true;
  manual_off = true;
}

-- `.sched-src-host`
unfoldable pub sched_src_host : Spot → Page → Page
unfolding take_out choose_host
sched_src_host (in_target j) p = elim (take_out p.chosen_hosts j) [
  | none ↦ p
  | some _ ↦ record p { keyword_off = true; manual_off = true }
]
sched_src_host (in_source i) p = choose_host p (take_out p.hosts i)

unfoldable pub open_without_hosts : Page → Page
open_without_hosts p =
    if length p.chosen_hosts == 0 then record p { keyword_off = false; manual_off = false } else p

-- the list of hosts sorted again, after the handler of `.sched-trash`
unfoldable pub return_host : Page → Option (Host × List Host) → Page
unfolding sort_by open_without_hosts
return_host p none = p
return_host p (some (h, rest)) = open_without_hosts record p {
  hosts = sort_by (λ x. x.place) (p.hosts ++ record h { trash = false } ∷ []);
  chosen_hosts = rest;
}

-- The icon of a host has both `.sched-trash`, whose handler runs first and moves nothing as the
-- icon is not in `#target-systems`, and `.sched-host-trash`. The host is at an index of
-- `#target-hosts`.
unfoldable pub sched_host_trash : ℕ → Page → Page
unfolding take_out return_host open_without_systems
sched_host_trash j p = elim (take_out p.chosen_hosts j) [
  | none ↦ p
  | some t ↦ return_host (open_without_systems p) (some t)
]

-- what `saveScheduleBackup` reads of the lists
unfoldable pub disk_rows : Option DiskList → List (String × Bool)
disk_rows none = []
disk_rows (some d) = d.rows

unfoldable pub target_of : System → Target
unfolding disk_rows
target_of s = record { uuid = s.uuid; disks = disk_rows s.disks }

unfoldable pub picked : Page → BackupForm → BackupForm
unfolding target_of
picked p f = record f {
  targets = map target_of p.chosen;
  hosts = map (λ h. h.uuid) p.chosen_hosts;
  sched_a3id = p.site;
}
