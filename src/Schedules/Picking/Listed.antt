-- ===== src/Schedules/Picking/Listed.antt =====
-- webui/js/a3.js and webui/js/events.js: the answers of the web service, which fill the lists, the
-- arrow of an item, the tabs and the keyword.
pub mod Ready
use alike.Base.{
  ℕ, ℤ, suc, ◌+◌, String, List, [], ◌∷◌, ◌++◌, pos, map, Bool, true, false, not, ◌&&◌, ◌||◌, Option,
  some, none, ◌==◌, if◌then◌else◌, length, str_eq, any, filter, show, codes,
}
use alike.Status.File.{get_virt_type_icon}
use alike.Status.Value.{Value}
use alike.Schedules.Picking.{
  Arrow, expand, collapse, DiskList, System, Host, Tab, manual, wholehost, keyword, Call,
  disks_call, hosts_call, Page, show_disk_list, hide_disk_list,
}

-- a system and a host of an answer to "sources"
pub record ListedSystem : Type 0 where
  pub uuid : String
  pub name : String
  pub is_hidden : Value

pub record ListedHost : Type 0 where
  pub uuid : String
  pub host_name : String
  pub virt_type : Value

unfoldable pub show_trash : Host → Host
show_trash h = record h { trash = true }

-- the texts of the console are a parameter
module _ (text : String → String) where
  unfoldable pub make_source_item : String → String → ℤ → Value → System
  make_source_item uuid name at virt = record {
    place = at;
    uuid = uuid;
    name = name;
    icon = get_virt_type_icon text virt;
    trash = false;
    arrow = expand;
    arrow_shown = false;
    disks = none;
  }

  unfoldable pub source_items : ℕ → List ListedSystem → List System
  unfolding make_source_item
  source_items i [] = []
  source_items i (vm ∷ vms) =
      make_source_item vm.uuid vm.name (pos i) vm.is_hidden ∷ source_items (suc i) vms

  -- `isHidden` is passed where the type of the system is meant
  unfoldable pub populate_backup_src : List ListedSystem → Page → Page
  unfolding source_items
  populate_backup_src sources p = record p { systems = source_items 0 sources }

  unfoldable pub make_source_host : String → String → Value → ℤ → Host
  make_source_host uuid name virt_type at = record {
    place = at;
    uuid = uuid;
    name = name;
    icon = get_virt_type_icon text virt_type;
    trash = false;
  }

  -- a host that is chosen is not listed again
  unfoldable pub source_hosts : List Host → ℕ → List ListedHost → List Host
  unfolding make_source_host
  source_hosts target i [] = []
  source_hosts target i (h ∷ hs) =
      let rest = source_hosts target (suc i) hs in
      if any (λ t. str_eq t.uuid h.uuid) target
      then rest
      else make_source_host h.uuid h.host_name h.virt_type (pos i) ∷ rest

  unfoldable pub populate_sched_hosts : List ListedHost → Page → Page
  unfolding source_hosts show_trash
  populate_sched_hosts sources p = record p {
    hosts = source_hosts p.chosen_hosts 0 sources;
    chosen_hosts = map show_trash p.chosen_hosts;
  }

-- `makeDiskItem`, of which only the `data-id` is kept, for the disks from an index on
unfoldable pub disk_items : ℕ → List String → List (String × Bool)
disk_items i [] = []
disk_items i (name ∷ names) = (show i, true) ∷ disk_items (suc i) names

abbrev pub disk_list_of : System → DiskList
disk_list_of s = elim s.disks [
  | none ↦ record { shown = false; no_disks = 0; rows = [] }
  | some d ↦ d
]

-- `populateDiskList`, for the names of the disks in the answer
unfoldable pub populate_disk_list : List String → System → System
unfolding disk_items
populate_disk_list names s =
    let d : DiskList = disk_list_of s in
    if length names == 0
    then record s { disks = some record d { no_disks = suc d.no_disks } }
    else record s { disks = some record d { rows = d.rows ++ disk_items 0 names } }

-- `.sched-disk-expand` and `.sched-disk-collapse`
unfoldable pub toggle_disks : System → System
toggle_disks s = elim s.arrow [
  | expand ↦ record (show_disk_list s) { arrow = collapse }
  | collapse ↦ record s { disks = hide_disk_list s.disks; arrow = expand }
]

-- the items of a list of systems that have a class
unfoldable pub with_class : String → List System → List System
with_class c systems = filter (λ s. str_eq c "sched-src-item") systems

abbrev pub is_wholehost : Tab → Bool
is_wholehost manual = false
is_wholehost wholehost = true
is_wholehost keyword = false

-- `.sched-tabber`
unfoldable pub sched_tabber : Tab → Page → Page
unfolding with_class
sched_tabber which p = record p {
  tab = which;
  calls =
      if is_wholehost which && (length (with_class "sched-item" p.systems) == 0)
      then hosts_call p.site ∷ p.calls
      else p.calls;
}

-- a text of white space only; capitals do not change which characters that is
unfoldable pub is_blank : (ℕ → Bool) → String → Bool
is_blank is_space t = not (any (λ c. not (is_space c)) (codes t))

-- the key press in `#sched-keyword`
unfoldable pub sched_keyword : (ℕ → Bool) → String → Page → Page
unfolding is_blank
sched_keyword is_space val p =
    let off = not (is_blank is_space val) in record p { manual_off = off; wholehost_off = off }
