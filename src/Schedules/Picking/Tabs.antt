-- ===== src/Schedules/Picking/Tabs.antt =====
-- The steps of a form's user, and the tabs that must be disabled for a choice to be the only one.
pub mod Guarded
pub mod Only
use alike.Base.{
  ℕ, zero, suc, String, List, [], ◌∷◌, ◌++◌, map, Bool, true, false, not, ◌&&◌, ◌||◌, Option, some,
  none, ◌≡◌, refl, ap, arith, length, ◌==◌, if◌then◌else◌, Bool-cases, Option-cases, inl, inr,
  length-append,
}
use alike.Schedules.Picking.{
  System, Host, Tab, manual, wholehost, keyword, Page, Spot, in_source, in_target, take_out,
  choose_system, close_other_tabs, sched_src_item, open_without_systems, return_system, sched_trash,
  choose_host, sched_src_host, open_without_hosts, return_host, sched_host_trash,
}
use alike.Schedules.Picking.Listed.{
  ListedSystem, ListedHost, populate_backup_src, populate_sched_hosts, sched_tabber, sched_keyword,
}

abbrev pub is_tab : Tab → Tab → Bool
is_tab manual manual = true
is_tab wholehost wholehost = true
is_tab keyword keyword = true
is_tab _ _ = false

-- the tab has the class `disabled`
abbrev pub is_off : Tab → Page → Bool
is_off manual p = p.manual_off
is_off wholehost p = p.wholehost_off
is_off keyword p = p.keyword_off

abbrev pub has_systems : Page → Bool
has_systems p = not (length p.chosen == 0)

abbrev pub has_hosts : Page → Bool
has_hosts p = not (length p.chosen_hosts == 0)

-- A step of a user, who clicks on what the active tab shows and on tabs that are not disabled, and
-- who takes hosts back only when one is left, or of the web service.
pub data Step (is_space : ℕ → Bool) (text : String → String) : Page → Page → Type 0 where
  system : {p : Page} (s : Spot) → p.tab ≡ manual → Step is_space text p (sched_src_item s p)
  system_trash : {p : Page} (j : ℕ) → p.tab ≡ manual → Step is_space text p (sched_trash j p)
  host : {p : Page} (s : Spot) → p.tab ≡ wholehost → Step is_space text p (sched_src_host s p)
  host_trash :
      {p : Page}
      → p.tab ≡ wholehost
      → length p.chosen_hosts ≡ 1
      → Step is_space text p (sched_host_trash 0 p)
  tab : {p : Page} (t : Tab) → is_off t p ≡ false → Step is_space text p (sched_tabber t p)
  press :
      {p : Page} (val : String)
      → p.tab ≡ keyword
      → Step is_space text p (sched_keyword is_space val p)
  systems_listed :
      {p : Page} (l : List ListedSystem) → Step is_space text p (populate_backup_src text l p)
  hosts_listed :
      {p : Page} (l : List ListedHost) → Step is_space text p (populate_sched_hosts text l p)

pub data Reach (is_space : ℕ → Bool) (text : String → String) : Page → Page → Type 0 where
  done : {p : Page} → Reach is_space text p p
  step : {p q r : Page} → Step is_space text p q → Reach is_space text q r → Reach is_space text p r

-- the tabs that lead to the other choices are disabled
abbrev pub is_guarded : Page → Bool
is_guarded p =
    (not (has_systems p)
      || (is_tab p.tab manual && p.keyword_off && p.wholehost_off && not (has_hosts p)))
    && (not (has_hosts p)
        || (is_tab p.tab wholehost && p.keyword_off && p.manual_off && not (has_systems p)))

abbrev pub IsGuarded : Page → Type 0
IsGuarded p = is_guarded p ≡ true
