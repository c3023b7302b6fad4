-- ===== src/Schedules/Picking/Tests.antt =====
-- The theorems on the form of a backup at forms with two systems and two hosts.
use mathlib.Core.List.{Mem, Nodup, Nodup-cons, mem-cons, not-mem-nil, Pairwise}
use mathlib.Core.HLevel.{⊥_prop}
use mathlib.Core.Logic.Or
use alike.Base.{
  some, String, List, [], ◌∷◌, ◌++◌, pos, map, true, false, none, ◌≡◌, refl, arith, ◌==◌, str_eq,
  eq_iff,
}
use alike.Schedules.Backup.{BackupForm}
use alike.Schedules.Picking.{System, Host, Page, manual, expand, in_source, sched_src_item}
use alike.Schedules.Picking.Kept.{
  system, host, system_trash, host_trash, clicks, Click, AreSorted, SameItems, systems_of, hosts_of,
  clicks-Kept,
}
use alike.Schedules.Picking.Sent.{named, choice, clicks-named}
use alike.Schedules.Picking.Undone.{clicks-there_and_back}
use alike.Schedules.Picking.Back.{IsStrict}
use alike.Schedules.Picking.Tabs
use alike.Schedules.Picking.Tabs.{step, done}
use alike.Schedules.Picking.Tabs.Only.{all_chosen, Reach-named}

abbrev web : System
web = record {
  place = pos 0;
  uuid = "v1";
  name = "web";
  icon = "";
  trash = false;
  arrow = expand;
  arrow_shown = false;
  disks = none;
}

abbrev mail : System
mail = record web { place = pos 1; uuid = "v2"; name = "mail" }

abbrev xen : Host
xen = record { place = pos 0; uuid = "h1"; name = "xen"; icon = ""; trash = false }

abbrev kvm : Host
kvm = record xen { place = pos 1; uuid = "h2"; name = "kvm" }

-- nothing is chosen
abbrev new_form : Page
new_form = record {
  systems = web ∷ mail ∷ [];
  chosen = [];
  hosts = xen ∷ kvm ∷ [];
  chosen_hosts = [];
  tab = manual;
  manual_off = false;
  wholehost_off = false;
  keyword_off = false;
  site = "1";
  calls = [];
}

abbrev some_clicks : List Click
some_clicks =
    system (in_source 1)
    ∷ system (in_source 0)
    ∷ system_trash 0
    ∷ host (in_source 0)
    ∷ host_trash 0
    ∷ []

new_form-AreSorted : AreSorted new_form
new_form-AreSorted = (((refl, tt), (tt, tt)), ((refl, tt), (tt, tt)))

two_differ : (a b : String) → str_eq a b ≡ false → Nodup (a ∷ b ∷ [])
two_differ a b h = Nodup-cons.1 (
  λ m. Or.elim ⊥_prop (mem-cons.0 m) (λ here. ground (arith, (eq_iff a b).1 here)) not-mem-nil,
  Nodup-cons.1 (not-mem-nil, Pairwise.nil),
)

abbrev form : BackupForm
form = record {
  targets = [];
  hosts = [];
  keyword = "";
  use_tags = false;
  schedule_name = "New Backup Job";
  sched_freq = some 0;
  sched_hour = 2;
  sched_min = 30;
  sched_interval = some 0;
  weekdays = [];
  sched_monthday = 1;
  qhb = false;
  cbt = true;
  disk_mem = false;
  force_full = false;
  num_concurrent = 1;
  enable_vault = false;
  email_level = 0;
  use_gfs = false;
  gfs_profile = 0;
  sched_a3id = "1";
}

clicks-Kept_example :
    AreSorted (clicks some_clicks new_form) × SameItems (clicks some_clicks new_form) new_form
clicks-Kept_example = clicks-Kept some_clicks new_form new_form-AreSorted

clicks-named_example :
    (named "7" (clicks some_clicks new_form) form ≡ choice (clicks some_clicks new_form))
    × Nodup (named "7" (clicks some_clicks new_form) form)
    × ((u : String)
        → Mem u (named "7" (clicks some_clicks new_form) form)
        → Mem u (systems_of new_form ++ hosts_of new_form))
clicks-named_example =
    clicks-named some_clicks new_form "7" form new_form-AreSorted (two_differ "v1" "v2" refl)
      (two_differ "h1" "h2" refl)

clicks-there_and_back_example :
    (map (λ s. s.uuid) (clicks (system (in_source 1) ∷ system_trash 0 ∷ []) new_form).systems
      ≡ map (λ s. s.uuid) new_form.systems)
    × ((clicks (system (in_source 1) ∷ system_trash 0 ∷ []) new_form).chosen ≡ new_form.chosen)
unfolding IsStrict
clicks-there_and_back_example = clicks-there_and_back 1 new_form ((refl, tt), (tt, tt))

Reach-named_example :
    named "7" (sched_src_item (in_source 1) new_form) form
    ≡ all_chosen (sched_src_item (in_source 1) new_form)
Reach-named_example =
    Reach-named (λ c. c == 32) (λ t. t) new_form (sched_src_item (in_source 1) new_form) "7" form
      refl (step (Tabs.system (in_source 1) refl) done)
