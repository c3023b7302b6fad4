-- ===== src/Abd/Drawn.antt =====
-- webui/js/a3.js, `populateA3ABDs`: the panels of the Xen pools of an A3, one behind another. The
-- network of a panel is the one that its list selects, or the first.
pub mod Handled
mod Tests
use alike.Base.{
  ℕ, ◌+◌, ◌*◌, suc, String, List, [], ◌∷◌, map, Bool, true, false, not, Option, some, none, str_eq,
  if◌then◌else◌, codes, filter, ltb, any, length, ◌==◌,
}
use alike.Abd.{NetRow, Panel, make_abd_net_row}

-- an address of the pool, and an appliance that runs
pub record AbdNet : Type 0 where
  pub id : String
  pub net_id : String
  pub ip : String
  pub netmask : List ℕ
  pub gateway : List ℕ

pub record Appliance : Type 0 where
  pub id : String
  pub name : String
  pub ip : String
  pub vm_owner : ℕ

pub record XenPool : Type 0 where
  pub uuid : String
  pub name : String
  -- the image of the appliance, where there is one
  pub image : Option String
  pub vnetworks : List (String × String)
  pub abd_nets : List AbdNet
  pub abds : List Appliance

-- a panel with the counter of its ids; an appliance that is idle has an icon that deletes it
pub record Drawn : Type 0 where
  pub count : ℕ
  pub name : String
  pub can_import : Bool
  pub panel : Panel
  pub abds : List (String × String × Option String)

pub data Answered : Type 0 where
  panels : List Drawn → Answered
  callout : String → Answered

-- the last one of the loop
unfoldable pub last_net : String → List AbdNet → String
last_net found [] = found
last_net found (n ∷ ns) = last_net n.net_id ns

unfoldable pub selected : String → List (String × String) → String
selected net [] = ""
selected net ((uuid, name) ∷ ns) =
    if any (λ (n : String × String). str_eq n.0 net) ((uuid, name) ∷ ns) then net else uuid

unfoldable pub assigned : List AbdNet → List AbdNet
assigned nets = filter (λ n. not (str_eq n.ip "0.0.0.0")) nets

unfoldable pub abd_row : AbdNet → NetRow
unfolding make_abd_net_row
abd_row n = make_abd_net_row (codes n.ip) n.netmask n.gateway n.id

unfoldable pub drawn_panel : XenPool → Panel
unfolding last_net selected assigned abd_row
drawn_panel p = record {
  pool = p.uuid;
  vnetwork = selected (last_net "" p.abd_nets) p.vnetworks;
  ip = [];
  gw = [];
  mask = 24;
  ip_invalid = false;
  dhcp_checked = length (assigned p.abd_nets) == 0;
  dhcp_value = "on";
  manual_ip_shown = ltb 0 (length (assigned p.abd_nets));
  ips = map abd_row (assigned p.abd_nets);
}

unfoldable pub abd_use : Appliance → String × String × Option String
abd_use a = (a.name, a.ip, if ltb 0 a.vm_owner then none else some a.id)

unfoldable pub drawn_pools : ℕ → List XenPool → List Drawn
unfolding drawn_panel abd_use
drawn_pools count [] = []
drawn_pools count (p ∷ ps) =
    record {
      count = count;
      name = p.name;
      can_import = elim p.image [ none ↦ true | some _ ↦ false ];
      panel = drawn_panel p;
      abds = map abd_use p.abds;
    }
    ∷ drawn_pools (suc count) ps

-- `site` is a number
unfoldable pub populate_a3_abds : String → String → ℕ → List XenPool → Answered
unfolding drawn_pools
populate_a3_abds result message site pools =
    if str_eq result "success" then panels (drawn_pools (site * 1000) pools) else callout message
