-- ===== src/Abd/Tests.antt =====
-- The theorems at one panel with an address.
use alike.Base.{
  none, not, ◌&&◌, if◌then◌else◌, ◌^◌, ◌-◌, ℕ, List, [], ◌∷◌, ◌++◌, true, false, some, ◌≡◌, arith,
  codes,
}
use alike.Net.{check_ip}
use alike.Net.Mask.{mask_value}
use alike.Abd.{fulfilled, NetRow, Panel, abd_add_ip}
use alike.Abd.Added.{shown_row, are_valid, request_of, is_fulfilled, abd_add_ip_lem}

abbrev office : NetRow
office = record { id = "8"; text = codes "10.0.0.7 /24" }

abbrev panel : Panel
panel = record {
  pool = "p1";
  vnetwork = "n1";
  ip = codes "10.0.0.8";
  gw = codes "10.0.0.1";
  mask = 24;
  ip_invalid = false;
  dhcp_checked = false;
  dhcp_value = "on";
  manual_ip_shown = true;
  ips = office ∷ [];
}

abd_add_ip_lem_example :
    (netmask : List ℕ) × (check_ip netmask ≡ true)
    × (mask_value netmask ≡ 2 ^ 32 - 2 ^ (32 - panel.mask))
    × ((abd_add_ip panel "00:16:3E:00:00:01" fulfilled).request
        ≡ (if are_valid panel then some (request_of panel netmask "00:16:3E:00:00:01") else none))
    × ((abd_add_ip panel "00:16:3E:00:00:01" fulfilled).panel.ips ≡ (
        if are_valid panel && is_fulfilled fulfilled
        then panel.ips ++ shown_row panel ∷ []
        else panel.ips))
    × ((abd_add_ip panel "00:16:3E:00:00:01" fulfilled).panel.ip_invalid ≡ not (are_valid panel))
abd_add_ip_lem_example = abd_add_ip_lem panel "00:16:3E:00:00:01" fulfilled (omega arith)
