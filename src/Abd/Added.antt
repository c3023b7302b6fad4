-- ===== src/Abd/Added.antt =====
-- What is sent for a new address, and the row that shows it.
use alike.Base.{
  ℕ, ◌≤◌, String, List, [], ◌∷◌, ◌++◌, Bool, true, false, ◌&&◌, some, none, ◌≡◌, ap, arith, codes,
  not, if◌then◌else◌, str_eq, ◌^◌, ◌-◌, show,
}
use alike.Net.{check_ip, cidr_to_mask, mask_to_cidr}
use alike.Net.Mask.{mask_value, cidr_to_mask_lem}
use alike.Abd.{
  Awaited, fulfilled, thrown, NetArgs, NetRow, Panel, make_abd_net_row, net_args, abd_add_ip,
}

-- the row of an address, whose id is 0
abbrev pub shown_row : Panel → NetRow
shown_row p = record {
  id = "0";
  text = p.ip ++ codes " /" ++ codes (show p.mask) ++ codes " [GW: " ++ p.gw ++ codes "] ";
}

abbrev pub are_valid : Panel → Bool
are_valid p = check_ip p.ip && check_ip p.gw

row_lem :
    (p : Panel) (netmask : List ℕ)
    → mask_to_cidr netmask ≡ p.mask
    → make_abd_net_row p.ip netmask p.gw "0" ≡ shown_row p
unfolding make_abd_net_row
row_lem p netmask back =
    ap
      (λ n. record {
        id = "0";
        text = p.ip ++ codes " /" ++ codes (show n) ++ codes " [GW: " ++ p.gw ++ codes "] ";
      })
      back

-- what is sent of a panel, with the netmask
abbrev pub request_of : Panel → List ℕ → String → NetArgs
request_of p netmask mac = record {
  use_dhcp = not (str_eq p.dhcp_value "");
  use_manual_ip = true;
  ip = p.ip;
  netmask = netmask;
  gw = p.gw;
  mac = mac;
  xennet = p.vnetwork;
  poolid = p.pool;
}

-- the service took it
abbrev pub is_fulfilled : Awaited → Bool
is_fulfilled fulfilled = true
is_fulfilled (thrown message) = false

added :
    (p : Panel) (mac : String) (w : Awaited) (netmask : List ℕ)
    → cidr_to_mask p.mask ≡ some netmask
    → mask_to_cidr netmask ≡ p.mask
    → ((abd_add_ip p mac w).request
        ≡ (if are_valid p then some (request_of p netmask mac) else none))
      × ((abd_add_ip p mac w).panel.ips
          ≡ (if are_valid p && is_fulfilled w then p.ips ++ shown_row p ∷ [] else p.ips))
      × ((abd_add_ip p mac w).panel.ip_invalid ≡ not (are_valid p))
unfolding abd_add_ip net_args
added p mac fulfilled netmask e back =
    (ground arith, ground (arith, row_lem p netmask back), ground arith)
added p mac (thrown message) netmask e back = (ground arith, ground arith, ground arith)

-- With a prefix of at most 32, a click that adds an address sends it exactly if the address and the
-- gateway are valid: these two, the network and the pool of the panel, and the netmask, a valid address
-- with as many ones in front as the prefix says. If the service takes it, a row is added that shows the
-- prefix as it was typed, with the id 0, and otherwise the rows stay; the mark is on the address
-- exactly if one of the two is not valid.
pub abd_add_ip_lem :
    (p : Panel) (mac : String) (w : Awaited)
    → p.mask ≤ 32
    → (netmask : List ℕ) × (check_ip netmask ≡ true)
      × (mask_value netmask ≡ 2 ^ 32 - 2 ^ (32 - p.mask))
      × ((abd_add_ip p mac w).request
          ≡ (if are_valid p then some (request_of p netmask mac) else none))
      × ((abd_add_ip p mac w).panel.ips
          ≡ (if are_valid p && is_fulfilled w then p.ips ++ shown_row p ∷ [] else p.ips))
      × ((abd_add_ip p mac w).panel.ip_invalid ≡ not (are_valid p))
abd_add_ip_lem p mac w short =
    let (netmask, e, is_ip, value, back) = cidr_to_mask_lem p.mask short in
    let (request, ips, mark) = added p mac w netmask e back in
    (netmask, is_ip, value, request, ips, mark)
