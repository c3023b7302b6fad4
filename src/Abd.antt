-- ===== src/Abd.antt =====
-- The addresses of a site's backup appliances: `abdUseDhcp`, `abdAddIp` and `abdDelIp` of
-- webui/js/events.js and `makeAbdNetRow` of webui/js/a3.js. Addresses are lists of char codes, the
-- prefix of a mask a number; what the awaited request comes to is an argument, and so is the
-- hardware address that `generateMAC` makes.
pub mod Added
pub mod Undone
pub mod Drawn
mod Tests
use alike.Base.{
  ℕ, String, List, [], ◌∷◌, ◌++◌, Bool, true, false, not, Option, some, none, str_eq, if◌then◌else◌,
  codes, show, get_elem?, zero, suc,
}
use alike.Net.{check_ip, mask_to_cidr, cidr_to_mask}

pub data Awaited : Type 0 where
  fulfilled : Awaited
  thrown : String → Awaited

-- a row of the list of addresses, with the `data-id` of its icon
pub record NetRow : Type 0 where
  pub id : String
  pub text : List ℕ

pub record Panel : Type 0 where
  pub pool : String
  pub vnetwork : String
  pub ip : List ℕ
  pub gw : List ℕ
  pub mask : ℕ
  -- the class "is-invalid" of the input of the address
  pub ip_invalid : Bool
  -- the check box, and its `val()`, which is not its state
  pub dhcp_checked : Bool
  pub dhcp_value : String
  pub manual_ip_shown : Bool
  pub ips : List NetRow

pub record DhcpArgs : Type 0 where
  pub poolid : String
  pub xennet : String
  -- "useDHCP" or "useManualIP"
  pub use_dhcp : Bool

pub record NetArgs : Type 0 where
  pub use_dhcp : Bool
  pub use_manual_ip : Bool
  pub ip : List ℕ
  pub netmask : List ℕ
  pub gw : List ℕ
  pub mac : String
  pub xennet : String
  pub poolid : String

-- `abdUseDhcp`, behind the click that has changed the check box: the request, the panel, and the
-- toast
unfoldable pub abd_use_dhcp : Panel → Awaited → DhcpArgs × Panel × Option String
abd_use_dhcp p w =
    let args : DhcpArgs = record {
      poolid = p.pool;
      xennet = p.vnetwork;
      use_dhcp = p.dhcp_checked;
    } in
    elim w [
      | fulfilled ↦ (args, record p { manual_ip_shown = not p.manual_ip_shown }, none)
      | thrown message ↦ (
        args,
        record p {
          manual_ip_shown = not (not p.manual_ip_shown);
          dhcp_checked = not p.dhcp_checked;
        },
        some message,
      )
    ]

-- `makeAbdNetRow`
unfoldable pub make_abd_net_row : List ℕ → List ℕ → List ℕ → String → NetRow
make_abd_net_row ip mask gw id = record {
  id = id;
  text = ip ++ codes " /" ++ codes (show (mask_to_cidr mask)) ++ codes " [GW: " ++ gw ++ codes "] ";
}

pub record Outcome : Type 0 where
  pub request : Option NetArgs
  pub panel : Panel
  pub error : Option String

unfoldable pub net_args : Panel → List ℕ → String → NetArgs
net_args p netmask mac = record {
  use_dhcp = not (str_eq p.dhcp_value "");
  use_manual_ip = true;
  ip = p.ip;
  netmask = netmask;
  gw = p.gw;
  mac = mac;
  xennet = p.vnetwork;
  poolid = p.pool;
}

-- `abdAddIp`: an address and a gateway that are not valid mark the same input, and a prefix that
-- `CIDRToMask` does not take ends it
unfoldable pub abd_add_ip : Panel → String → Awaited → Outcome
unfolding make_abd_net_row net_args
abd_add_ip p mac w =
    if not (check_ip p.ip)
    then record { request = none; panel = record p { ip_invalid = true }; error = none }
    else if not (check_ip p.gw)
    then record { request = none; panel = record p { ip_invalid = true }; error = none }
    else elim (cidr_to_mask p.mask) [
      | none ↦ record { request = none; panel = record p { ip_invalid = false }; error = none }
      | some netmask ↦ elim w [
        | fulfilled ↦ record {
          request = some (net_args p netmask mac);
          panel = record p {
            ip_invalid = false;
            ips = p.ips ++ make_abd_net_row p.ip netmask p.gw "0" ∷ [];
          };
          error = none;
        }
        | thrown message ↦ record {
          request = some (net_args p netmask mac);
          panel = record p { ip_invalid = false };
          error = some message;
        }
      ]
    ]

-- `closest('tr').remove()`
unfoldable pub without_row : ℕ → List NetRow → List NetRow
without_row i [] = []
without_row zero (r ∷ rows) = rows
without_row (suc i) (r ∷ rows) = r ∷ without_row i rows

-- `abdDelIp` of the row at a position: the id that is sent, the panel, and the toast
unfoldable pub abd_del_ip : Panel → ℕ → Awaited → Option String × Panel × Option String
unfolding without_row
abd_del_ip p i w = elim (get_elem? p.ips i) [
  | none ↦ (none, p, none)
  | some row ↦ elim w [
    | fulfilled ↦ (some row.id, record p { ips = without_row i p.ips }, none)
    | thrown message ↦ (some row.id, p, some message)
  ]
]
