-- ===== src/Hosts.antt =====
-- webui/js/a3.js: `drawHostsTable` and `checkNoA3s`. The pools of Xen hosts have one of two backgrounds in
-- turn. The texts of the console are a parameter.
pub mod Stripes
use alike.Base.{
  ℕ, String, List, [], ◌∷◌, ◌++◌, pos, Bool, true, false, ◌&&◌, ◌==◌, if◌then◌else◌, str_eq, codes,
  contains, ◌<>◌, show, Option, some, none, lookup, length, not,
}
use alike.Format.Texts.{get_os_version}
use alike.Status.Value.{Value, num, str}
use alike.Status.File.{get_virt_type_icon}
use alike.Storage.{A3, Storage, Item, a3s}

pub record Host : Type 0 where
  pub guid : String
  pub name : String
  pub ip : String
  pub type : ℕ
  pub role : ℕ
  pub poolid : String
  pub os : String
  pub cpu : ℕ
  pub a3s : List String

-- `pclass`: no style, `style1` and `style2`
pub data Stripe : Type 0 where
  plain first second : Stripe

unfoldable pub style : Stripe → String
style plain = ""
style first = "background: rgba(51, 51, 255, .1)"
style second = "background: rgba(51, 255, 51, .1)"

-- `(pclass === style1) ? style2 : style1`
unfoldable pub other : Stripe → Stripe
other plain = first
other first = second
other second = first

-- the pool and the style after a host
unfoldable pub next_stripe : Host → String × Stripe → String × Stripe
unfolding other
next_stripe h (pool, s) =
    if h.type == 2
    then (if str_eq pool h.poolid then (pool, s) else (h.poolid, other s))
    else (pool, plain)

-- `choice`: the A3s that a manager can choose from, and the guids that are chosen
pub record Row : Type 0 where
  pub stripe : Stripe
  pub guid : String
  pub title : String
  pub icon : String
  pub system : List ℕ
  pub cpu : ℕ
  pub choice : Option (List A3 × List String)

-- the table, one of the two notes, or the TypeError of a cache that is not there
pub data Page : Type 0 where
  table : List Row → Page
  no_a3s no_hosts type_error : Page

-- `JSON.parse(sessionStorage.getItem("a3Cache"))`
unfoldable pub known_a3s : Storage → Option (List A3)
known_a3s s = elim (lookup "a3Cache" s) [ some (a3s l) ↦ some l | _ ↦ none ]

-- `none` is a TypeError
unfoldable pub has_a3s : Option (List A3) → Option Bool
has_a3s none = none
has_a3s (some l) = some (not (length l == 0))

abbrev pub check_no_a3s : Storage → Option Bool
check_no_a3s s = has_a3s (known_a3s s)

-- what follows the check, or the note that it leaves
unfoldable pub checked : Option Bool → Page → Page
checked none page = type_error
checked (some false) page = no_a3s
checked (some true) page = page

unfoldable pub role_icon : Host → String
role_icon h =
    if h.type == 2 && h.role == 1
    then "<img src='/images/crown_32.png' width='16' height='16' data-toggle='tooltip' title='Pool Master'>"
    else ""

-- `host.type` becomes a text for XCP
unfoldable pub shown_type : Host → Value
shown_type h = if contains (codes "XCP") (codes h.os) then str "XCP" else num (pos h.type)

module _ (text : String → String) (is_manager : Bool) where
  unfoldable pub host_row : List A3 → Host → Stripe → Row
  unfolding role_icon shown_type
  host_row all h s = record {
    stripe = s;
    guid = h.guid;
    title = h.name <> " " <> role_icon h <> "  [" <> h.ip <> "]";
    icon = get_virt_type_icon text (shown_type h);
    system = codes h.os ++ b' ' ∷ get_os_version (codes h.os);
    cpu = h.cpu;
    choice = if is_manager then some (all, h.a3s) else none;
  }

  unfoldable pub host_rows : List A3 → String × Stripe → List Host → List Row
  unfolding host_row next_stripe
  host_rows all state [] = []
  host_rows all state (h ∷ hs) =
      host_row all h (next_stripe h state).1 ∷ host_rows all (next_stripe h state) hs

  unfoldable pub hosts_page : Option (List A3) → List Host → Page
  unfolding host_rows
  hosts_page all [] = no_hosts
  hosts_page none (h ∷ hs) = type_error
  hosts_page (some l) (h ∷ hs) = table (host_rows l ("", plain) (h ∷ hs))

  unfoldable pub draw_hosts_table : Storage → List Host → Page
  unfolding hosts_page checked has_a3s
  draw_hosts_table s hosts = checked (check_no_a3s s) (hosts_page (known_a3s s) hosts)
