-- ===== src/Abd/Drawn/Tests.antt =====
-- A pool with an address, at whose panel another is added and the first is deleted.
use alike.Base.{List, [], ◌∷◌, true, not, ◌≡◌, All, codes, none}
use alike.Abd.{fulfilled, thrown}
use alike.Abd.Drawn.{XenPool, drawn_panel}
use alike.Abd.Drawn.Handled.{
  Event, typed, clicks_dhcp, adds, deletes, handles, sent_ids, clicked_ids, is_listed,
  handles-drawn,
}

abbrev office : XenPool
office = record {
  uuid = "p1";
  name = "office";
  image = none;
  vnetworks = ("n1", "Network 0") ∷ [];
  abd_nets =
      record {
        id = "8";
        net_id = "n1";
        ip = "10.0.0.7";
        netmask = codes "255.255.255.0";
        gateway = codes "10.0.0.1";
      }
      ∷ [];
  abds = [];
}

abbrev events : List Event
events =
    typed (codes "10.0.0.8") (codes "10.0.0.1") 24
    ∷ adds "00:16:3E:00:00:01" fulfilled
    ∷ deletes 0 fulfilled
    ∷ clicks_dhcp (thrown "no")
    ∷ []

handles-drawn_example :
    ((handles events (drawn_panel office)).manual_ip_shown
      ≡ not (handles events (drawn_panel office)).dhcp_checked)
    × (sent_ids events (drawn_panel office) ≡ clicked_ids events (drawn_panel office))
    × All (λ id. is_listed office.abd_nets id ≡ true) (sent_ids events (drawn_panel office))
handles-drawn_example = handles-drawn office events
