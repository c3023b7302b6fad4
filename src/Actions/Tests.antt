-- ===== src/Actions/Tests.antt =====
-- A restore that is started at the second click.
use alike.Base.{String, List, [], ◌∷◌, Bool, true, false, ◌≡◌, refl, any, if◌then◌else◌}
use alike.Actions.{Window}
use alike.Actions.Once.{requests, presses, is_some_checked, presses-requests}

abbrev window : Window
window = record {
  disks = [];
  dest_uuid = "h1";
  vm_uuid = "v1";
  ds = 0;
  ts = 1700000000;
  sr = "s1";
  vhd = "";
  network = "n1";
  site = "1";
  is_armed = true;
}

abbrev clicked_boxes : List (List (String × Bool))
clicked_boxes =
    (("0", false) ∷ ("1", false) ∷ [])
    ∷ (("0", true) ∷ ("1", false) ∷ [])
    ∷ (("0", true) ∷ ("1", true) ∷ [])
    ∷ []

presses-requests_example :
    requests (presses clicked_boxes window) ≡ (if any is_some_checked clicked_boxes then 1 else 0)
presses-requests_example = presses-requests clicked_boxes window refl
