-- ===== src/VmEdit/Header/Tests.antt =====
-- A system with a number of versions of its own.
use alike.Base.{
  String, arith, false, [], ◌∷◌, none, some, ◌≡◌, ◌≢◌, if◌then◌else◌, true, eq_iff, pos,
}
use alike.Storage.{Storage, a3s}
use alike.Status.Value.{num}
use alike.VmEdit.{
  max_on, max_off, access_ip, shows, edits, edit_vm_on, edit_vm_off, edit_vm_access_ip,
}
use alike.VmEdit.Header.{Vm}
use alike.VmEdit.Header.Edited.{drawn, drawn-edited}

abbrev web : Vm
web = record {
  guid = "g1";
  name = "web";
  type = num (pos 2);
  auth_profile = none;
  total_size = 4096;
  host_uuid = some "h1";
  pool_id = "p1";
  access_ip = none;
  max_onsite = none;
  max_offsite = none;
  last_success = 0;
  a3id = "1";
}

abbrev storage : Storage
storage = ("a3Cache", a3s (record { id = "1"; guid = "g1"; name = "East" } ∷ [])) ∷ []

given : ◌≢◌ {A = String} "7" ""
given e = ground (arith, eq_iff "7" "")

drawn-edited_example :
    ((edit_vm_on "g1" storage (edits "7" false)).0 ≡ (
      if max_on.is_valid "7"
      then shows
          (drawn
            (λ t. t)
            (λ t. t)
            0
            (λ t. none)
            0
            storage
            (record web { max_onsite = some "7" })).max_on
      else edits "7" true))
    × ((edit_vm_off "g1" storage (edits "7" false)).0 ≡ (
        if max_off.is_valid "7"
        then shows
            (drawn
              (λ t. t)
              (λ t. t)
              0
              (λ t. none)
              0
              storage
              (record web { max_offsite = some "7" })).max_off
        else edits "7" true))
    × ((edit_vm_access_ip "g1" storage (edits "7" false)).0 ≡ (
        if access_ip.is_valid "7"
        then shows
            (drawn
              (λ t. t)
              (λ t. t)
              0
              (λ t. none)
              0
              storage
              (record web { access_ip = some "7" })).access_ip
        else edits "7" true))
    × ((edit_vm_access_ip "g1" storage (edits "" false)).0
        ≡ shows
            (drawn
              (λ t. t)
              (λ t. t)
              0
              (λ t. none)
              0
              storage
              (record web { access_ip = some "" })).access_ip)
drawn-edited_example =
    drawn-edited (λ t. t) (λ t. t) 0 (λ t. none) 0 "g1" storage web "7" false given
