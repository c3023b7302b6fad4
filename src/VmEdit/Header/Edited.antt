-- ===== src/VmEdit/Header/Edited.antt =====
-- What is shown after an edit, and what is shown when the page is drawn again.
use alike.Base.{ℕ, String, Bool, true, Option, some, ◌≡◌, ◌≢◌, arith, eq_iff, if◌then◌else◌}
use alike.Storage.{Storage}
use alike.VmEdit.{
  max_on, max_off, access_ip, shows, edits, edit_vm, edit_vm_on, edit_vm_off, edit_vm_access_ip,
}
use alike.VmEdit.Header.{Agent, Vm, Header, draw_vm_detail_header}

module _ (text : String → String) (trim : String → String) (now : ℕ) (parse : String → Option Agent)
    (node_mode : ℕ) where
  abbrev pub drawn : Storage → Vm → Header
  drawn = draw_vm_detail_header text trim now parse node_mode

  -- A click that leaves what is typed for the versions or the address of a system shows, if the text is
  -- valid and not empty, what the page shows when it is drawn again with that text; any other text
  -- but the empty one stays in the input. An empty address shows what the page shows for the
  -- empty one.
  pub drawn-edited :
      (guid : String) (s : Storage) (vm : Vm) (t : String) (invalid : Bool)
      → t ≢ ""
      → ((edit_vm_on guid s (edits t invalid)).0 ≡ (
          if max_on.is_valid t
          then shows (drawn s (record vm { max_onsite = some t })).max_on
          else edits t true))
        × ((edit_vm_off guid s (edits t invalid)).0 ≡ (
            if max_off.is_valid t
            then shows (drawn s (record vm { max_offsite = some t })).max_off
            else edits t true))
        × ((edit_vm_access_ip guid s (edits t invalid)).0 ≡ (
            if access_ip.is_valid t
            then shows (drawn s (record vm { access_ip = some t })).access_ip
            else edits t true))
        × ((edit_vm_access_ip guid s (edits "" invalid)).0
            ≡ shows (drawn s (record vm { access_ip = some "" })).access_ip)
  unfolding edit_vm_on edit_vm_off edit_vm_access_ip edit_vm draw_vm_detail_header
  drawn-edited guid s vm t invalid given = (
    ground (arith, eq_iff t ""),
    ground (arith, eq_iff t ""),
    ground (arith, eq_iff t ""),
    ground arith,
  )
