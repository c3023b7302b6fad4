-- ===== src/VmEdit/Clicks.antt =====
-- What two clicks do, and what is sent.
use alike.Base.{
  String, List, [], map, Bool, true, false, ◌||◌, ◌≡◌, ◌≢◌, arith, str_eq, eq_iff, if◌then◌else◌,
  Bool-cases, inl, inr,
}
use alike.Storage.{Storage}
use alike.Pools.{a3_cache}
use alike.VmEdit.{Kind, shows, edits, SetArgs, set_on, edit_vm}

-- the requests that give every A3 the text
abbrev pub to_all : Kind → String → Storage → String → List SetArgs
to_all k guid s value =
    map (λ a3. record { value = value; type = k.type; vmuuid = guid; a3id = a3.id }) (a3_cache s)

-- A text that is typed and left with a click is sent to every A3 if it is valid and not empty, and
-- is then shown, and edited again by the next click; any other text but the empty one is sent to
-- none and stays in the input.
pub edit_vm_lem :
    (k : Kind) (guid : String) (s : Storage) (t : String) (invalid : Bool)
    → t ≢ ""
    → ((edit_vm k guid s (edits t invalid)).1 ≡ (if k.is_valid t then to_all k guid s t else []))
      × ((edit_vm k guid s (edits t invalid)).0 ≡ (if k.is_valid t then shows t else edits t true))
      × ((edit_vm k guid s (edit_vm k guid s (edits t invalid)).0).0
          ≡ (if k.is_valid t then edits t false else edits t true))
unfolding edit_vm set_on
edit_vm_lem k guid s t invalid given =
    (ground (arith, eq_iff t ""), ground (arith, eq_iff t ""), ground (arith, eq_iff t ""))

-- Two clicks without typing: a text that is valid is sent to every A3 as it was shown. In place of
-- one that is not, the text that the input falls back to is sent, or what stands for an empty one.
pub edit_vm-edit_vm :
    (k : Kind) (guid : String) (s : Storage) (t : String)
    → t ≢ ""
    → (k.is_valid k.fallback || str_eq k.fallback "") ≡ true
    → (edit_vm k guid s (edit_vm k guid s (shows t)).0).1
      ≡ to_all k guid s
          (if k.is_valid t then t else if str_eq k.fallback "" then k.blank_value else k.fallback)
unfolding edit_vm set_on
edit_vm-edit_vm k guid s t given fallback = elim (Bool-cases (k.is_valid t)) [
  | inl valid ↦ ground (arith, eq_iff t "")
  | inr other ↦ ground arith
]
