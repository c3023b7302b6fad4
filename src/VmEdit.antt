-- ===== src/VmEdit.antt =====
-- webui/js/events.js: `editVmOn`, `editVmOff` and `editVmAccessIP`, the icons that turn a text of a
-- system's page into an input and back. The three differ in the texts that they take and in what
-- stands for an empty one. A click is a step of the element; `data-guid` is an argument.
pub mod Clicks
pub mod Header
use alike.Base.{
  String, List, [], ◌∷◌, map, Bool, true, false, not, ◌&&◌, Option, some, none, str_eq,
  if◌then◌else◌, codes,
}
use alike.Storage.{A3, Storage}
use alike.Pools.{a3_cache}
use alike.Status.Value.{Value, str}
use alike.Service.{is_numeric}
use alike.Net.{check_ip}

-- what the three handlers differ in
pub record Kind : Type 0 where
  -- `args["type"]`
  pub type : String
  pub is_valid : String → Bool
  -- the input's first text where the shown one is not valid
  pub fallback : String
  -- what is shown and sent for an empty input
  pub blank : String
  pub blank_value : String

pub max_on : Kind
max_on = record {
  type = "onsiteversions";
  is_valid = λ t. is_numeric (str t);
  fallback = "5";
  blank = "Global Default";
  blank_value = "0";
}

pub max_off : Kind
max_off = record {
  type = "offsiteversions";
  is_valid = λ t. is_numeric (str t);
  fallback = "5";
  blank = "Global Default";
  blank_value = "0";
}

pub access_ip : Kind
access_ip = record {
  type = "accessip";
  is_valid = λ t. check_ip (codes t);
  fallback = "";
  blank = "Auto-detect";
  blank_value = "";
}

-- the element: its text, or the input in its place, with the class "is-invalid" or without
pub data Element : Type 0 where
  shows : String → Element
  edits : String → Bool → Element

-- "vm/set" to an A3
pub record SetArgs : Type 0 where
  pub value : String
  pub type : String
  pub vmuuid : String
  pub a3id : String

pub set_on : Kind → String → String → List A3 → List SetArgs
set_on k guid value l =
    map (λ a3. record { value = value; type = k.type; vmuuid = guid; a3id = a3.id }) l

pub edit_vm : Kind → String → Storage → Element → Element × List SetArgs
unfolding set_on
edit_vm k guid s (shows t) = (edits (if k.is_valid t then t else k.fallback) false, [])
edit_vm k guid s (edits t invalid) =
    if not (k.is_valid t) && not (str_eq t "")
    then (edits t true, [])
    else if str_eq t ""
    then (shows k.blank, set_on k guid k.blank_value (a3_cache s))
    else (shows t, set_on k guid t (a3_cache s))

pub edit_vm_on : String → Storage → Element → Element × List SetArgs
unfolding edit_vm max_on
edit_vm_on guid s e = edit_vm max_on guid s e

pub edit_vm_off : String → Storage → Element → Element × List SetArgs
unfolding edit_vm max_off
edit_vm_off guid s e = edit_vm max_off guid s e

pub edit_vm_access_ip : String → Storage → Element → Element × List SetArgs
unfolding edit_vm access_ip
edit_vm_access_ip guid s e = edit_vm access_ip guid s e
