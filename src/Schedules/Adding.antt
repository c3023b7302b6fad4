-- ===== src/Schedules/Adding.antt =====
-- webui/js/events.js: the handlers of `.add-rep-src` and `.add-rest-src`, which add the chosen systems
-- to the list of a replication or a restore. `trim` and white space are the browser's.
pub mod Once
use alike.Base.{
  ℕ, String, List, [], ◌∷◌, ◌++◌, Bool, true, false, not, ◌&&◌, ◌||◌, Option, some, none, ◌==◌,
  if◌then◌else◌, str_eq, any, length, ◌<>◌,
}
use alike.Schedules.{Source}

-- an item of the list: what is sent for it, and what it shows
pub record Item : Type 0 where
  pub source : Source
  pub name : String
  pub dest_name : List ℕ
  pub sr_note : String

-- what stands in the inputs
pub record Inputs : Type 0 where
  -- the chosen systems: id and text
  pub src_vms : List (String × String)
  pub dest_uuid : String
  pub dest_name : List ℕ
  pub dest_sr : String
  pub dest_sr_name : String
  pub dest_network : String
  pub is_vhd_visible : Bool
  pub dest_vhd : String

-- the chosen version of a backup: a list without options has none, and its length is a TypeError
pub data Version : Type 0 where
  no_options blank : Version
  version : ℕ → Version

pub data Effect : Type 0 where
  toast : String → String → String → Effect
  clear_inputs : Effect

drop_spaces : (ℕ → Bool) → List ℕ → List ℕ
drop_spaces is_space [] = []
drop_spaces is_space (c ∷ cs) = if is_space c then drop_spaces is_space cs else c ∷ cs

-- `replace(/^>\s*/, '')`
pub without_arrow : (ℕ → Bool) → List ℕ → List ℕ
unfolding drop_spaces
without_arrow is_space [] = []
without_arrow is_space (c ∷ cs) = if c == b'>' then drop_spaces is_space cs else c ∷ cs

abbrev pub is_listed : String → List Item → Bool
is_listed id items = any (λ t. str_eq t.source.uuid id) items

abbrev pub skipped : String → Effect
skipped name =
    toast ("System \"" <> name <> "\" already defined, skipping duplicated entry.")
      "Skipping system" "warning"

abbrev pub missing : String → String → Effect
missing text title = toast text title "warning"

abbrev no_dest : Effect
no_dest = missing "Please select your destination location and storage." "Missing Required Info"

abbrev pub is_zero : String → Bool
is_zero uuid = str_eq uuid "0" || str_eq uuid ""

module _ (is_space : ℕ → Bool) (trim : String → String) where
  -- the repository and its note
  pub dest_of : Inputs → String × String
  dest_of i =
      if i.is_vhd_visible
      then (if str_eq i.dest_vhd ""
          then (i.dest_sr, "[ Default VHD Path ]")
          else (trim i.dest_vhd, "[ " <> trim i.dest_vhd <> " ] "))
      else (i.dest_sr, " [" <> trim i.dest_sr_name <> "] ")

  pub item_of : Inputs → Option ℕ → String × String → Item
  unfolding dest_of without_arrow
  item_of i ts v = record {
    source = record {
      uuid = v.0;
      dest_uuid = i.dest_uuid;
      sr = (dest_of i).0;
      timestamp = ts;
      network = i.dest_network;
    };
    name = v.1;
    dest_name = without_arrow is_space i.dest_name;
    sr_note = (dest_of i).1;
  }

  -- the loop over the chosen systems
  unfoldable pub add_items :
      Inputs → Option ℕ → List (String × String) → List Item → List Item × List Effect
  unfolding item_of
  add_items i ts [] items = (items, [])
  add_items i ts (v ∷ vs) items =
      let added = add_items i ts vs (items ++ item_of i ts v ∷ []) in
      let kept = add_items i ts vs items in
      if is_listed v.0 items then (kept.0, skipped v.1 ∷ kept.1) else added

  unfoldable pub add_rep_src : Inputs → List Item → List Item × List Effect
  unfolding add_items
  add_rep_src i items =
      if is_zero i.dest_uuid
      then (items, no_dest ∷ [])
      else if length i.src_vms == 0
      then (
        items,
        missing "Please select at least 1 system to replicate." "No systems defined" ∷ [],
      )
      else (
        (add_items i none i.src_vms items).0,
        (add_items i none i.src_vms items).1 ++ clear_inputs ∷ [],
      )

  -- `none` is the TypeError
  unfoldable pub add_rest_src : Inputs → Version → List Item → Option (List Item × List Effect)
  unfolding add_items
  add_rest_src i v items =
      if is_zero i.dest_uuid
      then some (items, no_dest ∷ [])
      else if length i.src_vms == 0
      then some
          (items, missing "Please select at least 1 system to restore." "No systems defined" ∷ [])
      else elim v [
        | no_options ↦ none
        | blank ↦
            some
              (items, missing "Please select backup version to restore." "No backup selected" ∷ [])
        | version ts ↦ some (
          (add_items i (some ts) i.src_vms items).0,
          (add_items i (some ts) i.src_vms items).1 ++ clear_inputs ∷ [],
        )
      ]
