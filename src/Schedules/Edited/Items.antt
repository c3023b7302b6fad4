-- ===== src/Schedules/Edited/Items.antt =====
-- webui/js/a3.js: the items that `editRepSchedule` and `editRestSchedule` append to the list of a
-- replication and of a restore.
pub mod Sent
use alike.Base.{
  ℕ, String, List, [], ◌∷◌, ◌++◌, map, Bool, true, false, not, ◌&&◌, Option, some, none, ◌==◌,
  if◌then◌else◌, str_eq, codes, ◌<>◌,
}
use alike.Clock.{get_date}
use alike.Schedules.{Source}
use alike.Schedules.Adding.{Item}

-- the host and the repository that a system goes to
pub record DestHost : Type 0 where
  pub uuid : String
  pub native_name : String
  pub name : String
  pub type : ℕ

pub record DestSr : Type 0 where
  pub uuid : String
  pub name : String

-- a system that is stored with the schedule; `none` is `undefined`
pub record StoredTarget : Type 0 where
  pub uuid : String
  pub name : String
  pub dest_host : DestHost
  pub dest_sr : Option DestSr
  pub network : Option String
  pub timestamp : ℕ
  pub version : ℕ

-- an item with its note on the network and, of a restore, on its version
pub record EditedItem : Type 0 where
  pub item : Item
  pub net_note : String
  pub version_text : String

-- a value in a template
abbrev pub printed : Option String → String
printed none = "undefined"
printed (some t) = t

-- an object in a template
abbrev printed_object : String
printed_object = "[object Object]"

abbrev pub is_set : Option String → Bool
is_set none = false
is_set (some t) = not (str_eq t "")

unfoldable pub sr_of : StoredTarget → String
sr_of v = elim v.dest_sr [ none ↦ "" | some sr ↦ sr.uuid ]

-- for a host of type 3 the note is the repository itself, which is an object
unfoldable pub sr_note : StoredTarget → String
sr_note v =
    if v.dest_host.type == 3
    then elim v.dest_sr [ none ↦ "[ Default VHD Path ]" | some sr ↦ printed_object ]
    else elim v.dest_sr [ none ↦ "" | some sr ↦ "[ " <> sr.name <> " ] " ]

unfoldable pub net_note : StoredTarget → String
net_note v =
    if is_set v.network && not (v.dest_host.type == 3) then "Network: " <> printed v.network else ""

unfoldable pub dest_name : StoredTarget → String
dest_name v = v.dest_host.native_name <> " [" <> v.dest_host.name <> "]"

unfoldable pub edited_item : Option ℕ → StoredTarget → Item
unfolding sr_of sr_note dest_name
edited_item ts v = record {
  source = record {
    uuid = v.uuid;
    dest_uuid = v.dest_host.uuid;
    sr = sr_of v;
    timestamp = ts;
    network = printed v.network;
  };
  name = v.name;
  dest_name = codes (dest_name v);
  sr_note = sr_note v;
}

unfoldable pub edit_rep_item : StoredTarget → EditedItem
unfolding edited_item net_note
edit_rep_item v = record { item = edited_item none v; net_note = net_note v; version_text = "" }

-- the parameters of a date, as in Clock
module _ (local_time : ℕ → ℕ × ℕ) (local_day : ℕ → ℕ × ℕ × ℕ) (twelve : Bool)
    (locale_date : ℕ → String) where
  unfoldable pub edit_rest_item : StoredTarget → EditedItem
  unfolding edited_item net_note
  edit_rest_item v = record {
    item = edited_item (some v.timestamp) v;
    net_note = net_note v;
    version_text =
        if v.version == 0
        then "<span style='color:red;'>Backup Version no longer available!</span>"
        else get_date local_time local_day twelve locale_date v.version true;
  }

-- what is read of the items when the schedule is saved
unfoldable pub sources_of : List EditedItem → List Source
sources_of items = map (λ x. x.item.source) items
