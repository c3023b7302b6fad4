-- ===== src/Setup.antt =====
-- webui/js/events.js: the settings that are saved as soon as they change, the handlers of
-- `.auto-setting`. `trim` is the browser's. A text of a setting is kept by the service as it is sent.
pub mod Kept
use alike.Base.{
  String, List, [], ◌∷◌, ◌++◌, Bool, true, false, Option, some, none, str_eq, if◌then◌else◌,
}

-- an input of a setting: its text, its `data("prev")`, and whether it is the name of an A3
pub record Input : Type 0 where
  pub id : Option String
  pub text : String
  pub prev : Option String
  pub is_a3name : Bool
  pub site : String

pub data Call : Type 0 where
  -- `updateSetting` with its site
  update_setting : String → String → String → Call
  -- "a3/set" with the id and the name
  a3_set : String → String → Call

abbrev pub equals : Option String → String → Bool
equals none t = false
equals (some s) t = str_eq s t

-- `val(undefined)` leaves the text as it is
abbrev pub or_text : Option String → String → String
or_text none t = t
or_text (some s) t = s

module _ (trim : String → String) where
  -- the handler of the focus, of a text
  unfoldable pub focus : Input → Input
  focus i = record i { prev = some (trim i.text) }

  -- the handler of the change, of a text
  unfoldable pub change : Input → Input × List Call
  change i = elim i.id [
    | none ↦ (i, [])
    | some id ↦
        if equals i.prev (trim i.text)
        then (i, [])
        else if str_eq (trim i.text) ""
        then (record i { text = or_text i.prev i.text }, [])
        else (
          i,
          update_setting id (trim i.text) i.site
              ∷ (if i.is_a3name then a3_set i.site (trim i.text) ∷ [] else []),
        )
  ]

-- of a check box
unfoldable pub change_box : Option String → Bool → String → List (String × Bool × String)
change_box id checked site = elim id [ none ↦ [] | some set ↦ (set, checked, site) ∷ [] ]
