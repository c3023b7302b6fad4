-- ===== src/Filters.antt =====
-- webui/js/events.js: the fields that filter lists, `#source-filter` of the form of a backup,
-- `#filterR`, `#filterWizStr` and `#filterBUstr`. Texts are lists of char codes; `toUpperCase` and
-- `trim` are the browser's. A uuid is a text that jQuery does not read as a number.
pub mod Found
mod Tests
use alike.Base.{
  ℕ, ◌+◌, String, List, [], ◌∷◌, map, Bool, true, false, not, ◌&&◌, ◌||◌, leb, if◌then◌else◌, any,
  filter, length, contains,
}

-- an item of the systems that can be chosen
pub record Source : Type 0 where
  pub text : List ℕ
  pub uuid : List ℕ
  pub shown : Bool

-- a header of the backups that can be chosen, and a row of a wizard
pub record Header : Type 0 where
  pub text : List ℕ
  pub hidden : Bool

pub record WizardRow : Type 0 where
  pub id : List ℕ
  pub hidden : Bool

-- an input of a system, and the system, whose parent is hidden
pub record Input : Type 0 where
  pub name : String
  pub value : List ℕ

pub record VmDiv : Type 0 where
  pub text : List ℕ
  pub inputs : List Input
  pub hidden : Bool

-- the items of a host: how many stand there beside the systems, and the systems
pub record Group : Type 0 where
  pub others : ℕ
  pub vms : List VmDiv
  pub hidden : Bool

-- `this.name = 'vmuuid'`, which is an assignment and holds
unfoldable pub renamed : Input → Input
renamed i = record i { name = "vmuuid" }

-- `show()`
unfoldable pub show_item : Source → Source
show_item i = record i { shown = true }

module _ (upper trim : List ℕ → List ℕ) where
  -- `text.toUpperCase().indexOf(s) > -1`
  unfoldable pub is_found : List ℕ → List ℕ → Bool
  is_found s text = contains (upper s) (upper text)

  unfoldable pub filter_source : List ℕ → Source → Source
  unfolding is_found
  filter_source s i = record i {
    shown = if not (is_found s (trim i.text)) && not (is_found s i.uuid) then false else i.shown;
  }

  unfoldable pub filter_sources : List ℕ → List Source → List Source
  unfolding filter_source show_item
  filter_sources s items = map (filter_source s) (map show_item items)

  unfoldable pub filter_headers : List ℕ → List Header → List Header
  unfolding is_found
  filter_headers s items =
      map {A = Header} (λ i. record i { hidden = not (is_found s i.text) }) items

  unfoldable pub filter_wizard : List ℕ → List WizardRow → List WizardRow
  unfolding is_found
  filter_wizard s items =
      map {A = WizardRow} (λ i. record i { hidden = not (is_found s i.id) }) items

  -- the inputs are looked at if the text is not found
  unfoldable pub filter_vm : List ℕ → VmDiv → VmDiv
  unfolding is_found renamed
  filter_vm s v = if is_found s v.text then record v { hidden = false } else (record v {
    inputs = map renamed v.inputs;
    hidden = not (any (λ i. is_found s i.value) v.inputs);
  })

  unfoldable pub filter_group : List ℕ → Group → Group
  unfolding filter_vm
  filter_group s g =
      let vms = map (filter_vm s) g.vms in
      record g { vms = vms; hidden = leb (g.others + length (filter (λ v. not v.hidden) vms)) 1 }

  unfoldable pub filter_picker : List ℕ → List Group → List Group
  unfolding filter_group
  filter_picker s groups = map (filter_group s) groups
