-- ===== src/VmEdit/Header.antt =====
-- webui/js/a3.js, `drawVmDetailHeader`: the texts of the page of a system, and its button for a backup.
-- The texts of the console, the time, `trim` and what `JSON.parse` makes of the profile of an agent
-- are parameters; `none` is a profile that cannot be read, and a version is its part before a space.
-- The guid and the detected address are shown as they are, and are left out.
pub mod Edited
mod Tests
use alike.Base.{
  ℕ, String, List, [], ◌∷◌, map, pos, Bool, true, false, not, ◌&&◌, ◌||◌, Option, some, none, ltb,
  ◌==◌, if◌then◌else◌, str_eq, ◌<>◌,
}
use alike.Status.Value.{Value, equals_number}
use alike.Status.File.{get_virt_type_icon}
use alike.Storage.{Storage}
use alike.Pools.{get_name_from_cache, a3_cache}
use alike.Format.Size.{pretty_size}
use alike.Format.Duration.{time_since, format_hours}

pub record Agent : Type 0 where
  pub version : String
  pub uptime_hours : ℕ
  pub instdate : String
  pub last_check : ℕ

-- `host_uuid`, `access_ip` and the numbers of versions can be null
pub record Vm : Type 0 where
  pub guid : String
  pub name : String
  pub type : Value
  pub auth_profile : Option String
  pub total_size : ℕ
  pub host_uuid : Option String
  pub pool_id : String
  pub access_ip : Option String
  pub max_onsite : Option String
  pub max_offsite : Option String
  pub last_success : ℕ
  pub a3id : String

-- the button is not there, or has the class `quick-backup` or `quick-backup-nolic`
pub data Quick : Type 0 where
  no_button quick_backup quick_backup_nolic : Quick

pub record Header : Type 0 where
  pub name : String
  pub type_text : String
  pub max_on : String
  pub max_off : String
  pub access_ip : String
  pub last_backup : String
  pub quick : Quick
  pub size : String
  pub agent_type : String
  pub have_agent : String
  -- the version, uptime, date of installation and time of the agent
  pub agent : Option (String × String × String × String)
  -- the A3s that an agent can be assigned to, by id and name, with the one that has it
  pub owners : List (String × String × Bool)

unfoldable pub is_null : Option String → Bool
is_null none = true
is_null (some t) = false

-- `maxOnsite` and `maxOffsite`
unfoldable pub max_text : Option String → String
max_text none = "Global Default"
max_text (some v) = v

unfoldable pub access_text : Option String → String
access_text none = "Auto-detect"
access_text (some v) = if str_eq v "" then "Auto-detect" else v

unfoldable pub is_agent : Vm → Bool
is_agent vm = equals_number vm.type (pos 10)

unfoldable pub quick_of : Vm → Quick
unfolding is_null is_agent
quick_of vm =
    if is_null vm.host_uuid
    then no_button
    else if is_agent vm && not (str_eq vm.pool_id "licensed")
    then quick_backup_nolic
    else quick_backup

unfoldable pub is_read : Option Agent → Bool
is_read none = false
is_read (some a) = true

unfoldable pub have_text : Bool → Option Agent → String
have_text false a = "<span class='badge bg-warning'>No QS Agent detected<span>"
have_text true none = "<span class='badge bg-success'>Detected <span>"
have_text true (some a) = "<span class='badge bg-success'>Detected (" <> a.version <> ")<span>"

module _ (text : String → String) (trim : String → String) (now : ℕ)
    (parse : String → Option Agent) where
  -- the profile is there, and is not blank
  unfoldable pub has_profile : Vm → Bool
  has_profile vm = elim vm.auth_profile [
    | none ↦ false
    | some p ↦ not (str_eq p "") && not (str_eq (trim p) "")
  ]

  unfoldable pub agent_of : Vm → Option Agent
  unfolding has_profile
  agent_of vm =
      if has_profile vm then (elim vm.auth_profile [ none ↦ none | some p ↦ parse p ]) else none

  unfoldable pub agent_texts : Option Agent → Option (String × String × String × String)
  agent_texts none = none
  agent_texts (some a) =
      some (a.version, format_hours a.uptime_hours, a.instdate, time_since now a.last_check)

  unfoldable pub place_text : Storage → Vm → String
  unfolding is_agent
  place_text s vm = elim vm.host_uuid [
    | none ↦ " [Location unknown]"
    | some h ↦
        if str_eq h ""
        then " [Location unknown]"
        else if is_agent vm
        then " [Physical Agent] "
        else " [On " <> get_name_from_cache h s <> "]"
  ]

  -- `node_mode` 2 is an A3 that stands alone
  unfoldable pub draw_vm_detail_header : ℕ → Storage → Vm → Header
  unfolding max_text access_text quick_of have_text is_read agent_of agent_texts place_text
  draw_vm_detail_header node_mode s vm = record {
    name = vm.name;
    type_text = get_virt_type_icon text vm.type <> place_text s vm;
    max_on = max_text vm.max_onsite;
    max_off = max_text vm.max_offsite;
    access_ip = access_text vm.access_ip;
    last_backup =
        if ltb 0 vm.last_success then time_since now vm.last_success else "No Backups taken";
    quick = quick_of vm;
    size = if vm.total_size == 0 then "Size N/A" else pretty_size (some vm.total_size);
    agent_type = if is_agent vm then "Full Agent" else "QHB Agent";
    have_agent = have_text (has_profile vm) (agent_of vm);
    agent = agent_texts (agent_of vm);
    owners =
        if is_agent vm && not (node_mode == 2) && is_read (agent_of vm)
        then map (λ a. (a.id, a.name, str_eq a.id vm.a3id)) (a3_cache s)
        else [];
  }
