-- ===== src/Systems.antt =====
-- webui/js/a3.js: the rows of `drawAllSystemsTable` and `drawAgentsTable`, and of webui/js/events.js
-- the icon that forgets an agent. The texts of the console, the time, and what `JSON.parse` makes of
-- the profile of an agent are parameters: its version, as the parts that a space divides, and when
-- it was last seen, or `none` where the `try` ends in its `catch`.
pub mod Forgotten
mod Tests
use alike.Base.{
  ℕ, String, List, [], ◌∷◌, map, pos, Bool, true, false, not, ◌&&◌, ◌||◌, Option, some, none, ltb,
  ◌==◌, if◌then◌else◌, str_eq, show, ◌<>◌,
}
use alike.Status.Value.{Value, equals_number}
use alike.Status.File.{get_virt_type_icon, get_power_state}
use alike.Storage.{Storage}
use alike.Pools.{get_name_from_cache}
use alike.Hosts.{check_no_a3s}
use alike.Format.Size.{pretty_size}
use alike.Format.Duration.{time_since}
use alike.Actions.{Awaited, Step, agent_delete}

-- an empty `guid` is one that is not there; `host_uuid` and `auth_profile` can be null
pub record System : Type 0 where
  pub type : Value
  pub auth_profile : Option String
  pub host_uuid : Option String
  pub uuid : String
  pub guid : String
  pub pool_id : String
  pub a3id : String
  pub a3_name : String
  pub power_state : Value
  pub name : String
  pub last_job_result : ℕ
  pub total_size : ℕ

pub record Row : Type 0 where
  pub icon : String
  pub guid : String
  pub site : String
  pub name : String
  pub a3_name : String
  pub location : String
  pub agent : String
  pub backups : String
  pub size : String

-- `if(r.guid){ guid = r.guid; }`
unfoldable pub guid_of : System → String
guid_of r = if str_eq r.guid "" then r.uuid else r.guid

-- `r.hostUUID ==""  && r.type !=10`
unfoldable pub is_lost : System → Bool
is_lost r =
    (elim r.host_uuid [ none ↦ false | some h ↦ str_eq h "" ])
    && not (equals_number r.type (pos 10))

unfoldable pub size_text : System → String
size_text r = if r.total_size == 0 then "N/A" else pretty_size (some r.total_size)

unfoldable pub name_text : System → String
name_text r = get_power_state r.power_state <> " " <> r.name

unfoldable pub without_profile : Option String → String
without_profile none = "Could not parse agent info"
without_profile (some h) = "Enhanced"

-- a row of the agents; `forget` is what the icon is for, where it can be clicked
pub record AgentRow : Type 0 where
  pub guid : String
  pub site : String
  pub name : String
  pub a3_name : String
  pub agent : String
  pub backups : String
  pub size : String
  pub forget : Option String

-- the table, one of the two notes, or the TypeError of a cache that is not there
pub data Page (A : Type 0) : Type 0 where
  table : List A → Page A
  no_a3s no_systems type_error : Page A

unfoldable pub filled : {A : Type 0} → (System → A) → List System → Page A
filled row [] = no_systems
filled row (r ∷ rs) = table (map row (r ∷ rs))

unfoldable pub checked : {A : Type 0} → Option Bool → Page A → Page A
checked none page = type_error
checked (some false) page = no_a3s
checked (some true) page = page

module _ (text : String → String) (now : ℕ) (parse : String → Option (String × ℕ)) where
  -- `agent` before the place is known
  unfoldable pub agent_text : System → String
  unfolding without_profile
  agent_text r = elim r.auth_profile [
    | none ↦ without_profile r.host_uuid
    | some p ↦ if str_eq p "" then without_profile r.host_uuid else elim (parse p) [
      | none ↦ ""
      | some (version, seen) ↦
          if equals_number r.type (pos 10)
          then "Full QS Agent [" <> version <> "]"
          else "Enhanced, QHB  [" <> version <> "]"
    ]
  ]

  unfoldable pub location_text : Storage → System → String
  unfolding is_lost
  location_text s r =
      let host : String = elim r.host_uuid [
        | none ↦ "Unknown Guid"
        | some h ↦ get_name_from_cache h s
      ] in
      if is_lost r
      then "Location unknown"
      else if equals_number r.type (pos 2) || equals_number r.type (pos 22)
      then get_virt_type_icon text r.type
        <> " <span data-toggle='tooltip' title='Pool: "
        <> get_name_from_cache r.pool_id s
        <> "'>"
        <> host
        <> " </span> "
      else if equals_number r.type (pos 3)
      then get_virt_type_icon text r.type <> " " <> host
      else if equals_number r.type (pos 10)
      then "Managed by " <> r.a3_name
      else "N/A"

  unfoldable pub system_row : Storage → System → Row
  unfolding guid_of name_text location_text agent_text is_lost size_text
  system_row s r = record {
    icon = get_virt_type_icon text r.type;
    guid = guid_of r;
    site = r.a3id;
    name = name_text r;
    a3_name = r.a3_name;
    location = location_text s r;
    agent = if is_lost r then "" else agent_text r;
    backups =
        if ltb 0 r.last_job_result
        then show r.last_job_result <> " Backups"
        else "No backups found";
    size = if is_lost r then "-" else size_text r;
  }

  unfoldable pub draw_all_systems_table : Storage → List System → Page Row
  unfolding system_row checked filled
  draw_all_systems_table s systems = checked (check_no_a3s s) (filled (system_row s) systems)

  unfoldable pub agent_row : System → AgentRow
  unfolding guid_of name_text size_text
  agent_row r = record {
    guid = guid_of r;
    site = r.a3id;
    name = name_text r;
    a3_name = r.a3_name;
    agent = elim r.auth_profile [
      | none ↦ ""
      | some p ↦ elim (parse p) [
        | none ↦ ""
        | some (version, seen) ↦ version <> " [seen: " <> time_since now seen <> "]"
      ]
    ];
    backups =
        if ltb 0 r.last_job_result then show r.last_job_result <> " Backups" else "No backups yet";
    size = size_text r;
    forget = if ltb 0 r.last_job_result then none else some (guid_of r);
  }

  unfoldable pub draw_agents_table : List System → Page AgentRow
  unfolding agent_row filled
  draw_agents_table agents = filled agent_row agents

-- `.agent-delete`, whose question is answered
unfoldable pub press_forget : AgentRow → Bool → Awaited → List (Step String)
press_forget r confirmed w = elim r.forget [
  | none ↦ []
  | some guid ↦ if confirmed then agent_delete guid w else []
]
