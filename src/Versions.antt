-- ===== src/Versions.antt =====
-- webui/js/a3.js: the tables of backups and of vaults, `drawBackupsTable`, `drawVmDetails`,
-- `populateBackupTable` and `populateVaultTable`, with the handlers of webui/js/events.js that their
-- icons have. The flags of a version are whole numbers, which `parseInt` leaves alone; the table
-- that DataTables sorts is the list of the rows added to it.
pub mod Named
mod Tests
use alike.Base.{
  ℕ, String, List, [], ◌∷◌, ◌++◌, map, pos, Bool, true, false, not, Option, some, none, ltb, ◌==◌,
  if◌then◌else◌, length,
}
use alike.Status.Value.{Value, equals_number}
use alike.Storage.{A3, Storage}
use alike.Pools.{get_a3_from_id}
use alike.Hosts.{check_no_a3s}
use alike.Format.Size.{pretty_size}
use alike.Format.Duration.{time_elapsed}
use alike.Clock.{get_date}
use alike.Actions.{Version, Awaited, Step, delete_backup, manual_vault}

pub record VmVersion : Type 0 where
  pub name : String
  pub uuid : String
  pub timestamp : ℕ
  pub job_id : ℕ
  pub is_offsite : ℕ
  pub is_onsite : ℕ
  pub total_size : Option ℕ
  pub dedup : Option ℕ
  pub processing_time : ℕ
  pub gfs_policy_on : String

pub record Answer : Type 0 where
  pub vaults : Value
  pub ods_status : Value
  pub vm_versions : List VmVersion

-- what an icon carries: `data-uuid`, `data-ts`, `data-ds` and `data-site`
pub record Place : Type 0 where
  pub uuid : String
  pub ts : ℕ
  pub ds : ℕ
  pub site : String

-- an icon that sends a version to the vault, or fetches it, has no `data-ds`
pub record Vaulting : Type 0 where
  pub uuid : String
  pub ts : ℕ
  pub site : String

-- the icons of a row that are there, and its texts; `log` is the job that the date leads to
pub record Row : Type 0 where
  pub timestamp : ℕ
  pub restore : Place
  pub browse : Place
  pub validate : Option Place
  pub fetch : Option Vaulting
  pub name : String
  pub date : String
  pub log : Option ℕ
  pub a3_name : String
  pub total_size : String
  pub stored : String
  pub time : String
  pub send : Option Vaulting
  pub policy : String
  pub trash : Place

-- `.delete-backup`, `.vault-backup` and `.reverse-vault`
unfoldable pub press_delete : Row → Awaited → List (Step Version)
press_delete r w =
    delete_backup (record { ds = r.trash.ds; uuid = r.trash.uuid; ts = r.trash.ts }) r.trash.site w

unfoldable pub press_vault : Vaulting → Awaited → List (Step Version)
press_vault v w = manual_vault v.uuid v.ts 0 v.site w

unfoldable pub press_fetch : Vaulting → Awaited → List (Step Version)
press_fetch v w = manual_vault v.uuid v.ts 1 v.site w

unfoldable pub place_of : ℕ → String → VmVersion → Place
place_of ds site v = record { uuid = v.uuid; ts = v.timestamp; ds = ds; site = site }

abbrev pub vaulting_of : String → VmVersion → Vaulting
vaulting_of site v = record { uuid = v.uuid; ts = v.timestamp; site = site }

-- `if(data.vaults ==1){ ds =1; }`
unfoldable pub ds_of : Answer → ℕ
ds_of a = if equals_number a.vaults (pos 1) then 1 else 0

-- the rows behind those of the table; `none` is the TypeError of an A3 that is not known
unfoldable pub add_rows :
    Option A3 → (A3 → VmVersion → Row) → List Row → List VmVersion → Option (List Row)
add_rows a3 row rows [] = some rows
add_rows none row rows (v ∷ vs) = none
add_rows (some a) row rows (v ∷ vs) = some (rows ++ map (row a) (v ∷ vs))

-- the table of vaults, or the note that takes its place
pub data Vaults : Type 0 where
  not_configured : Vaults
  vaults : List Row → Vaults

-- a page that asks the A3s for their versions, or a note in its place, or a TypeError
pub record Call : Type 0 where
  pub call : String
  pub uuid : Option String
  pub a3id : Option String

pub data Page : Type 0 where
  calls : List Call → Page
  no_a3s no_backups type_error : Page

abbrev pub call_of : ℕ → Option String → String → Call
call_of ds uuid id = record {
  call = if ds == 0 then "backups" else "vaults";
  uuid = uuid;
  a3id = some id;
}

unfoldable pub asked : ℕ → Option String → List String → Page
asked ds uuid [] = no_backups
asked ds uuid (id ∷ ids) = calls (map (call_of ds uuid) (id ∷ ids))

unfoldable pub checked : Option Bool → Page → Page
checked none page = type_error
checked (some false) page = no_a3s
checked (some true) page = page

-- `ids` are those of the A3s
unfoldable pub draw_backups_table : Storage → ℕ → List String → Page
unfolding asked checked
draw_backups_table s ds ids = checked (check_no_a3s s) (asked ds none ids)

-- for one system, whose details are asked for first; the vaults are if the answer has `vaults` 1
unfoldable pub draw_vm_details : String → Value → List String → Call × Page
unfolding asked
draw_vm_details uuid answered ids = (
  record { call = "vm/details"; uuid = some uuid; a3id = none },
  asked (if equals_number answered (pos 1) then 1 else 0) (some uuid) ids,
)

module _ (local_time : ℕ → ℕ × ℕ) (local_day : ℕ → ℕ × ℕ × ℕ) (twelve : Bool)
    (locale_date : ℕ → String) where
  abbrev date_text : ℕ → String
  date_text t = get_date local_time local_day twelve locale_date t true

  unfoldable pub backup_row : ℕ → String → A3 → VmVersion → Row
  unfolding place_of
  backup_row ds site a3 v = record {
    timestamp = v.timestamp;
    restore = place_of ds site v;
    browse = place_of ds site v;
    validate = some (place_of ds site v);
    fetch = none;
    name = v.name;
    date = date_text v.timestamp;
    log = if ltb 0 v.job_id then some v.job_id else none;
    a3_name = a3.name;
    total_size = pretty_size v.total_size;
    stored = pretty_size v.dedup;
    time = time_elapsed v.processing_time;
    send = if v.is_offsite == 0 then some (vaulting_of site v) else none;
    policy = v.gfs_policy_on;
    trash = place_of ds site v;
  }

  -- `!v.isOnsite == 1`
  unfoldable pub vault_row : String → VmVersion → Row
  unfolding place_of
  vault_row site v = record {
    timestamp = v.timestamp;
    restore = place_of 1 site v;
    browse = place_of 1 site v;
    validate = none;
    fetch = if v.is_onsite == 0 then some (vaulting_of site v) else none;
    name = v.name;
    date = date_text v.timestamp;
    log = none;
    a3_name = "A3 name";
    total_size = pretty_size v.total_size;
    stored = pretty_size v.dedup;
    time = time_elapsed v.processing_time;
    send = none;
    policy = "";
    trash = place_of 1 site v;
  }

  unfoldable pub populate_backup_table : Storage → String → Answer → List Row → Option (List Row)
  unfolding add_rows backup_row ds_of
  populate_backup_table s site a rows =
      add_rows (get_a3_from_id site s) (backup_row (ds_of a) site) rows a.vm_versions

  -- the note takes the place of the table, and rows that are added later are not seen
  unfoldable pub add_vaults : String → Answer → Vaults → Vaults
  unfolding vault_row
  add_vaults site a not_configured = not_configured
  add_vaults site a (vaults rows) = vaults (rows ++ map (vault_row site) a.vm_versions)

  unfoldable pub populate_vault_table : String → Answer → Vaults → Vaults
  unfolding add_vaults
  populate_vault_table site a t =
      if equals_number a.ods_status (pos 0) then not_configured else add_vaults site a t

  -- the answers, in the order in which they come, and the sites that they come from
  unfoldable pub fill_backups : Storage → List (String × Answer) → List Row → Option (List Row)
  fill_backups s [] rows = some rows
  fill_backups s ((site, a) ∷ answers) rows = elim (populate_backup_table s site a rows) [
    | none ↦ none
    | some rows' ↦ fill_backups s answers rows'
  ]

  unfoldable pub fill_vaults : List (String × Answer) → Vaults → Vaults
  fill_vaults [] t = t
  fill_vaults ((site, a) ∷ answers) t = fill_vaults answers (populate_vault_table site a t)
