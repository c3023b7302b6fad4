-- ===== src/Status/Enums.antt =====
-- webui/js/objects.js: each enumeration is an object from names to numbers. A name that is not
-- there reads as `undefined`, `none` here.
pub mod Distinct
use alike.Base.{String, List, [], ◌∷◌, ℤ, pos, negsuc}

abbrev pub Enum : Type 0
Enum = List (String × ℤ)

abbrev pub job_type : Enum
job_type =
    ("backup", pos 0)
    ∷ ("restore", pos 1)
    ∷ ("fileRestore", pos 3)
    ∷ ("reserved", pos 4)
    ∷ ("replicate", pos 5)
    ∷ ("offsite", pos 8)
    ∷ ("system", pos 10)
    ∷ ("validateVm", pos 15)
    ∷ ("rawRestoreToFile", pos 16)
    ∷ ("systemHidden", pos 17)
    ∷ []

abbrev pub job_status : Enum
job_status =
    ("pending", pos 0)
    ∷ ("paused", pos 1)
    ∷ ("active", pos 2)
    ∷ ("activeWithErrors", pos 3)
    ∷ ("errored", pos 4)
    ∷ ("cancelled", pos 5)
    ∷ ("complete", pos 6)
    ∷ ("failed", pos 7)
    ∷ ("warning", pos 8)
    ∷ []

abbrev pub snapshot_type : Enum
snapshot_type =
    ("standard", pos 0)
    ∷ ("quiesced", pos 1)
    ∷ ("diskAndMemory", pos 2)
    ∷ ("guestFallback", pos 3)
    ∷ ("noSnapshot", pos 9)
    ∷ []

abbrev pub policy_job_type : Enum
policy_job_type = ("none", pos 0) ∷ ("host", pos 1) ∷ ("name", pos 2) ∷ ("tag", pos 3) ∷ []

abbrev pub vm_state : Enum
vm_state =
    ("Halted", pos 0)
    ∷ ("Paused", pos 1)
    ∷ ("Running", pos 2)
    ∷ ("Suspended", pos 3)
    ∷ ("unknown", pos 4)
    ∷ []

abbrev pub virt_type : Enum
virt_type =
    ("manual", pos 0)
    ∷ ("vmware", pos 1)
    ∷ ("xen", pos 2)
    ∷ ("hyperv", pos 3)
    ∷ ("marathon", pos 4)
    ∷ ("marathonBlockedOps", pos 5)
    ∷ ("physical", pos 10)
    ∷ []

abbrev pub edition_type : Enum
edition_type =
    ("Free", pos 0)
    ∷ ("Standard", pos 1)
    ∷ ("Beta", pos 2)
    ∷ ("DR", pos 3)
    ∷ ("MSP_Standard", pos 4)
    ∷ ("MSP_DR", pos 5)
    ∷ []

abbrev pub flavor_type : Enum
flavor_type =
    ("Commercial", pos 0)
    ∷ ("NFR", pos 1)
    ∷ ("InternalUse", pos 2)
    ∷ ("FileLevel", pos 3)
    ∷ ("Phsyical", pos 10)
    ∷ []

abbrev pub vault_status : Enum
vault_status =
    ("internalUse", negsuc 0)
    ∷ ("committed", pos 1)
    ∷ ("uncommitted", pos 2)
    ∷ ("ambInProcess", pos 3)
    ∷ ("vaultNeedPrints", pos 4)
    ∷ ("vaultSend", pos 5)
    ∷ ("vaultValidate", pos 7)
    ∷ ("vaultComplete", pos 6)
    ∷ ("purgedOnlyOnsite", negsuc 1)
    ∷ ("purgedOnlyOffsite", negsuc 2)
    ∷ []

abbrev pub vm_file_status : Enum
vm_file_status =
    ("vmFileStatusUncommitted", pos 0)
    ∷ ("vmFileStatusCommitted", pos 1)
    ∷ ("vmFileStatusValidatedOnsite", pos 2)
    ∷ ("vmFileStatusValidatedOffsite", pos 3)
    ∷ ("mvFileStatusValidatedBoth", pos 4)
    ∷ ("vmFileStatusCorruptedOnsite", negsuc 0)
    ∷ ("vmFileStatusCorruptedOffsite", negsuc 1)
    ∷ ("vmFileStatusCorruptedBoth", negsuc 2)
    ∷ []

abbrev pub vm_action : Enum
vm_action =
    ("vmActionNone", pos 0)
    ∷ ("vmActionRetainOffsite", pos 1)
    ∷ ("vmActionRetainOnsite", pos 2)
    ∷ ("vmActionRetainAll", pos 3)
    ∷ ("vmActionPurgeOffsite", negsuc 0)
    ∷ ("vmActionPurgeOnsite", negsuc 1)
    ∷ ("vmActionPurgeAll", negsuc 2)
    ∷ []

abbrev pub job_entry_status : Enum
job_entry_status =
    ("ok", pos 0)
    ∷ ("failed", pos 1)
    ∷ ("warning", pos 2)
    ∷ ("active", pos 3)
    ∷ ("trace", pos 4)
    ∷ []

abbrev pub schedule_type : Enum
schedule_type =
    ("daily", pos 0)
    ∷ ("monthly", pos 1)
    ∷ ("solo", pos 2)
    ∷ ("restore", pos 3)
    ∷ ("system", pos 4)
    ∷ []

abbrev pub osv_status : Enum
osv_status =
    ("remoteStatusJavaInstallVersion", negsuc 8)
    ∷ ("errorInvalidStructure", negsuc 7)
    ∷ ("errorBlockSizeMismatch", negsuc 6)
    ∷ ("errorBrokenSync", negsuc 5)
    ∷ ("errorDiskFull", negsuc 4)
    ∷ ("errorInternalError", negsuc 3)
    ∷ ("failedLogin", negsuc 2)
    ∷ ("errorVersionMismatch", negsuc 1)
    ∷ ("errorNoConnection", negsuc 0)
    ∷ ("OkIdle", pos 0)
    ∷ ("OkBaselining", pos 1)
    ∷ ("OkXfer", pos 2)
    ∷ ("OkValidating", pos 3)
    ∷ ("OkComplete", pos 4)
    ∷ ("OkReadOnly", pos 5)
    ∷ ("OkNoPair", pos 6)
    ∷ []

-- all of them, in the file's order
abbrev pub enums : List Enum
enums =
    job_type ∷ job_status ∷ snapshot_type ∷ policy_job_type ∷ vm_state ∷ virt_type ∷ edition_type
    ∷ flavor_type ∷ vault_status ∷ vm_file_status ∷ vm_action ∷ job_entry_status ∷ schedule_type
    ∷ osv_status ∷ []
