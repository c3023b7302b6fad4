-- ===== src/Sync/Shown.antt =====
-- What a page shows of an answer once it is synced.
use alike.Base.{
  String, List, [], ◌∷◌, ◌++◌, Bool, true, false, not, ◌&&◌, ◌≡◌, refl, ap, sym, ◌∙◌, arith, str_eq,
  eq_iff, any, All, map, ◌<>◌,
}
use alike.Sync.{
  Settings, Entry, VmEntries, JobData, Page, find_row, sync_entry, sync_entries, sync_vms,
  sync_joblog,
}
use alike.Sync.Settled.{
  Task, sync_task, IsSettled, find_row-sync_task, sync_task-IsSettled, IsSettled-sync_task, settled,
}

pub sync_all : Settings → List Task → Page → Page
sync_all set [] p = p
sync_all set (t ∷ ts) p = sync_all set ts (sync_task set t p)

abbrev pub entry_tasks : Bool → String → List Entry → List Task
entry_tasks is_vm table es = map (λ e. record { is_vm = is_vm; table = table; entry = e }) es

abbrev pub vm_tasks : List VmEntries → List Task
vm_tasks [] = []
vm_tasks (vme ∷ vmes) = entry_tasks true ("vmd_" <> vme.id) vme.entries ++ vm_tasks vmes

-- the entries of an answer in the order in which they are synced
abbrev pub tasks : JobData → List Task
tasks d = entry_tasks false "joblog-systems" d.system_entries ++ vm_tasks d.vm_entries

abbrev pub names : String → List Task → Bool
names id ts = any (λ t. str_eq t.entry.id id) ts

-- no two entries have one id
abbrev pub are_distinct : List Task → Bool
are_distinct [] = true
are_distinct (t ∷ ts) = not (names t.entry.id ts) && are_distinct ts

sync_all-append :
    (set : Settings) (ts us : List Task) (p : Page)
    → sync_all set (ts ++ us) p ≡ sync_all set us (sync_all set ts p)
unfolding sync_all
sync_all-append set [] us p = refl
sync_all-append set (t ∷ ts) us p = sync_all-append set ts us (sync_task set t p)

sync_all-entries :
    (set : Settings) (is_vm : Bool) (table : String) (es : List Entry) (p : Page)
    → sync_entries set is_vm table es p ≡ sync_all set (entry_tasks is_vm table es) p
unfolding sync_entries sync_all
sync_all-entries set is_vm table [] p = refl
sync_all-entries set is_vm table (e ∷ es) p =
    sync_all-entries set is_vm table es (sync_entry set is_vm table e p)

sync_all-vms :
    (set : Settings) (vmes : List VmEntries) (p : Page)
    → sync_vms set vmes p ≡ sync_all set (vm_tasks vmes) p
unfolding sync_vms sync_all
sync_all-vms set [] p = refl
sync_all-vms set (vme ∷ vmes) p =
    sync_all-vms set vmes (sync_entries set true ("vmd_" <> vme.id) vme.entries p)
    ∙ ap (λ q. sync_all set (vm_tasks vmes) q)
        (sync_all-entries set true ("vmd_" <> vme.id) vme.entries p)
    ∙ sym (sync_all-append set (entry_tasks true ("vmd_" <> vme.id) vme.entries) (vm_tasks vmes) p)

-- the page is that of the entries one by one
sync_joblog-tasks :
    (set : Settings) (d : JobData) (p : Page) → (sync_joblog set d p).0 ≡ sync_all set (tasks d) p
unfolding sync_joblog
sync_joblog-tasks set d p =
    sync_all-vms set d.vm_entries (sync_entries set false "joblog-systems" d.system_entries p)
    ∙ ap (λ q. sync_all set (vm_tasks d.vm_entries) q)
        (sync_all-entries set false "joblog-systems" d.system_entries p)
    ∙ sym (
        sync_all-append set (entry_tasks false "joblog-systems" d.system_entries)
          (vm_tasks d.vm_entries) p)

later-IsSettled :
    (set : Settings) (ts : List Task) (other : Task) (p : Page)
    → names other.entry.id ts ≡ false
    → IsSettled set p other
    → IsSettled set (sync_all set ts p) other
unfolding sync_all
later-IsSettled set [] other p apart h = h
later-IsSettled set (t ∷ ts) other p apart h =
    later-IsSettled set ts other (sync_task set t p) (ground arith) (
      IsSettled-sync_task set t other p
        (λ e. absurd (ground (arith, eq_iff t.entry.id other.entry.id))) h)

sync_all-IsSettled :
    (set : Settings) (ts : List Task) (p : Page)
    → are_distinct ts ≡ true
    → All (IsSettled set (sync_all set ts p)) ts
unfolding sync_all
sync_all-IsSettled set [] p d = tt
sync_all-IsSettled set (t ∷ ts) p d = (
  later-IsSettled set ts t (sync_task set t p) (ground arith) (sync_task-IsSettled set t p),
  sync_all-IsSettled set ts (sync_task set t p) (ground arith),
)

All-settled :
    (set : Settings) (ts : List Task) (p : Page) → All (IsSettled set p) ts → sync_all set ts p ≡ p
unfolding sync_all
All-settled set [] p h = refl
All-settled set (t ∷ ts) p (ht, h) =
    ap (λ q. sync_all set ts q) (settled set t p ht) ∙ All-settled set ts p h

others_stay :
    (set : Settings) (ts : List Task) (p : Page) (id : String)
    → names id ts ≡ false
    → find_row id (sync_all set ts p).rows ≡ find_row id p.rows
unfolding sync_all
others_stay set [] p id apart = refl
others_stay set (t ∷ ts) p id apart =
    others_stay set ts (sync_task set t p) id (ground arith)
    ∙ find_row-sync_task set t p id (λ e. absurd (ground (arith, eq_iff t.entry.id id)))

-- After an answer whose entries have ids of their own: every entry has its row, with the time of
-- the entry or as the entry makes it, unless the page has neither a row nor a table for it; and
-- what stands under any other id is what stood there.
pub sync_joblog-IsSettled :
    (set : Settings) (d : JobData) (p : Page) (other : String)
    → are_distinct (tasks d) ≡ true
    → names other (tasks d) ≡ false
    → All (IsSettled set (sync_joblog set d p).0) (tasks d)
      × (find_row other (sync_joblog set d p).0.rows ≡ find_row other p.rows)
sync_joblog-IsSettled set d p other distinct apart =
    rw (sync_joblog-tasks set d p)
      (sync_all-IsSettled set (tasks d) p distinct, others_stay set (tasks d) p other apart)

-- An answer that comes twice, whose entries have ids of their own, changes the page once.
pub sync_joblog-sync_joblog :
    (set : Settings) (d : JobData) (p : Page)
    → are_distinct (tasks d) ≡ true
    → (sync_joblog set d (sync_joblog set d p).0).0 ≡ (sync_joblog set d p).0
sync_joblog-sync_joblog set d p distinct =
    rw (sync_joblog-tasks set d p, sync_joblog-tasks set d (sync_all set (tasks d) p))
      (All-settled set (tasks d) (sync_all set (tasks d) p)
        (sync_all-IsSettled set (tasks d) p distinct))
