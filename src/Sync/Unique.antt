-- ===== src/Sync/Unique.antt =====
-- No row is shown twice.
use alike.Base.{
  String, List, [], ◌∷◌, ◌++◌, Bool, true, false, not, ◌&&◌, none, ◌≡◌, refl, arith, str_eq, eq_iff,
  Option-cases, Bool-cases, inl, inr,
}
use alike.Pools.Find.{is_found}
use alike.Sync.{
  Settings, Entry, VmEntries, JobData, Row, Page, find_row, replace_row, append_row, row_of,
  sync_entry, sync_entries, sync_vms, sync_joblog,
}
use alike.Sync.Rows.{find_row-replace_row, find_row-append}

abbrev pub are_unique : List (String × Row) → Bool
are_unique [] = true
are_unique ((t, r) ∷ rows) = not (is_found (find_row r.id rows)) && are_unique rows

unique-append :
    (t : String) (new : Row) (rows : List (String × Row))
    → are_unique rows ≡ true
    → find_row new.id rows ≡ none
    → are_unique (rows ++ (t, new) ∷ []) ≡ true
unfolding find_row
unique-append t new [] u e = refl
unique-append t new ((s, r) ∷ rows) u e = ground (
  arith,
  unique-append t new rows,
  find_row-append r.id t new rows,
  eq_iff r.id new.id,
  eq_iff new.id r.id,
)

unique-replace_row :
    (id : String) (new : Row) (rows : List (String × Row))
    → new.id ≡ id
    → are_unique rows ≡ true
    → are_unique (replace_row id new rows) ≡ true
unfolding find_row replace_row
unique-replace_row id new [] e u = refl
unique-replace_row id new ((s, r) ∷ rows) e u = elim (Bool-cases (str_eq r.id id)) [
  | inl here ↦ ground (arith, eq_iff r.id id)
  | inr there ↦ ground (
    arith,
    unique-replace_row id new rows e,
    find_row-replace_row id r.id new rows e,
    eq_iff r.id id,
    eq_iff id r.id,
  )
]

sync_entry-are_unique :
    (set : Settings) (is_vm : Bool) (table : String) (e : Entry) (p : Page)
    → are_unique p.rows ≡ true
    → are_unique (sync_entry set is_vm table e p).rows ≡ true
unfolding sync_entry append_row row_of
sync_entry-are_unique set is_vm table e p u = elim (Option-cases (find_row e.id p.rows)) [
  | inl missing ↦ ground (arith, unique-append table (row_of set is_vm e) p.rows u missing)
  | inr (r, there) ↦ ground (arith, unique-replace_row e.id (row_of set is_vm e) p.rows refl u)
]

sync_entries-are_unique :
    (set : Settings) (is_vm : Bool) (table : String) (es : List Entry) (p : Page)
    → are_unique p.rows ≡ true
    → are_unique (sync_entries set is_vm table es p).rows ≡ true
unfolding sync_entries
sync_entries-are_unique set is_vm table [] p u = u
sync_entries-are_unique set is_vm table (e ∷ es) p u =
    sync_entries-are_unique set is_vm table es _ (sync_entry-are_unique set is_vm table e p u)

sync_vms-are_unique :
    (set : Settings) (vmes : List VmEntries) (p : Page)
    → are_unique p.rows ≡ true
    → are_unique (sync_vms set vmes p).rows ≡ true
unfolding sync_vms
sync_vms-are_unique set [] p u = u
sync_vms-are_unique set (vme ∷ vmes) p u =
    sync_vms-are_unique set vmes _ (sync_entries-are_unique set true _ vme.entries p u)

-- A page with one row under each id keeps one row under each id, whatever the answer, also one
-- that names an entry twice.
pub sync_joblog-are_unique :
    (set : Settings) (d : JobData) (p : Page)
    → are_unique p.rows ≡ true
    → are_unique (sync_joblog set d p).0.rows ≡ true
unfolding sync_joblog
sync_joblog-are_unique set d p u =
    sync_vms-are_unique set d.vm_entries _
      (sync_entries-are_unique set false "joblog-systems" d.system_entries p u)
