-- ===== src/Sync/Settled.antt =====
-- An entry is settled on a page if syncing it changes nothing.
use alike.Base.{
  String, Bool, true, false, some, none, ◌≡◌, ◌≢◌, ◌⊎◌, refl, ap, ◌∙◌, arith, str_eq, eq_iff, any,
  Option-cases, Bool-cases, inl, inr,
}
use alike.Sync.{Settings, Entry, Row, Page, find_row, append_row, needs_update, row_of, sync_entry}
use alike.Sync.Rows.{find_row-replace_row, find_row-append, replace_row-find_row}

-- an entry with whether it is a system's and the table that its row belongs in
pub record Task : Type 0 where
  pub is_vm : Bool
  pub table : String
  pub entry : Entry

abbrev pub sync_task : Settings → Task → Page → Page
sync_task set t p = sync_entry set t.is_vm t.table t.entry p

abbrev pub has_table : String → Page → Bool
has_table table p = any (str_eq table) p.tables

-- The entry has no row, and no table for one; or it has a row, which is up to date or as the
-- entry makes it.
abbrev pub IsSettled : Settings → Page → Task → Type 0
IsSettled set p t =
    ((find_row t.entry.id p.rows ≡ none) × (has_table t.table p ≡ false))
    ⊎ ((r : Row) × (find_row t.entry.id p.rows ≡ some r)
        × ((needs_update r t.entry ≡ false) ⊎ (r ≡ row_of set t.is_vm t.entry)))

pub tables-sync_task :
    (set : Settings) (t : Task) (p : Page) → (sync_task set t p).tables ≡ p.tables
unfolding sync_entry append_row
tables-sync_task set t p = ground arith

row_of-id : (set : Settings) (t : Task) → (row_of set t.is_vm t.entry).id ≡ t.entry.id
unfolding row_of
row_of-id set t = refl

pub find_row-sync_task :
    (set : Settings) (t : Task) (p : Page) (other : String)
    → t.entry.id ≢ other
    → find_row other (sync_task set t p).rows ≡ find_row other p.rows
unfolding sync_entry append_row
find_row-sync_task set t p other apart = ground (
  arith,
  find_row-replace_row t.entry.id other (row_of set t.is_vm t.entry) p.rows (row_of-id set t),
  find_row-append other t.table (row_of set t.is_vm t.entry) p.rows,
  row_of-id set t,
  eq_iff t.entry.id other,
)

appended :
    (set : Settings) (t : Task) (p : Page)
    → find_row t.entry.id p.rows ≡ none
    → has_table t.table p ≡ true
    → find_row t.entry.id (sync_task set t p).rows ≡ some (row_of set t.is_vm t.entry)
unfolding sync_entry append_row
appended set t p missing there = ground (
  arith,
  find_row-append t.entry.id t.table (row_of set t.is_vm t.entry) p.rows,
  row_of-id set t,
  eq_iff t.entry.id t.entry.id,
)

replaced :
    (set : Settings) (t : Task) (p : Page) (r : Row)
    → find_row t.entry.id p.rows ≡ some r
    → needs_update r t.entry ≡ true
    → find_row t.entry.id (sync_task set t p).rows ≡ some (row_of set t.is_vm t.entry)
unfolding sync_entry
replaced set t p r e old = ground (
  arith,
  find_row-replace_row t.entry.id t.entry.id (row_of set t.is_vm t.entry) p.rows (row_of-id set t),
  eq_iff t.entry.id t.entry.id,
)

without_table :
    (set : Settings) (t : Task) (p : Page)
    → find_row t.entry.id p.rows ≡ none
    → has_table t.table p ≡ false
    → sync_task set t p ≡ p
unfolding sync_entry append_row
without_table set t p missing away = rw (missing, away, sync_entry, append_row) refl

up_to_date :
    (set : Settings) (t : Task) (p : Page) (r : Row)
    → find_row t.entry.id p.rows ≡ some r
    → needs_update r t.entry ≡ false
    → sync_task set t p ≡ p
unfolding sync_entry
up_to_date set t p r e current = rw (e, current, sync_entry) refl

pub sync_task-IsSettled :
    (set : Settings) (t : Task) (p : Page) → IsSettled set (sync_task set t p) t
sync_task-IsSettled set t p = elim (Option-cases (find_row t.entry.id p.rows)) [
  | inl missing ↦ elim (Bool-cases (has_table t.table p)) [
    | inl there ↦ inr (row_of set t.is_vm t.entry, appended set t p missing there, inr refl)
    | inr away ↦ rw (without_table set t p missing away) (inl (missing, away))
  ]
  | inr (r, e) ↦ elim (Bool-cases (needs_update r t.entry)) [
    | inl old ↦ inr (row_of set t.is_vm t.entry, replaced set t p r e old, inr refl)
    | inr current ↦ rw (up_to_date set t p r e current) (inr (r, e, inl current))
  ]
]

pub IsSettled-sync_task :
    (set : Settings) (t other : Task) (p : Page)
    → t.entry.id ≢ other.entry.id
    → IsSettled set p other
    → IsSettled set (sync_task set t p) other
IsSettled-sync_task set t other p apart h =
    rw (find_row-sync_task set t p other.entry.id apart, tables-sync_task set t p) h

-- writing the row of the entry again
unchanged :
    (set : Settings) (t : Task) (p : Page) (r : Row)
    → find_row t.entry.id p.rows ≡ some r
    → r ≡ row_of set t.is_vm t.entry
    → sync_task set t p ≡ p
unfolding sync_entry
unchanged set t p r e same = elim (Bool-cases (needs_update r t.entry)) [
  | inl old ↦
      rw (e, old, sync_entry)
        (ap (λ rows. record { tables = p.tables; rows = rows })
          (replace_row-find_row t.entry.id (row_of set t.is_vm t.entry) p.rows
            (e ∙ ap (λ q. some q) same)))
  | inr current ↦ up_to_date set t p r e current
]

pub settled : (set : Settings) (t : Task) (p : Page) → IsSettled set p t → sync_task set t p ≡ p
settled set t p (inl (missing, away)) = without_table set t p missing away
settled set t p (inr (r, e, inl current)) = up_to_date set t p r e current
settled set t p (inr (r, e, inr same)) = unchanged set t p r e same
