-- ===== src/Sync/Rows.antt =====
-- Finding, replacing and appending rows.
use alike.Base.{
  String, List, [], ◌∷◌, ◌++◌, some, none, ◌≡◌, refl, arith, str_eq, eq_iff, if◌then◌else◌,
  Bool-cases, inl, inr,
}
use alike.Sync.{Row, find_row, replace_row}

-- replacing a row changes what is found under its id only
pub find_row-replace_row :
    (id other : String) (new : Row) (rows : List (String × Row))
    → new.id ≡ id
    → find_row other (replace_row id new rows) ≡ (
        if str_eq id other
        then elim (find_row id rows) [ none ↦ none | some r ↦ some new ]
        else find_row other rows)
unfolding find_row replace_row
find_row-replace_row id other new [] e = ground arith
find_row-replace_row id other new ((t, r) ∷ rows) e = ground (
  arith,
  find_row-replace_row id other new rows e,
  eq_iff r.id id,
  eq_iff r.id other,
  eq_iff id other,
  eq_iff new.id other,
)

-- appending a row adds what is found under its id only if nothing was
pub find_row-append :
    (other t : String) (new : Row) (rows : List (String × Row))
    → find_row other (rows ++ (t, new) ∷ []) ≡ elim (find_row other rows) [
      | some r ↦ some r
      | none ↦ if str_eq new.id other then some new else none
    ]
unfolding find_row
find_row-append other t new [] = ground arith
find_row-append other t new ((u, r) ∷ rows) = ground (arith, find_row-append other t new rows)

-- a row that is replaced by itself
pub replace_row-find_row :
    (id : String) (r : Row) (rows : List (String × Row))
    → find_row id rows ≡ some r
    → replace_row id r rows ≡ rows
unfolding find_row replace_row
replace_row-find_row id r [] e = refl
replace_row-find_row id r ((t, q) ∷ rows) e = elim (Bool-cases (str_eq q.id id)) [
  | inl here ↦ ground arith
  | inr there ↦ ground (arith, replace_row-find_row id r rows)
]
