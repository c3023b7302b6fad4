-- ===== src/Versions/Named.antt =====
-- Which versions the icons of the tables are for.
use alike.Base.{
  ℕ, String, List, [], ◌∷◌, ◌++◌, map, Bool, some, none, ◌≡◌, refl, ap, sym, ◌∙◌, append_assoc,
  append-nil, arith, ◌==◌, pos, if◌then◌else◌, All, All-append, filter, Bool-cases, inl, inr,
}
use mathlib.Core.List.{map-append}
use alike.Storage.{A3, Storage}
use alike.Pools.{get_a3_from_id}
use alike.Status.Value.{equals_number}
use alike.Actions.{
  Step, show_line_load, finish_line_load, remove_row, request, list_licenses, toast, Version,
}
use alike.Versions.{
  VmVersion, Answer, Place, Vaulting, Row, place_of, vaulting_of, ds_of, add_rows, backup_row,
  populate_backup_table, fill_backups,
}

-- what is listed by the answers: each version by its uuid and time, in the data set 1 where the answer
-- says that it is of vaults, and else 0, at the site of the answer
abbrev pub listed : List (String × Answer) → List Place
listed [] = []
listed ((site, a) ∷ answers) =
    map {A = VmVersion}
      (λ v. record {
        uuid = v.uuid;
        ts = v.timestamp;
        ds = if equals_number a.vaults (pos 1) then 1 else 0;
        site = site;
      })
      a.vm_versions
    ++ listed answers

-- what is listed and not in the vault
abbrev pub is_local : VmVersion → Bool
is_local v = v.is_offsite == 0

abbrev pub unsent : List (String × Answer) → List Vaulting
unsent [] = []
unsent ((site, a) ∷ answers) =
    map {A = VmVersion} (λ v. record { uuid = v.uuid; ts = v.timestamp; site = site })
      (filter is_local a.vm_versions)
    ++ unsent answers

abbrev pub sends : List Row → List Vaulting
sends [] = []
sends (r ∷ rows) = elim r.send [ none ↦ sends rows | some v ↦ v ∷ sends rows ]

abbrev pub IsKnown : Storage → List (String × Answer) → Type 0
IsKnown s answers =
    All (λ (x : String × Answer). (a : A3) × (get_a3_from_id x.0 s ≡ some a)) answers

-- the icons of a row are for one version
abbrev pub IsOne : Row → Type 0
IsOne r = (r.restore ≡ r.trash) × (r.browse ≡ r.trash) × (r.validate ≡ some r.trash)

-- the requests among the steps: the call, what is at the place that it names, and to whom it goes
abbrev pub requests : List (Step Version) → List (String × Place)
requests [] = []
requests (request call v site ∷ steps) =
    (call, record { uuid = v.uuid; ts = v.ts; ds = v.ds; site = site }) ∷ requests steps
requests (show_line_load ∷ steps) = requests steps
requests (finish_line_load ∷ steps) = requests steps
requests (remove_row ∷ steps) = requests steps
requests (list_licenses ∷ steps) = requests steps
requests (toast m t k ∷ steps) = requests steps

add_rows-known :
    (a : A3) (f : A3 → VmVersion → Row) (rows : List Row) (vs : List VmVersion)
    → add_rows (some a) f rows vs ≡ some (rows ++ map (f a) vs)
unfolding add_rows
add_rows-known a f rows [] = ap some (sym (append-nil rows))
add_rows-known a f rows (v ∷ vs) = refl

sends-append : (xs ys : List Row) → sends (xs ++ ys) ≡ sends xs ++ sends ys
sends-append [] ys = refl
sends-append (r ∷ xs) ys = ground (arith, sends-append xs ys)

module _ (local_time : ℕ → ℕ × ℕ) (local_day : ℕ → ℕ × ℕ × ℕ) (twelve : Bool)
    (locale_date : ℕ → String) where
  abbrev row : ℕ → String → A3 → VmVersion → Row
  row = backup_row local_time local_day twelve locale_date

  rows-trash :
      (ds : ℕ) (site : String) (a : A3) (vs : List VmVersion)
      → map (λ (r : Row). r.trash) (map (row ds site a) vs) ≡ map (place_of ds site) vs
  unfolding backup_row place_of
  rows-trash ds site a [] = refl
  rows-trash ds site a (v ∷ vs) = ap (λ l. place_of ds site v ∷ l) (rows-trash ds site a vs)

  rows-sends :
      (ds : ℕ) (site : String) (a : A3) (vs : List VmVersion)
      → sends (map (row ds site a) vs) ≡ map (vaulting_of site) (filter is_local vs)
  unfolding backup_row
  rows-sends ds site a [] = refl
  rows-sends ds site a (v ∷ vs) = elim (Bool-cases (is_local v)) [
    | inl e ↦ rw e (ap (λ l. vaulting_of site v ∷ l) (rows-sends ds site a vs))
    | inr e ↦ rw e (rows-sends ds site a vs)
  ]

  rows-IsOne :
      (ds : ℕ) (site : String) (a : A3) (vs : List VmVersion) → All IsOne (map (row ds site a) vs)
  unfolding backup_row
  rows-IsOne ds site a [] = tt
  rows-IsOne ds site a (v ∷ vs) = ((refl, refl, refl), rows-IsOne ds site a vs)

  added :
      (s : Storage) (site : String) (a : Answer) (a3 : A3) (rows : List Row)
      → get_a3_from_id site s ≡ some a3
      → populate_backup_table local_time local_day twelve locale_date s site a rows
        ≡ some (rows ++ map (row (ds_of a) site a3) a.vm_versions)
  unfolding populate_backup_table
  added s site a a3 rows known =
      rw known (add_rows-known a3 (row (ds_of a) site) rows a.vm_versions)

  filled :
      (s : Storage) (answers : List (String × Answer)) (rows : List Row)
      → IsKnown s answers
      → (new : List Row) × (fill_backups local_time local_day twelve locale_date s answers rows
          ≡ some (rows ++ new))
        × (map (λ (r : Row). r.trash) new ≡ listed answers)
        × (sends new ≡ unsent answers)
        × All IsOne new
  unfolding fill_backups ds_of place_of
  filled s [] rows known = ([], ap some (sym (append-nil rows)), refl, refl, tt)
  filled s ((site, a) ∷ answers) rows ((a3, known), others) =
      let here = map (row (ds_of a) site a3) a.vm_versions in
      let (new, e, places, unsent_, one) = filled s answers (rows ++ here) others in
      (
        here ++ new,
        rw (added s site a a3 rows known, fill_backups) (e ∙ ap some (append_assoc rows here new)),
        map-append (λ (r : Row). r.trash) here new
            ∙ ap (λ l. l ++ map (λ (r : Row). r.trash) new)
                (rows-trash (ds_of a) site a3 a.vm_versions)
            ∙ ap (λ l. map (place_of (ds_of a) site) a.vm_versions ++ l) places,
        sends-append here new
            ∙ ap (λ l. l ++ sends new) (rows-sends (ds_of a) site a3 a.vm_versions)
            ∙ ap (λ l. map (vaulting_of site) (filter is_local a.vm_versions) ++ l) unsent_,
        All-append IsOne here new (rows-IsOne (ds_of a) site a3 a.vm_versions) one,
      )
