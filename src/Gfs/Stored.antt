-- ===== src/Gfs/Stored.antt =====
-- What is sent for a profile.
use alike.Base.{
  ℕ, String, List, [], ◌∷◌, Bool, true, not, ◌&&◌, ◌≡◌, arith, ◌==◌, if◌then◌else◌, length, filter,
  str_eq, All, Bool-cases, Option-cases, refl, codes, inl, inr, eq_iff,
}
use alike.Status.Value.{str}
use alike.Service.{is_numeric}
use alike.Status.Numeric.{number_in, is_number, is_positive_number}
use alike.Gfs.{
  GfsForm, GfsArgs, Effect, toast, set_profile, delete_profile, get_profile, list_profiles,
  finish_line_load, Settled, fulfilled, rejected, is_kept, trim, clean_name, is_positive, gfs_args,
  set_gfs_profile,
}

abbrev pub stored : List Effect → List GfsArgs
stored [] = []
stored (set_profile a ∷ es) = a ∷ stored es
stored (toast t k l ∷ es) = stored es
stored (delete_profile i ∷ es) = stored es
stored (get_profile i ∷ es) = stored es
stored (list_profiles ∷ es) = stored es
stored (finish_line_load ∷ es) = stored es

filter-All : (P : ℕ → Bool) (l : List ℕ) → All (λ c. P c ≡ true) (filter P l)
filter-All P [] = tt
filter-All P (c ∷ cs) = elim (Bool-cases (P c)) [
  | inl fits ↦ rw fits (fits, filter-All P cs)
  | inr other ↦ rw other (filter-All P cs)
]

-- a number above 0 is a number
positive-is_numeric : (t : String) → is_positive t ≡ true → is_numeric (str t) ≡ true
unfolding is_positive is_numeric is_positive_number is_number
positive-is_numeric t h = elim (Option-cases (number_in (codes t))) [
  | inl e ↦ absurd (ground (arith, e, h))
  | inr (l, e) ↦ rw (is_numeric, is_number, e) refl
]

-- whether a profile is sent
abbrev pub can_be_stored : (ℕ → Bool) → GfsForm → Bool
can_be_stored is_space f =
    not (length (clean_name is_space f.name) == 0)
    && not (str_eq f.dailies "")
    && is_positive f.dailies

-- the profile of the form: its numbers and days as they stand, and its name without other characters
abbrev pub args_of : (ℕ → Bool) → GfsForm → GfsArgs
args_of is_space f = record {
  id = f.gfsid;
  name = filter is_kept (trim is_space f.name);
  daily = f.dailies;
  weekly = f.weeklies;
  monthly = f.monthlies;
  yearly = f.yearlies;
  weekly_day = f.weekly_promote;
  yearly_month = f.yearly_promote;
  monthly_is_end_day = f.monthly_promote;
  strict = if f.strict then "true" else "false";
}

-- A profile is sent exactly if its name keeps a letter, a digit, a dash, an underscore or a space,
-- and its number of days is above 0; the name that is sent has only such characters. The form is
-- left as it is unless the service takes a profile that is sent; then its id is 0, its name is empty
-- and the buttons that save and delete are disabled, and the rest is left as it is.
pub set_gfs_profile_lem :
    (is_space : ℕ → Bool) (f : GfsForm) (w : Settled)
    → (stored (set_gfs_profile is_space f w).1
        ≡ (if can_be_stored is_space f then args_of is_space f ∷ [] else []))
      × All (λ c. is_kept c ≡ true) (args_of is_space f).name
      × ((set_gfs_profile is_space f w).0 ≡ elim w [
        | fulfilled ↦
            if can_be_stored is_space f
            then record f { gfsid = "0"; name = []; save_disabled = true; del_disabled = true }
            else f
        | rejected m ↦ f
      ])
unfolding set_gfs_profile gfs_args clean_name
set_gfs_profile_lem is_space f fulfilled = (
  ground (arith, positive-is_numeric f.dailies, eq_iff f.dailies ""),
  filter-All is_kept (trim is_space f.name),
  ground (arith, positive-is_numeric f.dailies, eq_iff f.dailies ""),
)
set_gfs_profile_lem is_space f (rejected message) = (
  ground (arith, positive-is_numeric f.dailies, eq_iff f.dailies ""),
  filter-All is_kept (trim is_space f.name),
  ground (arith, positive-is_numeric f.dailies, eq_iff f.dailies ""),
)
