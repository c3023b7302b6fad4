-- ===== src/Gfs.antt =====
-- The page of the retention profiles: `setGfsProfile` and the handlers of `#gfsList` and `#gfsDel` of
-- webui/js/events.js, `gfsProfileList` and `populateGfsEdit` of webui/js/a3.js. A name is a list of
-- char codes. The parameters are the browser's: which codes are white space, and the value of a
-- `<select>` with a value in which an option is given the attribute `selected`.
pub mod Loaded
pub mod Stored
mod Tests
use alike.Base.{
  codes, ℕ, String, List, [], ◌∷◌, ◌++◌, map, ℤ, pos, negsuc, Bool, true, false, not, ◌&&◌, ◌||◌,
  Option, some, none, ◌==◌, leb, if◌then◌else◌, str_eq, any, length, show, filter, int_eq,
}
use alike.Status.Value.{Value, str, to_number, equals_number}
use alike.Service.{is_numeric}
use alike.Status.Numeric.{is_positive_number}

pub record GfsForm : Type 0 where
  pub gfsid : String
  pub name : List ℕ
  pub dailies : String
  pub weeklies : String
  pub monthlies : String
  pub yearlies : String
  pub weekly_promote : String
  pub monthly_promote : String
  pub yearly_promote : String
  pub strict : Bool
  pub save_disabled : Bool
  pub del_disabled : Bool
  -- the inputs below `.gfsEdit`
  pub edit_disabled : Bool

pub record Instance : Type 0 where
  pub policy : ℕ
  pub versions : ℕ
  pub card : ℕ

pub record Profile : Type 0 where
  pub gfs_id : ℕ
  pub name : List ℕ
  pub instances : List Instance

pub record GfsArgs : Type 0 where
  pub id : String
  pub name : List ℕ
  pub daily : String
  pub weekly : String
  pub monthly : String
  pub yearly : String
  pub weekly_day : String
  pub yearly_month : String
  pub monthly_is_end_day : String
  pub strict : String

pub data Effect : Type 0 where
  toast : String → String → String → Effect
  set_profile : GfsArgs → Effect
  delete_profile : String → Effect
  get_profile : String → Effect
  list_profiles finish_line_load : Effect

-- the answer to "gfsProfile/set", or the exception's message
pub data Settled : Type 0 where
  fulfilled : Settled
  rejected : String → Settled

-- `/[^a-zA-Z0-9-_ ]+/` matches runs of the other codes
unfoldable pub is_kept : ℕ → Bool
is_kept c =
    (leb b'a' c && leb c b'z')
    || (leb b'A' c && leb c b'Z')
    || (leb b'0' c && leb c b'9')
    || c == b'-'
    || c == b'_'
    || c == b' '

drop_spaces : (ℕ → Bool) → List ℕ → List ℕ
drop_spaces is_space [] = []
drop_spaces is_space (c ∷ cs) = if is_space c then drop_spaces is_space cs else c ∷ cs

reverse : List ℕ → List ℕ
reverse [] = []
reverse (c ∷ cs) = reverse cs ++ c ∷ []

-- `trim()`
pub trim : (ℕ → Bool) → List ℕ → List ℕ
unfolding drop_spaces reverse
trim is_space cs = reverse (drop_spaces is_space (reverse (drop_spaces is_space cs)))

unfoldable pub clean_name : (ℕ → Bool) → List ℕ → List ℕ
unfolding is_kept
clean_name is_space cs = filter is_kept (trim is_space cs)

-- `!(d <= 0)` of a text that is numeric
unfoldable pub is_positive : String → Bool
unfolding is_positive_number
is_positive t = is_positive_number (codes t)

unfoldable pub gfs_args : (ℕ → Bool) → GfsForm → GfsArgs
unfolding clean_name
gfs_args is_space f = record {
  id = f.gfsid;
  name = clean_name is_space f.name;
  daily = f.dailies;
  weekly = f.weeklies;
  monthly = f.monthlies;
  yearly = f.yearlies;
  weekly_day = f.weekly_promote;
  yearly_month = f.yearly_promote;
  monthly_is_end_day = f.monthly_promote;
  strict = if f.strict then "true" else "false";
}

saved_message : GfsForm → String
saved_message f =
    if equals_number (str f.gfsid) (pos 0)
    then "GFS Profile added successfully."
    else "GFS Profile updated successfully."

abbrev pub cleared : GfsForm → GfsForm
cleared f = record f { name = []; gfsid = "0" }

-- the numbers stand in their inputs without white space around them
unfoldable pub set_gfs_profile : (ℕ → Bool) → GfsForm → Settled → GfsForm × List Effect
unfolding clean_name is_positive gfs_args saved_message is_numeric
set_gfs_profile is_space f w =
    if length (clean_name is_space f.name) == 0
    then (f, toast "Please provide a GFS Profile Name!" "Missing Profile Info" "warning" ∷ [])
    else if str_eq f.dailies "" || not (is_numeric (str f.dailies)) || not (is_positive f.dailies)
    then (
      f,
      toast "Please provide a valid number of daily backup retention" "Missing Profile Info"
            "warning"
          ∷ [],
    )
    else elim w [
      | fulfilled ↦ (
        record (cleared f) { save_disabled = true; del_disabled = true },
        set_profile (gfs_args is_space f)
            ∷ toast (saved_message f) "Profile saved" "success"
            ∷ list_profiles
            ∷ finish_line_load
            ∷ [],
      )
      | rejected message ↦ (
        f,
        set_profile (gfs_args is_space f)
            ∷ toast message "Failed to Save GFS Profile!" "error"
            ∷ finish_line_load
            ∷ [],
      )
    ]

-- the change of `#gfsList`
unfoldable pub choose_profile : String → GfsForm → GfsForm × List Effect
choose_profile val f =
    if str_eq val "-2"
    then (record f { del_disabled = true; save_disabled = true; edit_disabled = true }, [])
    else if str_eq val "-1"
    then (
      record f {
        gfsid = "0";
        name = [];
        dailies = "10";
        weeklies = "4";
        monthlies = "6";
        yearlies = "0";
        monthly_promote = "1";
        strict = false;
        save_disabled = false;
        del_disabled = true;
        edit_disabled = false;
      },
      [],
    )
    else (
      record (cleared f) { save_disabled = false; del_disabled = false; edit_disabled = false },
      get_profile val ∷ [],
    )

-- the click on `#gfsDel`
unfoldable pub delete_gfs : GfsForm → GfsForm × List Effect
delete_gfs f = (
  record (cleared f) { save_disabled = true; del_disabled = true },
  delete_profile f.gfsid
      ∷ list_profiles
      ∷ toast "GFS Profile has been removed" "Profile deleted" "success"
      ∷ [],
)

-- the options of `#gfsList`, each with its value, if it has one, and text
pub gfs_profile_list : List (ℕ × String) → List (Option String × String)
gfs_profile_list profiles =
    (if length profiles == 0
      then (some "-2", "No GFS Profiles Defined!") ∷ []
      else (some "-2", "Select a profile") ∷ map (λ p. (some (show p.0), p.1)) profiles)
    ++ (none, " _________ ") ∷ (some "-1", " ---Add New Profile---") ∷ []

module _ (select : String → String → String) where
  unfoldable pub add_instance : Instance → GfsForm → GfsForm
  add_instance p f =
      if p.policy == 1
      then record f { dailies = show p.versions }
      else if p.policy == 2
      then record f { weeklies = show p.versions; weekly_promote = show p.card }
      else if p.policy == 4
      then record f {
        monthlies = show p.versions;
        strict = true;
        monthly_promote = select f.monthly_promote (if p.card == 0 then "0" else "1");
      }
      else if p.policy == 5
      then record f { yearlies = show p.versions; yearly_promote = show p.card }
      else if p.policy == 3
      then record f { monthlies = show p.versions; monthly_promote = show p.card }
      else f

  unfoldable pub add_instances : List Instance → GfsForm → GfsForm
  unfolding add_instance
  add_instances [] f = f
  add_instances (p ∷ ps) f = add_instances ps (add_instance p f)

  unfoldable pub load_profile : Profile → GfsForm → GfsForm
  unfolding add_instances
  load_profile d f = add_instances d.instances (record f {
    gfsid = show d.gfs_id;
    name = d.name;
    strict = false;
    dailies = "0";
    weeklies = "0";
    monthlies = "0";
    yearlies = "0";
  })

  -- the answer to "gfsProfile": its result, its message, and the profile
  unfoldable pub populate_gfs_edit : String → String → Profile → GfsForm → GfsForm × List Effect
  unfolding load_profile
  populate_gfs_edit result message d f =
      if str_eq result "error"
      then (f, toast message "GFS Profile Error" "warning" ∷ [])
      else (load_profile d f, [])
