-- ===== src/Gfs/Tests.antt =====
-- The theorems at one profile, loaded and saved.
use alike.Base.{
  String, [], ◌∷◌, true, false, ◌||◌, ◌≡◌, refl, ◌==◌, if◌then◌else◌, any, All, show, codes,
}
use alike.Gfs.{GfsForm, Profile, rejected, is_kept, set_gfs_profile, populate_gfs_edit}
use alike.Gfs.Loaded.{versions_of, populate_gfs_edit_lem}
use alike.Gfs.Stored.{stored, args_of, can_be_stored, set_gfs_profile_lem}

abbrev form : GfsForm
form = record {
  gfsid = "0";
  name = codes "Long! term";
  dailies = "10";
  weeklies = "4";
  monthlies = "6";
  yearlies = "0";
  weekly_promote = "1";
  monthly_promote = "1";
  yearly_promote = "1";
  strict = false;
  save_disabled = false;
  del_disabled = true;
  edit_disabled = false;
}

abbrev long_term : Profile
long_term = record {
  gfs_id = 3;
  name = codes "Long term";
  instances =
      record { policy = 1; versions = 7; card = 0 }
      ∷ record { policy = 4; versions = 12; card = 1 }
      ∷ [];
}

abbrev keeps : String → String → String
keeps old new = new

populate_gfs_edit_lem_example :
    ((populate_gfs_edit keeps "success" "" long_term form).0.dailies
      ≡ versions_of (λ n. n == 1) "0" long_term.instances)
    × ((populate_gfs_edit keeps "success" "" long_term form).0.weeklies
        ≡ versions_of (λ n. n == 2) "0" long_term.instances)
    × ((populate_gfs_edit keeps "success" "" long_term form).0.monthlies
        ≡ versions_of (λ n. n == 3 || n == 4) "0" long_term.instances)
    × ((populate_gfs_edit keeps "success" "" long_term form).0.yearlies
        ≡ versions_of (λ n. n == 5) "0" long_term.instances)
    × ((populate_gfs_edit keeps "success" "" long_term form).0.strict
        ≡ any (λ p. p.policy == 4) long_term.instances)
    × ((populate_gfs_edit keeps "success" "" long_term form).0.gfsid ≡ show long_term.gfs_id)
    × ((populate_gfs_edit keeps "success" "" long_term form).0.name ≡ long_term.name)
populate_gfs_edit_lem_example = populate_gfs_edit_lem keeps "success" "" long_term form refl

set_gfs_profile_lem_example :
    (stored (set_gfs_profile (λ c. c == 32) form (rejected "busy")).1
      ≡ (if can_be_stored (λ c. c == 32) form then args_of (λ c. c == 32) form ∷ [] else []))
    × All (λ c. is_kept c ≡ true) (args_of (λ c. c == 32) form).name
    × ((set_gfs_profile (λ c. c == 32) form (rejected "busy")).0 ≡ form)
set_gfs_profile_lem_example = set_gfs_profile_lem (λ c. c == 32) form (rejected "busy")
