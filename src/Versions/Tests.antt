-- ===== src/Versions/Tests.antt =====
-- The answers of one A3 with a version in the vault and one that is not there.
use alike.Base.{ℕ, ◌/◌, ◌%◌, String, List, [], ◌∷◌, pos, some, sym}
use alike.Status.Value.{num}
use alike.Storage.{A3, Storage, a3s}
use alike.Versions.{VmVersion, Answer}

abbrev a3 : A3
a3 = record { id = "1"; guid = "g1"; name = "East" }

abbrev storage : Storage
storage = ("a3Cache", a3s (a3 ∷ [])) ∷ []

abbrev nightly : VmVersion
nightly = record {
  name = "web";
  uuid = "u1";
  timestamp = 1715166300;
  job_id = 7;
  is_offsite = 1;
  is_onsite = 1;
  total_size = some 4096;
  dedup = some 1024;
  processing_time = 60;
  gfs_policy_on = "Daily";
}

abbrev answers : List (String × Answer)
answers =
    (
      "1",
      record {
        vaults = num (pos 0);
        ods_status = num (pos 1);
        vm_versions = nightly ∷ record nightly { timestamp = 1715252700; is_offsite = 0 } ∷ [];
      },
    )
    ∷ []

abbrev clock : ℕ → ℕ × ℕ
clock t = (t / 3600 % 24, t / 60 % 60)

abbrev calendar : ℕ → ℕ × ℕ × ℕ
calendar t = (2024, 5, 8)
