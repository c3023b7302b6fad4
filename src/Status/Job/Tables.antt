-- ===== src/Status/Job/Tables.antt =====
-- The switches against tables from numbers to words.
use alike.Base.{
  ℕ, String, List, [], ◌∷◌, ℤ, pos, Bool, false, Option, some, none, ◌≡◌, ◌↔◌, refl, leb, arith,
  if◌then◌else◌, ◌<>◌,
}
use alike.Status.Value.{Value, num, to_number, show_number, is_case, text_of, to_number-text_of}
use alike.Status.Job.{
  get_status_class, get_status_desc, get_job_type_desc, get_job_type_icon,
  get_job_log_entry_status_desc, get_retention,
}

-- the job types that the console has words for
abbrev pub job_words : (String → String) → List (ℕ × String)
job_words text =
    (0, text "type-back")
    ∷ (1, text "type-rest")
    ∷ (3, text "type-flr")
    ∷ (5, text "type-rep")
    ∷ (8, text "type-vault")
    ∷ (10, text "type-sys")
    ∷ (15, text "type-validate")
    ∷ (16, text "type-vhd")
    ∷ (100, text "type-back")
    ∷ (101, text "type-rest")
    ∷ (200, text "type-vault")
    ∷ (201, "Reverse Vault")
    ∷ []

abbrev pub find : Option ℤ → List (ℕ × String) → Option String
find n [] = none
find n ((k, s) ∷ t) = if is_case (some (pos k)) n then some s else find n t

abbrev pub or_unknown : Option String → String → String
or_unknown none s = s
or_unknown (some w) s = w

-- The words for a job type are those of the table, and for any other number, or for NaN, the
-- number itself: the four cases whose names objects.js leaves out never apply.
pub get_job_type_desc-table :
    (text : String → String) (v : Value)
    → get_job_type_desc text v
      ≡ or_unknown
          (find (to_number v) (job_words text))
          ("Unknown Job Type: " <> show_number (to_number v))
unfolding get_job_type_desc
get_job_type_desc-table text v = ground arith

-- one of the numbers of JobStatus
abbrev pub is_status : Option ℤ → Bool
is_status (some (pos n)) = leb n 8
is_status _ = false

-- Exactly the numbers 0 to 8, in whatever form they come, have words and a class.
pub status_desc-class :
    (text : String → String) (v : Value)
    → ((get_status_desc text v ≡ none) ↔ (is_status (to_number v) ≡ false))
      × ((get_status_class v ≡ none) ↔ (is_status (to_number v) ≡ false))
unfolding get_status_desc get_status_class
status_desc-class text v = ground arith

-- A status or type is shown alike whether it comes as a number or as the number's text.
pub desc_of_text :
    (text : String → String) (n : ℤ)
    → (get_status_desc text (text_of n) ≡ get_status_desc text (num n))
      × (get_status_class (text_of n) ≡ get_status_class (num n))
      × (get_job_type_desc text (text_of n) ≡ get_job_type_desc text (num n))
      × (get_job_type_icon (text_of n) ≡ get_job_type_icon (num n))
      × (get_job_log_entry_status_desc text (text_of n)
          ≡ get_job_log_entry_status_desc text (num n))
      × (get_retention (text_of n) ≡ get_retention (num n))
unfolding get_status_desc get_status_class get_job_type_desc get_job_type_icon
    get_job_log_entry_status_desc get_retention
desc_of_text text n = rw (to_number-text_of n) (refl, refl, refl, refl, refl, refl)
