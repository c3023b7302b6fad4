-- ===== src/Status/File/Corrupt.antt =====
-- Which file states count as good, and the forms of a power state.
use alike.Base.{
  String, ℤ, pos, negsuc, int_eq_iff, Bool, true, false, some, none, ◌≡◌, ◌↔◌, refl, ap, arith, leb,
  ◌≢◌, [], codes, show, show-ne-nil, ◌<>◌, ◌+◌, codes-append, str_eq, eq_iff,
}
use alike.Status.Value.{
  undefined, null, num, str, to_number, equals_number, equals_text, text_of, to_number-text_of,
  show_number, show_value,
}
use alike.Status.File.{get_file_status, get_power_state}

num_to_number : (n : ℤ) → to_number (num n) ≡ some n
unfolding to_number
num_to_number n = refl

-- -1, -2 and -3 are the corrupt states
abbrev pub is_corrupt : ℤ → Bool
is_corrupt (negsuc n) = leb n 2
is_corrupt (pos n) = false

-- A file's status is corrupt exactly for -1, -2 and -3, validating for 1 and committing for 0; any
-- other number, also one that the enumeration does not have, is good, and so is a status that is
-- missing.
pub get_file_status_lem :
    (n : ℤ)
    → ((get_file_status (num n) ≡ 1) ↔ (is_corrupt n ≡ true))
      × ((get_file_status (num n) ≡ 2) ↔ (n ≡ pos 1))
      × ((get_file_status (num n) ≡ 3) ↔ (n ≡ pos 0))
      × (get_file_status null ≡ 0)
      × (get_file_status undefined ≡ 0)
unfolding get_file_status equals_number to_number
get_file_status_lem (pos n) = ground arith
get_file_status_lem (negsuc n) = ground arith

-- The number's text is the text of another number only if the numbers are the same.
text_eq :
    (n m : ℤ) (t : String)
    → show_number (some m) ≡ t
    → equals_text (text_of n) t ≡ equals_text (num n) t
unfolding equals_text
text_eq n m t e = rw (← e) (
    ground (
      arith,
      to_number-text_of m,
      to_number-text_of n,
      num_to_number m,
      num_to_number n,
      int_eq_iff m n,
      eq_iff (show_number (some n)) (show_number (some m)),
      ap (λ s. to_number (str s)) {x = show_number (some n)} {y = show_number (some m)},
    ))

-- A text that is no number is equal to none.
word_eq :
    (n : ℤ) (t : String)
    → to_number (str t) ≡ none
    → equals_text (text_of n) t ≡ equals_text (num n) t
unfolding equals_text
word_eq n t e = ground (
  arith,
  e,
  to_number-text_of n,
  num_to_number n,
  eq_iff (show_number (some n)) t,
  ap (λ s. to_number (str s)) {x = show_number (some n)} {y = t},
)

not_empty : (t : String) → codes t ≢ [] → str_eq t "" ≡ false
not_empty t h = ground (arith, eq_iff t "", ap codes {x = t} {y = ""})

shown :
    (show_number (some (pos 0)) ≡ "0")
    × (show_number (some (pos 1)) ≡ "1")
    × (show_number (some (pos 2)) ≡ "2")
    × (show_number (some (pos 3)) ≡ "3")
    × (show_number (some (pos 4)) ≡ "4")
    × (show_number (some (pos 6)) ≡ "6")
unfolding show_number show
shown = (refl, refl, refl, refl, refl, refl)

words :
    (to_number (str "halted") ≡ none)
    × (to_number (str "paused") ≡ none)
    × (to_number (str "running") ≡ none)
    × (to_number (str "unknown") ≡ none)
unfolding to_number
words = (refl, refl, refl, refl)

same_text : (n : ℤ) → show_value (text_of n) ≡ show_value (num n)
unfolding show_value
same_text n = refl

-- Only the number 0 is equal to the empty text, and no number's text is.
empty_eq :
    (n : ℤ)
    → (equals_text (num n) "" ≡ equals_text (num n) "0") × (equals_text (text_of n) "" ≡ false)
unfolding equals_text to_number show_number
empty_eq (pos n) = (refl, not_empty (show n) (show-ne-nil n))
empty_eq (negsuc n) = (refl, not_empty ("-" <> show (n + 1)) (rw codes-append (λ e. cc)))

-- A power state is shown alike whether it comes as a number or as the number's text.
pub get_power_state-text_of : (n : ℤ) → get_power_state (text_of n) ≡ get_power_state (num n)
unfolding get_power_state
get_power_state-text_of n = ground (
  arith,
  text_eq n (pos 0) "0" shown.0,
  text_eq n (pos 1) "1" shown.1,
  text_eq n (pos 2) "2" shown.2,
  text_eq n (pos 3) "3" shown.3,
  text_eq n (pos 4) "4" shown.4,
  text_eq n (pos 6) "6" shown.5,
  word_eq n "halted" words.0,
  word_eq n "paused" words.1,
  word_eq n "running" words.2,
  word_eq n "unknown" words.3,
  empty_eq n,
  same_text n,
)
