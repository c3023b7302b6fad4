-- ===== src/Status/Value.antt =====
-- The values that the web service sends for a status or a type, and `Number`.
-- A number is whole; a text that is no run of decimal digits, with a sign before it or none, is
-- NaN (JavaScript also reads fractions, exponents, other bases and outer spaces).
use alike.Base.{
  ℕ, ◌+◌, ◌-◌, String, List, [], ◌∷◌, ℤ, pos, negsuc, int_eq, Bool, true, false, Option, some, none,
  ◌≡◌, refl, ap, arith, codes, show, parse_decimal, parse_decimal-show, str_eq, ◌==◌, if◌then◌else◌,
  ◌<>◌, show-IsDigit, show-ne-nil, IsDigit, ◌∙◌, All, ◌≢◌, codes-append,
}

pub data Value : Type 0 where
  undefined null : Value
  bool : Bool → Value
  num : ℤ → Value
  str : String → Value

negate : ℕ → ℤ
negate n = if n == 0 then pos 0 else negsuc (n - 1)

abbrev signed : Option ℕ → Option ℤ
signed none = none
signed (some n) = some (pos n)

-- the digits behind a minus; a lone minus is NaN
negative : List ℕ → Option ℤ
unfolding negate
negative [] = none
negative (d ∷ s) = elim (parse_decimal (d ∷ s)) [ none ↦ none | some n ↦ some (negate n) ]

parse_number : List ℕ → Option ℤ
unfolding negative
parse_number [] = some (pos 0)
parse_number (c ∷ s) = if c == b'-' then negative s else signed (parse_decimal (c ∷ s))

-- `if(!Number.isInteger(v)){ v = Number(v); }`, where `none` is NaN
unfoldable pub to_number : Value → Option ℤ
unfolding parse_number parse_decimal
to_number undefined = none
to_number null = some (pos 0)
to_number (bool false) = some (pos 0)
to_number (bool true) = some (pos 1)
to_number (num n) = some n
to_number (str s) = parse_number (codes s)

-- `"" + n`
unfoldable pub show_number : Option ℤ → String
unfolding show
show_number none = "NaN"
show_number (some (pos n)) = show n
show_number (some (negsuc n)) = "-" <> show (n + 1)

-- `case label:` of a switch on `n`: neither NaN nor an undefined label is equal to anything
abbrev pub is_case : Option ℤ → Option ℤ → Bool
is_case (some label) (some n) = int_eq label n
is_case _ _ = false

-- `v == n` with a number: null and undefined are equal to no number
unfoldable pub equals_number : Value → ℤ → Bool
equals_number undefined n = false
equals_number null n = false
equals_number v n = is_case (some n) (to_number v)

-- `v == t` with a text: two texts are compared as they stand, else both are numbers
unfoldable pub equals_text : Value → String → Bool
equals_text undefined t = false
equals_text null t = false
equals_text (str s) t = str_eq s t
equals_text v t = is_case (to_number (str t)) (to_number v)

-- `"" + v`
unfoldable pub show_value : Value → String
show_value undefined = "undefined"
show_value null = "null"
show_value (bool true) = "true"
show_value (bool false) = "false"
show_value (num n) = show_number (some n)
show_value (str s) = s

-- the text that stands for a whole number
abbrev pub text_of : ℤ → Value
text_of n = str (show_number (some n))

digits_first :
    (s : List ℕ) (n : ℕ)
    → s ≢ []
    → All IsDigit s
    → parse_decimal s ≡ some n
    → parse_number s ≡ some (pos n)
unfolding parse_number
digits_first [] n e d h = absurd (e refl)
digits_first (c ∷ s) n e (hc, d) h = ground arith

behind_minus :
    (s : List ℕ) (n : ℕ) → s ≢ [] → parse_decimal s ≡ some (n + 1) → negative s ≡ some (negsuc n)
unfolding negative
behind_minus [] n e h = absurd (e refl)
behind_minus (c ∷ s) n e h = ground arith

-- A whole number and its text are the same number to every function that converts its argument.
pub to_number-text_of : (n : ℤ) → to_number (text_of n) ≡ to_number (num n)
unfolding to_number show_number
to_number-text_of (pos n) = digits_first _ n (show-ne-nil n) (show-IsDigit n) (parse_decimal-show n)
to_number-text_of (negsuc n) =
    ap parse_number (codes-append "-" (show (n + 1)))
    ∙ behind_minus _ n (show-ne-nil (n + 1)) (parse_decimal-show (n + 1))
