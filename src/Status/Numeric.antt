-- ===== src/Status/Numeric.antt =====
-- webui/js/utils.js, `isNumeric`, of a text: what `parseFloat` and `isFinite` make of it. `parseFloat`
-- takes each text that `Number` makes a finite number of, but the blank ones. A text is its codes.
mod Tests
use alike.Base.{
  ℕ, ◌+◌, ◌-◌, ◌*◌, ◌^◌, List, [], ◌∷◌, Bool, true, false, not, ◌&&◌, ◌||◌, Option, some, none, ltb,
  leb, ◌==◌, if◌then◌else◌, any,
}

-- white space and the ends of lines
abbrev pub is_blank : ℕ → Bool
is_blank c =
    (leb 9 c && leb c 13)
    || (leb 8192 c && leb c 8202)
    || any (λ b. b == c) (32 ∷ 160 ∷ 5760 ∷ 8232 ∷ 8233 ∷ 8239 ∷ 8287 ∷ 12288 ∷ 65279 ∷ [])

unfoldable pub skip_blanks : List ℕ → List ℕ
skip_blanks [] = []
skip_blanks (c ∷ s) = let rest = skip_blanks s in if is_blank c then rest else c ∷ s

-- the digits at the beginning, behind a number: the number, how many they are, and what follows
unfoldable pub take_digits : ℕ → ℕ → List ℕ → ℕ × ℕ × List ℕ
take_digits acc n [] = (acc, n, [])
take_digits acc n (c ∷ s) =
    let more = take_digits (acc * 10 + (c - b'0')) (n + 1) s in
    if leb b'0' c && leb c b'9' then more else (acc, n, c ∷ s)

-- `digits * 10 ^ up / 10 ^ down`, with a minus or without
pub record Literal : Type 0 where
  pub is_negative : Bool
  pub digits : ℕ
  pub up : ℕ
  pub down : ℕ

-- only blanks are left
unfoldable pub at_end : List ℕ → Bool
unfolding skip_blanks
at_end s = elim (skip_blanks s) [ [] ↦ true | _ ∷ _ ↦ false ]

unfoldable pub signed : List ℕ → Bool × List ℕ
signed [] = (false, [])
signed (c ∷ s) = if c == b'-' then (true, s) else if c == b'+' then (false, s) else (false, c ∷ s)

unfoldable pub exponent : Bool → ℕ → ℕ → List ℕ → Option Literal
unfolding signed take_digits at_end
exponent minus m k [] = some record { is_negative = minus; digits = m; up = 0; down = k }
exponent minus m k (c ∷ s) =
    if c == b'e' || c == b'E'
    then (let (down, t) = signed s in
        let (x, n, rest) = take_digits 0 0 t in
        if n == 0 || not (at_end rest)
        then none
        else if down
        then some record { is_negative = minus; digits = m; up = 0; down = k + x }
        else some record { is_negative = minus; digits = m; up = x; down = k })
    else if at_end (c ∷ s)
    then some record { is_negative = minus; digits = m; up = 0; down = k }
    else none

unfoldable pub fraction : ℕ → List ℕ → ℕ × ℕ × List ℕ
unfolding take_digits
fraction i [] = (i, 0, [])
fraction i (c ∷ s) = if c == b'.' then take_digits i 0 s else (i, 0, c ∷ s)

unfoldable pub decimal : List ℕ → Option Literal
unfolding signed take_digits fraction exponent
decimal s =
    let (minus, t) = signed s in
    let (i, n, rest) = take_digits 0 0 t in
    let (m, k, left) = fraction i rest in if n + k == 0 then none else exponent minus m k left

-- a digit of one of the bases 2, 8 and 16
unfoldable pub digit_of : ℕ → Option ℕ
digit_of c =
    if leb b'0' c && leb c b'9'
    then some (c - b'0')
    else if leb b'a' c && leb c b'f'
    then some (c - b'a' + 10)
    else if leb b'A' c && leb c b'F'
    then some (c - b'A' + 10)
    else none

-- digits up to the end, at least one of them
unfoldable pub in_base : ℕ → ℕ → ℕ → List ℕ → Option Literal
unfolding digit_of at_end
in_base base acc n [] =
    if n == 0 then none else some record { is_negative = false; digits = acc; up = 0; down = 0 }
in_base base acc n (c ∷ s) = elim (digit_of c) [
  | none ↦
      if at_end (c ∷ s) && not (n == 0)
      then some record { is_negative = false; digits = acc; up = 0; down = 0 }
      else none
  | some d ↦ let more = in_base base (acc * base + d) (n + 1) s in if ltb d base then more else none
]

unfoldable pub prefixed : List ℕ → Option Literal
unfolding in_base decimal
prefixed (z ∷ x ∷ s) =
    if not (z == b'0')
    then decimal (z ∷ x ∷ s)
    else if x == b'x' || x == b'X'
    then in_base 16 0 0 s
    else if x == b'o' || x == b'O'
    then in_base 8 0 0 s
    else if x == b'b' || x == b'B'
    then in_base 2 0 0 s
    else decimal (z ∷ x ∷ s)
prefixed s = decimal s

-- a number from here on is rounded to infinity
abbrev pub too_large : ℕ
too_large = 2 ^ 1024 - 2 ^ 970

unfoldable pub is_finite : Literal → Bool
is_finite l = ltb (l.digits * 10 ^ l.up) (too_large * 10 ^ l.down)

-- more than what is rounded to 0
unfoldable pub is_above_zero : Literal → Bool
is_above_zero l = not l.is_negative && ltb (10 ^ l.down) (2 ^ 1075 * (l.digits * 10 ^ l.up))

unfoldable pub number_in : List ℕ → Option Literal
unfolding skip_blanks prefixed is_finite
number_in s = elim (prefixed (skip_blanks s)) [
  | none ↦ none
  | some l ↦ if is_finite l then some l else none
]

unfoldable pub is_number : List ℕ → Bool
unfolding number_in
is_number s = elim (number_in s) [ none ↦ false | some l ↦ true ]

-- the number is above 0
unfoldable pub is_positive_number : List ℕ → Bool
unfolding number_in is_above_zero
is_positive_number s = elim (number_in s) [ none ↦ false | some l ↦ is_above_zero l ]
