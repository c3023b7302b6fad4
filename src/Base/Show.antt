-- ===== src/Base/Show.antt =====
-- Numbers as text: `"" + n` for a whole number, and `Number(text)` back.
use Prim.Native.Nat.{ℕ, zero, suc, ◌+◌, ◌-◌, ◌*◌, ◌/◌, ◌%◌, ◌<◌, ◌≤◌}
use Prim.Native.Char.{code}
use Prim.Native.String
use Prim.Native.String.{String}
use mathlib.Core.Path.{◌≡◌, refl, ◌∙◌, ap}
use mathlib.Core.Bool.{Bool, ◌&&◌}
use mathlib.Core.Option.{Option, none, some}
use mathlib.Core.List.{List, [], ◌∷◌, ◌++◌, concat-ne-nil}
use native.Mathlib.Numerals.{add-one}
use native.Mathlib.Omega.{arith}
use text.Mathlib.TextLemmas.{nil-append, cons-append}
use mathlib.Core.Logic.{inl, inr, ◌≢◌}
use alike.Base.Lists.{All, All-append}
use alike.Base.Tests.{leb, ltb, if◌then◌else◌, Bool-cases, ltb→lt}

infixr 65 ◌<>◌
-- text concatenation
abbrev pub ◌<>◌ : String → String → String
s <> t = String.◌++◌ s t

abbrev pub codes : String → List ℕ
codes String.[] = []
codes (String.◌∷◌ c s) = code c ∷ codes s

pub codes-append : (s t : String) → codes (s <> t) ≡ codes s ++ codes t
codes-append String.[] t = rw nil-append
codes-append (String.◌∷◌ c s) t = rw cons-append (ap (◌∷◌ (code c)) (codes-append s t))

-- the digit of a number below ten
abbrev pub digit : ℕ → String
digit zero = "0"
digit (suc zero) = "1"
digit (suc (suc zero)) = "2"
digit (suc (suc (suc zero))) = "3"
digit (suc (suc (suc (suc zero)))) = "4"
digit (suc (suc (suc (suc (suc zero))))) = "5"
digit (suc (suc (suc (suc (suc (suc zero)))))) = "6"
digit (suc (suc (suc (suc (suc (suc (suc zero))))))) = "7"
digit (suc (suc (suc (suc (suc (suc (suc (suc zero)))))))) = "8"
digit (suc (suc (suc (suc (suc (suc (suc (suc (suc n))))))))) = "9"

show_fuel : ℕ → ℕ → String
show_fuel zero n = ""
show_fuel (suc f) n =
    let more = show_fuel f (n / 10) <> digit (n % 10) in if ltb n 10 then digit n else more

-- a number has fewer digits than `n + 1`
unfoldable pub show : ℕ → String
unfolding show_fuel
show n = show_fuel (n + 1) n

is_digit : ℕ → Bool
is_digit c = leb b'0' c && leb c b'9'

scan : ℕ → List ℕ → Option ℕ
scan n [] = some n
scan n (c ∷ cs) = let rest = scan (n * 10 + (c - b'0')) cs in if is_digit c then rest else none

-- the value of a run of decimal digits; the empty text is 0, as in `Number("")`
unfoldable pub parse_decimal : List ℕ → Option ℕ
unfolding scan is_digit
parse_decimal cs = scan 0 cs

digit-code : (d : ℕ) → d < 10 → codes (digit d) ≡ (d + b'0') ∷ []
digit-code zero h = refl
digit-code (suc zero) h = refl
digit-code (suc (suc zero)) h = refl
digit-code (suc (suc (suc zero))) h = refl
digit-code (suc (suc (suc (suc zero)))) h = refl
digit-code (suc (suc (suc (suc (suc zero))))) h = refl
digit-code (suc (suc (suc (suc (suc (suc zero)))))) h = refl
digit-code (suc (suc (suc (suc (suc (suc (suc zero))))))) h = refl
digit-code (suc (suc (suc (suc (suc (suc (suc (suc zero)))))))) h = refl
digit-code (suc (suc (suc (suc (suc (suc (suc (suc (suc zero))))))))) h = refl
digit-code (suc (suc (suc (suc (suc (suc (suc (suc (suc (suc n)))))))))) h = absurd (omega arith)

scan-digit :
    (n d : ℕ) (rest : List ℕ) → d < 10 → scan n ((d + b'0') ∷ rest) ≡ scan (n * 10 + d) rest
unfolding scan is_digit
scan-digit n d rest h = ground arith

scan-nil : (a b : ℕ) → a ≡ b → scan a [] ≡ some b
unfolding scan
scan-nil a b e = ap some e

scan-append : (n m : ℕ) (xs ys : List ℕ) → scan n xs ≡ some m → scan n (xs ++ ys) ≡ scan m ys
unfolding scan is_digit
scan-append n m [] ys h = ground arith
scan-append n m (c ∷ xs) ys h = ground (arith, scan-append (n * 10 + (c - b'0')) m xs ys)

scan-show_fuel : (f n : ℕ) → n < f → scan 0 (codes (show_fuel f n)) ≡ some n
unfolding show_fuel
scan-show_fuel zero n h = elim h [ ]
scan-show_fuel (suc f) n h = elim (Bool-cases (ltb n 10)) [
  | inl small ↦
      rw (small, digit-code n (ltb→lt n 10 small))
        (scan-digit 0 n [] (ltb→lt n 10 small) ∙ scan-nil (0 * 10 + n) n (omega arith))
  | inr large ↦
      rw (large, codes-append, digit-code (n % 10) (omega arith))
        (scan-append 0 (n / 10) _ _ (scan-show_fuel f (n / 10) (ground arith))
          ∙ scan-digit (n / 10) (n % 10) [] (omega arith)
          ∙ scan-nil (n / 10 * 10 + n % 10) n (omega arith))
]

-- A number's text reads back as the number.
pub parse_decimal-show : (n : ℕ) → parse_decimal (codes (show n)) ≡ some n
unfolding show parse_decimal
parse_decimal-show n = scan-show_fuel (n + 1) n (omega arith)

abbrev pub IsDigit : ℕ → Type 0
IsDigit c = (b'0' ≤ c) × (c ≤ b'9')

show_fuel-IsDigit : (f n : ℕ) → All IsDigit (codes (show_fuel f n))
unfolding show_fuel
show_fuel-IsDigit zero n = tt
show_fuel-IsDigit (suc f) n = elim (Bool-cases (ltb n 10)) [
  | inl small ↦
      rw (small, digit-code n (ltb→lt n 10 small)) (let h = ltb→lt n 10 small in omega arith)
  | inr large ↦
      rw (large, codes-append, digit-code (n % 10) (omega arith))
        (All-append IsDigit _ _ (show_fuel-IsDigit f (n / 10)) (omega arith))
]

-- A number's text is all digits.
pub show-IsDigit : (n : ℕ) → All IsDigit (codes (show n))
unfolding show
show-IsDigit n = show_fuel-IsDigit (n + 1) n

show_fuel-ne-nil : (f n : ℕ) → codes (show_fuel (suc f) n) ≢ []
unfolding show_fuel
show_fuel-ne-nil f n = elim (Bool-cases (ltb n 10)) [
  | inl small ↦ rw (small, digit-code n (ltb→lt n 10 small)) (λ e. cc)
  | inr large ↦ rw (large, codes-append, digit-code (n % 10) (omega arith)) (concat-ne-nil _ _)
]

pub show-ne-nil : (n : ℕ) → codes (show n) ≢ []
unfolding show
show-ne-nil n = rw add-one (show_fuel-ne-nil n n)
