-- ===== src/Net/Mask/Ones.antt =====
-- The number of ones among a number's binary digits.
use native.Mathlib.Nat.{pow-suc}
use alike.Base.{
  ℕ, zero, suc, ◌+◌, ◌*◌, ◌/◌, ◌%◌, ◌^◌, ◌≤◌, ◌<◌, List, [], ◌∷◌, ◌++◌, ◌≡◌, refl, ap, arith, ltb,
  ◌==◌, if◌then◌else◌, length, Bool-cases, inl, inr,
}
use alike.Net.{to_binary, binary_fuel}
use alike.Net.Split.{split, length-split-cons}

ones_fuel : ℕ → ℕ → ℕ
ones_fuel zero n = 0
ones_fuel (suc f) n = let rest = ones_fuel f (n / 2) + n % 2 in if n == 0 then 0 else rest

pub ones : ℕ → ℕ
ones n = ones_fuel n n

enough : (f g n : ℕ) → n ≤ f → n ≤ g → ones_fuel f n ≡ ones_fuel g n
unfolding ones_fuel
enough zero zero n p q = refl
enough zero (suc g) n p q = ground arith
enough (suc f) zero n p q = ground arith
enough (suc f) (suc g) n p q = ground (arith, enough f g (n / 2))

ones_step : (n : ℕ) → ones n ≡ ones (n / 2) + n % 2
unfolding ones ones_fuel
ones_step zero = refl
ones_step (suc n) = ground (arith, enough n (suc n / 2) (suc n / 2))

ones-zero : ones 0 ≡ 0
unfolding ones ones_fuel
ones-zero = refl

ones_cong : (a b : ℕ) → a ≡ b → ones a ≡ ones b
ones_cong a b e = ap ones e

double-pow : (q k : ℕ) → q * 2 ^ suc k ≡ 2 * (q * 2 ^ k)
double-pow q k = omega (arith, ap (λ (t : ℕ). q * t) (pow-suc 2 k))

-- The ones above and below a digit are counted apart.
pub ones_fields : (k q r : ℕ) → r < 2 ^ k → ones (q * 2 ^ k + r) ≡ ones q + ones r
ones_fields zero q r h =
    omega (arith, ones_cong (q * 1 + r) q (omega arith), ones_cong r 0 (omega arith), ones-zero)
ones_fields (suc k) q r h = omega (
  arith,
  ones_step (q * 2 ^ suc k + r),
  ones_cong ((q * 2 ^ suc k + r) / 2) (q * 2 ^ k + r / 2) (omega (arith, double-pow q k)),
  ones_fields k q (r / 2) (omega (arith, pow-suc 2 k)),
  ones_step r,
  double-pow q k,
)

-- A text over two digits has one part more than it has ones.
split_digit :
    (s : List ℕ) (d : ℕ)
    → d < 2
    → length (split b'1' (s ++ (d + b'0') ∷ [])) ≡ length (split b'1' s) + d
split_digit [] d h = unfold split in ground arith
split_digit (c ∷ s) d h = ground (
  arith,
  length-split-cons b'1' c (s ++ (d + b'0') ∷ []),
  length-split-cons b'1' c s,
  split_digit s d,
)

length-split_fuel : (f n : ℕ) → n < f → length (split b'1' (binary_fuel f n)) ≡ ones n + 1
unfolding binary_fuel
length-split_fuel zero n h = elim h [ ]
length-split_fuel (suc f) n h = elim (Bool-cases (ltb n 2)) [
  | inl small ↦
      rw small (unfold split in ground (arith, ones_step n, ones_cong (n / 2) 0, ones-zero))
  | inr large ↦ rw large (
      omega (
        arith,
        split_digit (binary_fuel f (n / 2)) (n % 2) (omega arith),
        length-split_fuel f (n / 2) (ground arith),
        ones_step n,
      ))
]

pub length-split-to_binary : (n : ℕ) → length (split b'1' (to_binary n)) ≡ ones n + 1
unfolding to_binary
length-split-to_binary n = length-split_fuel (n + 1) n (omega arith)
