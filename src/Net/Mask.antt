-- ===== src/Net/Mask.antt =====
-- Netmasks: what `maskToCIDR` counts, and that it undoes `CIDRToMask`.
pub mod Ones
use mathlib.Core.Option
use alike.Base.{
  ℕ, zero, suc, ◌+◌, ◌-◌, ◌*◌, ◌/◌, ◌%◌, ◌^◌, ◌≤◌, ◌<◌, List, [], ◌∷◌, ◌++◌, map, Bool, true, false,
  ◌&&◌, Option, none, some, ◌≡◌, ◌≢◌, ◌↔◌, refl, ap, ◌∙◌, arith, leb, ltb, ◌==◌, ==_iff,
  if◌then◌else◌, length, replicate, codes, show, parse_decimal, parse_decimal-show, show-IsDigit,
  IsDigit, Option-cases, inl, inr, All,
}
use alike.Net.{
  dot, check_ip, add_part, address_word, to_binary, mask_to_cidr, repeat_to, cidr_to_mask,
}
use alike.Net.Split.{split, join, split-join, Lacks}
use alike.Net.Mask.Ones.{ones, length-split-to_binary, ones_fields}

abbrev pub mask_value : List ℕ → ℕ
mask_value m = address_word (map parse_decimal (split dot m))

-- the three facts of `cidr_to_mask_lem`, as one test
round_trip : ℕ → Bool
round_trip n = elim (cidr_to_mask n) [
  | none ↦ false
  | some m ↦ check_ip m && (mask_to_cidr m == n) && (mask_value m == 2 ^ 32 - 2 ^ (32 - n))
]

all_up_to : ℕ → (ℕ → Bool) → Bool
all_up_to zero p = p 0
all_up_to (suc n) p = p (suc n) && all_up_to n p

all_up_to_sound : (n : ℕ) (p : ℕ → Bool) (x : ℕ) → all_up_to n p ≡ true → x ≤ n → p x ≡ true
unfolding all_up_to
all_up_to_sound zero p zero h le = h
all_up_to_sound zero p (suc x) h le = absurd (omega arith)
all_up_to_sound (suc n) p x h le = ground (arith, all_up_to_sound n p x)

every_length : all_up_to 32 round_trip ≡ true
unfolding all_up_to round_trip cidr_to_mask mask_to_cidr check_ip address_word to_binary show
    parse_decimal split
every_length = refl

round_trip_facts :
    (n : ℕ)
    → round_trip n ≡ true
    → (m : List ℕ) × (cidr_to_mask n ≡ some m)
      × (check_ip m ≡ true)
      × (mask_value m ≡ 2 ^ 32 - 2 ^ (32 - n))
      × (mask_to_cidr m ≡ n)
unfolding round_trip
round_trip_facts n h = elim (Option-cases (cidr_to_mask n)) [
  | inl e ↦ ground arith
  | inr (m, e) ↦ (m, e, ground arith, ground arith, ground arith)
]

-- For a prefix length up to 32 there is a mask. It is a valid address, its value is that many ones
-- followed by zeros, and `maskToCIDR` reads the length back.
pub cidr_to_mask_lem :
    (n : ℕ)
    → n ≤ 32
    → (m : List ℕ) × (cidr_to_mask n ≡ some m)
      × (check_ip m ≡ true)
      × (mask_value m ≡ 2 ^ 32 - 2 ^ (32 - n))
      × (mask_to_cidr m ≡ n)
cidr_to_mask_lem n h = round_trip_facts n (all_up_to_sound 32 round_trip n every_length h)

-- Longer prefixes raise.
cidr_to_mask_raises : (n : ℕ) → 32 < n → cidr_to_mask n ≡ none
unfolding cidr_to_mask
cidr_to_mask_raises n h = ground arith

abbrev pub decimal : ℕ → List ℕ
decimal n = codes (show n)

-- the text of four numbers with dots between them
abbrev pub dotted : ℕ → ℕ → ℕ → ℕ → List ℕ
dotted a b c d = join dot (decimal a ∷ decimal b ∷ decimal c ∷ decimal d ∷ [])

Lacks-of_IsDigit : (s : List ℕ) → All IsDigit s → Lacks dot s
Lacks-of_IsDigit [] h = tt
Lacks-of_IsDigit (c ∷ s) (hc, h) = (omega arith, Lacks-of_IsDigit s h)

decimal-Lacks : (n : ℕ) → Lacks dot (decimal n)
decimal-Lacks n = Lacks-of_IsDigit (decimal n) (show-IsDigit n)

word_of_bytes :
    (a b c d : ℕ)
    → a < 256
    → b < 256
    → c < 256
    → d < 256
    → address_word (some a ∷ some b ∷ some c ∷ some d ∷ [])
      ≡ ((a * 2 ^ 8 + b) * 2 ^ 8 + c) * 2 ^ 8 + d
unfolding address_word
word_of_bytes a b c d p q r s = omega arith

mask_value-dotted :
    (a b c d : ℕ)
    → a < 256
    → b < 256
    → c < 256
    → d < 256
    → mask_value (dotted a b c d) ≡ ((a * 2 ^ 8 + b) * 2 ^ 8 + c) * 2 ^ 8 + d
mask_value-dotted a b c d p q r s =
    rw
      (
        split-join dot (decimal a) (decimal b ∷ decimal c ∷ decimal d ∷ [])
            (decimal-Lacks a, (decimal-Lacks b, (decimal-Lacks c, (decimal-Lacks d, tt)))),
        parse_decimal-show a,
        parse_decimal-show b,
        parse_decimal-show c,
        parse_decimal-show d,
      )
      (word_of_bytes a b c d p q r s)

-- `maskToCIDR` counts the ones of all four bytes, wherever they stand: a mask with a gap is given
-- a length too.
pub mask_to_cidr-dotted :
    (a b c d : ℕ)
    → a < 256
    → b < 256
    → c < 256
    → d < 256
    → mask_to_cidr (dotted a b c d) ≡ ones a + ones b + ones c + ones d
unfolding mask_to_cidr
mask_to_cidr-dotted a b c d p q r s = omega (
  arith,
  length-split-to_binary (mask_value (dotted a b c d)),
  ap ones (mask_value-dotted a b c d p q r s),
  ones_fields 8 ((a * 2 ^ 8 + b) * 2 ^ 8 + c) d (omega arith),
  ones_fields 8 (a * 2 ^ 8 + b) c (omega arith),
  ones_fields 8 a b (omega arith),
)
