-- ===== src/Status/Enums/Distinct.antt =====
-- No enumeration gives two names one number.
use alike.Base.{
  ℕ, zero, suc, String, List, [], ◌∷◌, ℤ, int_eq, int_eq_iff, Bool, true, false, not, ◌&&◌, some,
  ◌≡◌, refl, arith, get_elem?, lookup, eq_iff, if◌then◌else◌,
}
use alike.Status.Enums.{Enum, enums}

-- the number is given to some name
holds : ℤ → Enum → Bool
holds n [] = false
holds n ((k, m) ∷ e) = if int_eq m n then true else holds n e

distinct : Enum → Bool
unfolding holds
distinct [] = true
distinct ((k, n) ∷ e) = not (holds n e) && distinct e

holds-lookup : (e : Enum) (k : String) (n : ℤ) → lookup k e ≡ some n → holds n e ≡ true
unfolding lookup holds
holds-lookup [] k n h = ground arith
holds-lookup ((j, m) ∷ e) k n h = ground (arith, int_eq_iff m n, holds-lookup e k n)

distinct_sound :
    (e : Enum) (k j : String) (n : ℤ)
    → distinct e ≡ true
    → lookup k e ≡ some n
    → lookup j e ≡ some n
    → k ≡ j
unfolding lookup distinct
distinct_sound [] k j n d h g = ground arith
distinct_sound ((i, m) ∷ e) k j n d h g =
    ground (
      arith,
      distinct_sound e k j n,
      eq_iff i k,
      eq_iff i j,
      holds-lookup e k m,
      holds-lookup e j m,
    )

all_distinct : List Enum → Bool
unfolding distinct
all_distinct [] = true
all_distinct (e ∷ es) = distinct e && all_distinct es

all_distinct_at :
    (es : List Enum) (i : ℕ) (e : Enum)
    → all_distinct es ≡ true
    → get_elem? es i ≡ some e
    → distinct e ≡ true
unfolding all_distinct
all_distinct_at [] i e d h = ground arith
all_distinct_at (x ∷ es) zero e d h = ground arith
all_distinct_at (x ∷ es) (suc i) e d h = all_distinct_at es i e (ground arith) h

-- In each enumeration of objects.js two names with the same number are the same name.
pub enums_distinct :
    (i : ℕ) (e : Enum) (k j : String) (n : ℤ)
    → get_elem? enums i ≡ some e
    → lookup k e ≡ some n
    → lookup j e ≡ some n
    → k ≡ j
enums_distinct i e k j n h = distinct_sound e k j n (all_distinct_at enums i e every h)
  where
    every : all_distinct enums ≡ true
    every = unfold all_distinct in refl
