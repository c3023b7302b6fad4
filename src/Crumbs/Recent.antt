-- ===== src/Crumbs/Recent.antt =====
-- The trail has at most three pages, the newest last, and none twice.
use alike.Base.{
  ◌≤◌, String, List, [], ◌∷◌, ◌++◌, Bool, true, false, not, ◌&&◌, ◌||◌, Option, some, none, ◌≡◌,
  refl, ap, arith, ltb, any, length, length-append, length-drop, drop, str_eq, eq_iff, Bool-cases,
  inl, inr,
}
use alike.Crumbs.{without, add_crumb}

abbrev pub holds : String → List String → Bool
holds it l = any (λ c. str_eq c it) l

abbrev pub are_distinct : List String → Bool
are_distinct [] = true
are_distinct (c ∷ l) = not (holds c l) && are_distinct l

abbrev pub last : List String → Option String
last [] = none
last (c ∷ []) = some c
last (c ∷ d ∷ l) = last (d ∷ l)

last-append : (l : List String) (it : String) → last (l ++ it ∷ []) ≡ some it
last-append [] it = refl
last-append (c ∷ []) it = refl
last-append (c ∷ d ∷ l) it = last-append (d ∷ l) it

holds-append :
    (k it : String) (l : List String) → holds k (l ++ it ∷ []) ≡ (holds k l || str_eq it k)
holds-append k it [] = ground arith
holds-append k it (c ∷ l) = ground (arith, holds-append k it l)

distinct-append :
    (l : List String) (it : String)
    → are_distinct l ≡ true
    → holds it l ≡ false
    → are_distinct (l ++ it ∷ []) ≡ true
distinct-append [] it d h = refl
distinct-append (c ∷ l) it d h =
    ground (arith, distinct-append l it, holds-append c it l, eq_iff c it, eq_iff it c)

holds-without :
    (k it : String) (l : List String) → holds k l ≡ false → holds k (without it l) ≡ false
unfolding without
holds-without k it [] h = refl
holds-without k it (c ∷ l) h = ground (arith, holds-without k it l)

without-distinct :
    (it : String) (l : List String)
    → are_distinct l ≡ true
    → (are_distinct (without it l) ≡ true)
      × (holds it (without it l) ≡ false)
      × (length (without it l) ≤ length l)
unfolding without
without-distinct it [] d = (refl, refl, omega arith)
without-distinct it (c ∷ l) d =
    let (rest, gone, fewer) = without-distinct it l (ground arith) in
    elim (Bool-cases (str_eq c it)) [
      | inl same ↦ rw same (
        ground arith,
        ground (arith, eq_iff c it, ap (λ k. holds k l) {x = c} {y = it}),
        omega arith,
      )
      | inr other ↦ rw other (ground (arith, holds-without c it l), ground arith, omega arith)
    ]

-- a list that lost its first page
tail_lem :
    (l : List String) (it : String)
    → are_distinct (l ++ it ∷ []) ≡ true
    → 1 ≤ length l
    → (are_distinct (drop 1 (l ++ it ∷ [])) ≡ true) × (last (drop 1 (l ++ it ∷ [])) ≡ some it)
tail_lem [] it d h = absurd (omega arith)
tail_lem (c ∷ l) it d h = (ground arith, last-append l it)

-- A trail of at most three pages, none twice, is one again after a page is added, and ends with
-- that page.
pub add_crumb_lem :
    (it : String) (crumbs : List String)
    → are_distinct crumbs ≡ true
    → length crumbs ≤ 3
    → (length (add_crumb it crumbs) ≤ 3)
      × (are_distinct (add_crumb it crumbs) ≡ true)
      × (last (add_crumb it crumbs) ≡ some it)
unfolding add_crumb
add_crumb_lem it crumbs d h =
    let rest = without it crumbs in
    let (kept, gone, fewer) = without-distinct it crumbs d in
    let pushed = distinct-append rest it kept gone in
    elim (Bool-cases (ltb 3 (length (rest ++ it ∷ [])))) [
      | inl long ↦
          rw (long, add_crumb)
            (
              omega (arith, length-drop 1 (rest ++ it ∷ []), length-append rest (it ∷ [])),
              (tail_lem rest it pushed (ground (arith, length-append rest (it ∷ [])))).0,
              (tail_lem rest it pushed (ground (arith, length-append rest (it ∷ [])))).1,
            )
      | inr short ↦ rw (short, add_crumb) (ground arith, pushed, last-append rest it)
    ]
