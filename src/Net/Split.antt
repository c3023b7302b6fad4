-- ===== src/Net/Split.antt =====
-- `text.split(sep)` and `parts.join(sep)` for a separator of one character.
use alike.Base.{
  ℕ, ◌+◌, ◌≤◌, List, [], ◌∷◌, ◌++◌, ◌≡◌, ◌≢◌, refl, arith, ◌==◌, if◌then◌else◌, All, length, true,
  ap, Bool-cases, inl, inr,
}

push : ℕ → List (List ℕ) → List (List ℕ)
push c [] = (c ∷ []) ∷ []
push c (p ∷ ps) = (c ∷ p) ∷ ps

unfoldable pub split : ℕ → List ℕ → List (List ℕ)
unfolding push
split sep [] = [] ∷ []
split sep (c ∷ s) = let rest = split sep s in if c == sep then [] ∷ rest else push c rest

unfoldable pub join : ℕ → List (List ℕ) → List ℕ
join sep [] = []
join sep (p ∷ []) = p
join sep (p ∷ q ∷ ps) = p ++ sep ∷ join sep (q ∷ ps)

split-pos : (sep : ℕ) (s : List ℕ) → 1 ≤ length (split sep s)
unfolding split
split-pos sep [] = omega arith
split-pos sep (c ∷ s) = ground (arith, split-pos sep s, length-push c (split sep s))
  where
    length-push : (c : ℕ) (ps : List (List ℕ)) → 1 ≤ length ps → 1 ≤ length (push c ps)
    length-push c [] h = omega arith
    length-push c (p ∷ ps) h = omega arith

length-push : (c : ℕ) (ps : List (List ℕ)) → 1 ≤ length ps → length (push c ps) ≡ length ps
unfolding push
length-push c [] h = absurd (omega arith)
length-push c (p ∷ ps) h = refl

-- Each separator makes one part more.
pub length-split-cons :
    (sep c : ℕ) (s : List ℕ)
    → length (split sep (c ∷ s))
      ≡ (if c == sep then length (split sep s) + 1 else length (split sep s))
unfolding split
length-split-cons sep c s = ground (arith, split-pos sep s, length-push c (split sep s))

abbrev pub Lacks : ℕ → List ℕ → Type 0
Lacks sep = All (λ c. c ≢ sep)

-- A part up to the separator is split off.
pub split_part : (sep : ℕ) (p s : List ℕ) → Lacks sep p → split sep (p ++ sep ∷ s) ≡ p ∷ split sep s
unfolding split
split_part sep [] s h = ground arith
split_part sep (c ∷ p) s (hc, h) = ground (arith, split_part sep p s h)

pub split_last : (sep : ℕ) (p : List ℕ) → Lacks sep p → split sep p ≡ p ∷ []
unfolding split
split_last sep [] h = refl
split_last sep (c ∷ p) (hc, h) = ground (arith, split_last sep p h)

-- Splitting what was joined gives the parts back.
pub split-join :
    (sep : ℕ) (p : List ℕ) (ps : List (List ℕ))
    → All (Lacks sep) (p ∷ ps)
    → split sep (join sep (p ∷ ps)) ≡ p ∷ ps
unfolding join
split-join sep p [] (h, _) = split_last sep p h
split-join sep p (q ∷ ps) (h, hs) = rw (split_part sep p _ h, split-join sep q ps hs)

push-append : (c : ℕ) (ps qs : List (List ℕ)) → 1 ≤ length ps → push c (ps ++ qs) ≡ push c ps ++ qs
unfolding push
push-append c [] qs h = absurd (omega arith)
push-append c (p ∷ ps) qs h = refl

-- A separator between two texts ends the parts of the first.
pub split-between : (sep : ℕ) (p s : List ℕ) → split sep (p ++ sep ∷ s) ≡ split sep p ++ split sep s
unfolding split
split-between sep [] s = let same : (sep == sep) ≡ true = ground arith in rw same refl
split-between sep (c ∷ p) s = elim (Bool-cases (c == sep)) [
  | inl e ↦ rw e (ap (λ r. [] ∷ r) (split-between sep p s))
  | inr e ↦
      rw (e, split-between sep p s) (push-append c (split sep p) (split sep s) (split-pos sep p))
]

-- The parts have no separator.
pub split-Lacks : (sep : ℕ) (s : List ℕ) → All (Lacks sep) (split sep s)
unfolding split
split-Lacks sep [] = (tt, tt)
split-Lacks sep (c ∷ s) = elim (Bool-cases (c == sep)) [
  | inl e ↦ rw e (tt, split-Lacks sep s)
  | inr e ↦ rw e (Lacks-push (ground arith) (split sep s) (split-Lacks sep s))
]
  where
    Lacks-push : c ≢ sep → (ps : List (List ℕ)) → All (Lacks sep) ps → All (Lacks sep) (push c ps)
    Lacks-push n [] h = ((n, tt), tt)
    Lacks-push n (p ∷ ps) h = ((n, h.0), h.1)
