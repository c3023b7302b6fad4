-- ===== src/Explorer/Parts.antt =====
-- The parts of a path, and how slashes at its end and appended names change them.
use alike.Base.{
  ℕ, List, [], ◌∷◌, ◌++◌, Bool, true, false, not, ◌&&◌, ◌≡◌, refl, sym, ap, ◌∙◌, arith, ◌==◌,
  if◌then◌else◌, filter, Bool-cases, inl, inr, append_assoc, append-nil,
}
use alike.Net.Split.{split, split_last, split-between, Lacks}
use alike.Explorer.{slash, is_nil, ends_with_slash, closed, drop_first, drop_last}

-- the parts that are not empty
unfoldable pub parts : List ℕ → List (List ℕ)
parts path = filter (λ p. not (is_nil p)) (split slash path)

-- a part of its own
abbrev pub Plain : List ℕ → Type 0
Plain p = Lacks slash p × (is_nil p ≡ false)

filter-append :
    {A : Type 0} (f : A → Bool) (l m : List A) → filter f (l ++ m) ≡ filter f l ++ filter f m
filter-append f [] m = refl
filter-append f (x ∷ l) m = elim (Bool-cases (f x)) [
  | inl e ↦ rw e (ap (λ r. x ∷ r) (filter-append f l m))
  | inr e ↦ rw e (filter-append f l m)
]

parts-between : (p s : List ℕ) → parts (p ++ slash ∷ s) ≡ parts p ++ parts s
unfolding parts
parts-between p s =
    ap (filter (λ q. not (is_nil q))) (split-between slash p s)
    ∙ filter-append (λ q. not (is_nil q)) (split slash p) (split slash s)

ends-cons : (c d : ℕ) (s : List ℕ) → ends_with_slash (c ∷ d ∷ s) ≡ ends_with_slash (d ∷ s)
unfolding ends_with_slash
ends-cons c d s = refl

-- a path that ends with a slash, without it
ended : (p : List ℕ) → ends_with_slash p ≡ true → (q : List ℕ) × (p ≡ q ++ slash ∷ [])
unfolding ends_with_slash
ended [] h = absurd (ground arith)
ended (c ∷ []) h = ([], ap (λ d. d ∷ []) (ground arith))
ended (c ∷ d ∷ p) h = let (q, e) = ended (d ∷ p) h in (c ∷ q, ap (λ r. c ∷ r) e)

pub parts-closed : (p s : List ℕ) → parts (closed p ++ s) ≡ parts p ++ parts s
unfolding closed parts split
parts-closed p s = elim (Bool-cases (ends_with_slash p)) [
  | inl e ↦
      let (q, k) = ended p e in
      rw (e, k, append_assoc q (slash ∷ []) s, parts-between q s, parts-between q [])
        (ap (λ r. r ++ parts s) (sym (append-nil (parts q))))
  | inr e ↦ rw (e, append_assoc p (slash ∷ []) s) (parts-between p s)
]

-- slashes at the end make no part
pub parts-closed_nil : (p : List ℕ) → parts (closed p) ≡ parts p
unfolding parts split
parts-closed_nil p =
    ap parts (sym (append-nil (closed p))) ∙ parts-closed p [] ∙ append-nil (parts p)

pub parts-Plain : (p : List ℕ) → Plain p → parts p ≡ p ∷ []
unfolding parts
parts-Plain p (l, n) = rw (split_last slash p l, n) refl

pub parts-slash : (p : List ℕ) → Plain p → parts (p ++ slash ∷ []) ≡ p ∷ []
unfolding parts split
parts-slash p h = parts-between p [] ∙ append-nil (parts p) ∙ parts-Plain p h

pub drop_first-Lacks : (p : List ℕ) → Lacks slash p → drop_first p ≡ p
unfolding drop_first
drop_first-Lacks [] h = refl
drop_first-Lacks (c ∷ p) (n, h) = ground arith

pub drop_last-Lacks : (p : List ℕ) → Lacks slash p → drop_last p ≡ p
unfolding drop_last
drop_last-Lacks [] h = refl
drop_last-Lacks (c ∷ p) (n, h) =
    let other : (c == slash) ≡ false = ground (arith, n) in
    rw (drop_last-Lacks p h, other) (kept (is_nil p))
  where
    kept : (b : Bool) → (if b && false then [] else c ∷ p) ≡ c ∷ p
    kept true = refl
    kept false = refl
