-- ===== src/Net/Regex.antt =====
-- The part of JavaScript's regular expressions that the address pattern uses, and its matching by
-- backtracking: the rest of the pattern is a function of the rest of the text.
use alike.Base.{ℕ, List, [], ◌∷◌, Bool, true, false, ◌&&◌, ◌||◌, leb, ◌≡◌, ◌⊎◌, inl, inr, refl}

pub data Pattern : Type 0 where
  -- one character between two codes, both included
  range : ℕ → ℕ → Pattern
  alt : Pattern → Pattern → Pattern
  seq : Pattern → Pattern → Pattern
  opt : Pattern → Pattern

abbrev pub in_range : ℕ → ℕ → ℕ → Bool
in_range lo hi c = leb lo c && leb c hi

abbrev pub run : Pattern → (List ℕ → Bool) → List ℕ → Bool
run (range lo hi) k [] = false
run (range lo hi) k (c ∷ s) = in_range lo hi c && k s
run (alt p q) k s = run p k s || run q k s
run (seq p q) k s = run p (run q k) s
run (opt p) k s = run p k s || k s

-- `$`
abbrev pub at_end : List ℕ → Bool
at_end [] = true
at_end (c ∷ s) = false

-- `/^ … $/.test(s)`
unfoldable pub test : Pattern → List ℕ → Bool
test p s = run p at_end s

pub or-cases : (a b : Bool) → (a || b) ≡ true → (a ≡ true) ⊎ (b ≡ true)
or-cases true b h = inl refl
or-cases false b h = inr h
