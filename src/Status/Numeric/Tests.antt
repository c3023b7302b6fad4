-- ===== src/Status/Numeric/Tests.antt =====
-- Texts that are numeric, and texts that are not.
use alike.Base.{String, List, [], ◌∷◌, map, true, false, ◌≡◌, refl, codes}
use alike.Status.Numeric.{is_number, is_positive_number}

abbrev numeric_texts : List String
numeric_texts = "10" ∷ "2.5" ∷ "1e1" ∷ "0x1F" ∷ " -7 " ∷ ".5" ∷ "5." ∷ []

abbrev other_texts : List String
other_texts = "" ∷ " " ∷ "." ∷ "1e" ∷ "1e309" ∷ "0x" ∷ "-0x1" ∷ "7 days" ∷ "Infinity" ∷ []

numeric_test :
    (map (λ t. is_number (codes t)) numeric_texts
      ≡ true ∷ true ∷ true ∷ true ∷ true ∷ true ∷ true ∷ [])
    × (map (λ t. is_number (codes t)) other_texts
        ≡ false ∷ false ∷ false ∷ false ∷ false ∷ false ∷ false ∷ false ∷ false ∷ [])
unfolding is_number
numeric_test = (refl, refl)

positive_test :
    map (λ t. is_positive_number (codes t)) ("2.5" ∷ "-1" ∷ "0.0" ∷ "1e-400" ∷ [])
    ≡ true ∷ false ∷ false ∷ false ∷ []
unfolding is_positive_number
positive_test = refl
