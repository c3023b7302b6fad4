-- ===== src/Explorer/Tests.antt =====
-- A backup of a host, two folders below the first.
use alike.Base.{none, List, [], ◌∷◌, ◌++◌, map, ◌≡◌, refl, arith, All, codes}
use alike.Explorer.{attribute, is_braced, without_ends, Entry, dir, file, rows}
use alike.Explorer.Parts.{parts}
use alike.Explorer.Rows.{entry_name, IsPlain, target, rows-parts}

abbrev entries : List Entry
entries = dir (codes "c/") ∷ file (codes "d") ∷ dir (codes "e") ∷ []

entries-IsPlain : All IsPlain entries
unfolding without_ends is_braced
entries-IsPlain = (
  (((ground arith, tt), refl), refl, refl),
  ((((ground arith, tt), refl), refl, refl), ((((ground arith, tt), refl), refl, refl), tt)),
)

-- a path and a name with a quote, which is read up to it
quote_test : attribute (λ t. t) (codes "it's") ≡ codes "it"
unfolding attribute
quote_test = refl

rows-parts_example :
    map (λ r. parts (target (λ t. t) (λ t. none) (λ t h. refl) r)) (rows (codes "/12_h/v") entries)
    ≡ map (λ d. parts (codes "/12_h/v") ++ entry_name d ∷ []) entries
rows-parts_example =
    rows-parts (λ t. t) (λ t. none) (λ t h. refl) (codes "/12_h/v") entries refl refl
      entries-IsPlain
