-- ===== src/Explorer/Trail.antt =====
-- Where the parts of the path above the list lead to.
use alike.Base.{
  ℕ, suc, List, [], ◌∷◌, ◌++◌, map, not, ◌≡◌, refl, All, All-append, filter, if◌then◌else◌,
}
use alike.Net.Split.{split, split-Lacks, Lacks}
use alike.Explorer.{slash, is_nil, flr_folder, Folder, crumbs_from, crumbs, shown_path}
use alike.Explorer.Parts.{parts, parts-closed, parts-slash, drop_first-Lacks, drop_last-Lacks}

abbrev pub folder_parts : Folder → List (List ℕ)
folder_parts f = parts (flr_folder f.path f.name)

-- the parts before, put together, if there are any
abbrev pub whole : List ℕ → List (List ℕ)
whole b = if is_nil b then [] else b ∷ []

-- each part after all those before it put together
unfoldable pub merged : List ℕ → List (List ℕ) → List (List (List ℕ))
merged b [] = []
merged b (p ∷ ps) = (whole b ++ p ∷ []) ∷ merged (b ++ p) ps

parts-whole : (b : List ℕ) → Lacks slash b → parts (b ++ slash ∷ []) ≡ whole b
unfolding parts split
parts-whole [] h = refl
parts-whole (c ∷ b) h = parts-slash (c ∷ b) (h, refl)

crumbs_from-merged :
    (i : ℕ) (b : List ℕ) (vals : List (List ℕ))
    → Lacks slash b
    → All (Lacks slash) vals
    → map folder_parts (crumbs_from i b vals) ≡ merged b (filter (λ p. not (is_nil p)) vals)
unfolding crumbs_from merged flr_folder
crumbs_from-merged i b [] h k = refl
crumbs_from-merged i b ([] ∷ vals) h (_, k) = crumbs_from-merged (suc i) b vals h k
crumbs_from-merged i b ((c ∷ v) ∷ vals) h (l, k) =
    rw
      (
        drop_first-Lacks (c ∷ v) l,
        drop_last-Lacks (c ∷ v) l,
        parts-closed (b ++ slash ∷ []) ((c ∷ v) ++ slash ∷ []),
        parts-whole b h,
        parts-slash (c ∷ v) (l, refl),
        crumbs_from-merged (suc i) (b ++ c ∷ v) vals (All-append _ b (c ∷ v) h l) k,
      )
      refl

-- With attributes that are read as they stand, a click on a part of the path above the list does not lead along the path, but to the folder of
-- that part in one whose name is those of all parts before it, put together without slashes; a click
-- on the first part leads to that part.
pub crumbs-merged :
    (relpath : List ℕ) → map folder_parts (crumbs relpath) ≡ merged [] (parts (shown_path relpath))
unfolding crumbs parts
crumbs-merged relpath =
    crumbs_from-merged 0 [] (split slash (shown_path relpath)) tt
      (split-Lacks slash (shown_path relpath))
