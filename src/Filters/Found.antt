-- ===== src/Filters/Found.antt =====
-- Which items a filter leaves.
use alike.Base.{
  ℕ, List, [], ◌∷◌, ◌++◌, map, Bool, true, false, not, ◌&&◌, ◌≡◌, refl, ap, arith, Bool-cases, inl,
  inr, ◌⊎◌, ◌↔◌, All, contains, starts_with,
}
use alike.Filters.{Source, is_found, filter_source, filter_sources, show_item}

-- the text has the pattern somewhere
abbrev pub Occurs : List ℕ → List ℕ → Type 0
Occurs p s = (before : List ℕ) × (after : List ℕ) × (s ≡ before ++ (p ++ after))

starts-prefix : (p s : List ℕ) → starts_with p s ≡ true → (after : List ℕ) × (s ≡ p ++ after)
starts-prefix [] s h = (s, refl)
starts-prefix (p ∷ ps) [] h = cc
starts-prefix (p ∷ ps) (c ∷ s) h =
    let (after, e) = starts-prefix ps s (ground arith) in
    let same : p ≡ c = ground arith in (after, rw same (ap (λ l. c ∷ l) e))

starts-append : (p after : List ℕ) → starts_with p (p ++ after) ≡ true
starts-append [] after = refl
starts-append (p ∷ ps) after = ground (arith, starts-append ps after)

contains-Occurs : (p s : List ℕ) → contains p s ≡ true → Occurs p s
contains-Occurs p [] h = let (after, e) = starts-prefix p [] h in ([], after, e)
contains-Occurs p (c ∷ s) h = elim (Bool-cases (starts_with p (c ∷ s))) [
  | inl first ↦ let (after, e) = starts-prefix p (c ∷ s) first in ([], after, e)
  | inr later ↦
      let (before, after, e) = contains-Occurs p s (ground arith) in
      (c ∷ before, after, ap (λ l. c ∷ l) e)
]

contains-starts : (p s : List ℕ) → starts_with p s ≡ true → contains p s ≡ true
contains-starts p [] h = h
contains-starts p (c ∷ s) h = ground arith

contains-append : (p before after : List ℕ) → contains p (before ++ (p ++ after)) ≡ true
contains-append p [] after = contains-starts p (p ++ after) (starts-append p after)
contains-append p (c ∷ before) after = ground (arith, contains-append p before after)

contains_iff : (p s : List ℕ) → (contains p s ≡ true) ↔ Occurs p s
contains_iff p s =
    (contains-Occurs p s, λ (before, after, e). rw e (contains-append p before after))

abbrev pub key : Source → List ℕ × List ℕ
key i = (i.text, i.uuid)

either : (a b : Bool) → not (not a && not b) ≡ true → (a ≡ true) ⊎ (b ≡ true)
either true b h = inl refl
either false true h = inr refl
either false false h = cc

module _ (upper trim : List ℕ → List ℕ) (s : List ℕ) where
  -- the name of the item or its uuid has what is typed
  abbrev pub IsNamed : Source → Type 0
  IsNamed i = Occurs (upper s) (upper (trim i.text)) ⊎ Occurs (upper s) (upper i.uuid)

  filter_source_iff :
      (i : Source) → ((filter_source upper trim s (show_item i)).shown ≡ true) ↔ IsNamed i
  unfolding filter_source show_item is_found
  filter_source_iff i =
      let by_text = contains_iff (upper s) (upper (trim i.text)) in
      let by_uuid = contains_iff (upper s) (upper i.uuid) in
      (
        λ h. elim (either _ _ (ground (arith, h))) [
          | inl found ↦ inl (by_text.0 found)
          | inr found ↦ inr (by_uuid.0 found)
        ],
        λ h. elim h [ inl o ↦ rw (by_text.1 o) refl | inr o ↦ rw (by_uuid.1 o) (ground arith) ],
      )

  -- Whatever was typed before, an item is shown exactly if what is typed occurs in its text or in its
  -- uuid, upper and lower case aside; and the items keep their order, texts and uuids.
  pub filter_sources_iff :
      (items : List Source)
      → All (λ i. (i.shown ≡ true) ↔ IsNamed i) (filter_sources upper trim s items)
        × (map key (filter_sources upper trim s items) ≡ map key items)
  unfolding filter_sources filter_source show_item
  filter_sources_iff [] = (tt, refl)
  filter_sources_iff (i ∷ items) =
      let (rest, kept) = filter_sources_iff items in
      ((filter_source_iff i, rest), ap (λ l. key i ∷ l) kept)
