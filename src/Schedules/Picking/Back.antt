-- ===== src/Schedules/Picking/Back.antt =====
-- An item that is taken out of an ascending list, appended to it and sorted in stands where it was.
use mathlib.Core.Path.{subst}
use alike.Base.{
  ℕ, zero, suc, List, [], ◌∷◌, ◌++◌, ℤ, int_lt, map, true, false, Option, some, none, ◌≡◌, refl, ap,
  ◌∙◌, Bool-cases, Option-cases, inl, inr, All, All-append, All-mono,
}
use alike.Schedules.Picking.{take_out, insert_by, sort_by}
use alike.Schedules.Picking.Moved.{NoneBefore, IsSorted, int_lt_asym, All-taken}

module _ {A : Type 0} (place : A → ℤ) where
  AllBefore : A → List A → Type 0
  AllBefore x l = All (λ y. int_lt (place x) (place y) ≡ true) l

  -- the places ascend, and no two are equal
  unfoldable pub IsStrict : List A → Type 0
  unfolding AllBefore
  IsStrict [] = Unit
  IsStrict (x ∷ l) = AllBefore x l × IsStrict l

  NoneBefore-AllBefore : (x : A) (l : List A) → AllBefore x l → NoneBefore place x l
  unfolding AllBefore
  NoneBefore-AllBefore x l h = All-mono l (λ y e. int_lt_asym (place x) (place y) e) h

  pub IsStrict-IsSorted : (l : List A) → IsStrict l → IsSorted place l
  unfolding IsStrict
  IsStrict-IsSorted [] s = tt
  IsStrict-IsSorted (x ∷ l) s = (NoneBefore-AllBefore x l s.0, IsStrict-IsSorted l s.1)

  insert_by-NoneBefore : (x : A) (l : List A) → NoneBefore place x l → insert_by place x l ≡ x ∷ l
  unfolding insert_by
  insert_by-NoneBefore x [] h = refl
  insert_by-NoneBefore x (y ∷ l) h = rw h.0 refl

  All-insert_by :
      (P : A → Type 0) (x : A) (l : List A) → P x → All P l → All P (insert_by place x l)
  unfolding insert_by
  All-insert_by P x [] h k = (h, tt)
  All-insert_by P x (y ∷ l) h k = elim (Bool-cases (int_lt (place y) (place x))) [
    | inl e ↦ rw e (k.0, All-insert_by P x l h k.1)
    | inr e ↦ rw e (h, k)
  ]

  All-sort_by : (P : A → Type 0) (l : List A) → All P l → All P (sort_by place l)
  unfolding sort_by
  All-sort_by P [] h = tt
  All-sort_by P (x ∷ l) h = All-insert_by P x (sort_by place l) h.0 (All-sort_by P l h.1)

  -- an item before all others comes first
  sort_by-first :
      (x : A) (l : List A) → IsStrict l → AllBefore x l → sort_by place (l ++ x ∷ []) ≡ x ∷ l
  unfolding IsStrict AllBefore sort_by insert_by
  sort_by-first x [] s h = refl
  sort_by-first x (y ∷ l) s h =
      rw (sort_by-first x l s.1 h.1, h.0)
        (ap (λ r. x ∷ r) (insert_by-NoneBefore y l (NoneBefore-AllBefore y l s.0)))

module _ {A K : Type 0} (place : A → ℤ) (key : A → K) where
  Returns : List A → Option (A × List A) → Type 0
  Returns l none = Unit
  Returns l (some (x, rest)) =
      (y : A)
      → place x ≡ place y
      → key y ≡ key x
      → map key (sort_by place (rest ++ y ∷ [])) ≡ map key l

  take_out-Returns : (l : List A) (i : ℕ) → IsStrict place l → Returns l (take_out l i)
  unfolding take_out Returns IsStrict AllBefore sort_by insert_by
  take_out-Returns [] i s = tt
  take_out-Returns (x ∷ l) zero s = λ y e k.
      ap (map key)
        (sort_by-first place y l s.1 (subst (λ n. All (λ z. int_lt n (place z) ≡ true) l) e s.0))
      ∙ ap (λ w. w ∷ map key l) k
  take_out-Returns (x ∷ l) (suc i) s = elim (Option-cases (take_out l i)) [
    | inl e ↦ rw e tt
    | inr (p, e) ↦
        let none_before = All-taken _ l i e (NoneBefore-AllBefore place x l s.0) in
        rw e λ y h k.
          ap (map key) (
            insert_by-NoneBefore place x (sort_by place (p.1 ++ y ∷ [])) (
              All-sort_by place _ (p.1 ++ y ∷ []) (
                All-append _ p.1 (y ∷ []) none_before.1
                  (subst (λ n. int_lt n (place x) ≡ false) h none_before.0, tt))))
          ∙ ap (λ r. key x ∷ r) (subst (Returns l) e (take_out-Returns l i s.1) y h k)
  ]

  -- an item with the place and the key of the one taken out takes its place again
  pub taken-sort_by :
      (l : List A) (i : ℕ) {x : A} {rest : List A} (y : A)
      → IsStrict place l
      → take_out l i ≡ some (x, rest)
      → place x ≡ place y
      → key y ≡ key x
      → map key (sort_by place (rest ++ y ∷ [])) ≡ map key l
  unfolding Returns
  taken-sort_by l i y s e h k = subst (Returns l) e (take_out-Returns l i s) y h k
