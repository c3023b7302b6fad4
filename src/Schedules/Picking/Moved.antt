-- ===== src/Schedules/Picking/Moved.antt =====
-- Taking an item out of a list, and sorting a list by the places of its items.
use mathlib.Core.List.{Perm, perm_append_singleton, perm_middle}
use mathlib.Core.List.Perm
use mathlib.Core.Path.{subst}
use alike.Base.{
  ℕ, zero, suc, List, [], ◌∷◌, ◌++◌, ℤ, pos, negsuc, int_lt, map, true, false, Option, some, none,
  ◌≡◌, arith, Bool-cases, Option-cases, inl, inr, All, All-mono, ◌++◌, map,
}
use alike.Schedules.Picking.{take_out, insert_by, sort_by}

int_lt_trans : (a b c : ℤ) → int_lt b a ≡ false → int_lt c b ≡ false → int_lt c a ≡ false
int_lt_trans (pos a) (pos b) (pos c) h k = ground arith
int_lt_trans (pos a) (pos b) (negsuc c) h k = ground arith
int_lt_trans (pos a) (negsuc b) c h k = ground arith
int_lt_trans (negsuc a) (pos b) (pos c) h k = ground arith
int_lt_trans (negsuc a) (pos b) (negsuc c) h k = ground arith
int_lt_trans (negsuc a) (negsuc b) (pos c) h k = ground arith
int_lt_trans (negsuc a) (negsuc b) (negsuc c) h k = ground arith

pub int_lt_asym : (a b : ℤ) → int_lt a b ≡ true → int_lt b a ≡ false
int_lt_asym (pos a) (pos b) h = ground arith
int_lt_asym (pos a) (negsuc b) h = ground arith
int_lt_asym (negsuc a) (pos b) h = ground arith
int_lt_asym (negsuc a) (negsuc b) h = ground arith

module _ {A : Type 0} where
  -- the item and the others make up the list
  abbrev pub IsTaken : List A → Option (A × List A) → Type 0
  IsTaken l none = Unit
  IsTaken l (some (x, rest)) = Perm l (x ∷ rest)

  pub take_out-IsTaken : (l : List A) (i : ℕ) → IsTaken l (take_out l i)
  unfolding take_out
  take_out-IsTaken [] i = tt
  take_out-IsTaken (y ∷ l) zero = Perm.rfl
  take_out-IsTaken (y ∷ l) (suc i) = elim (Option-cases (take_out l i)) [
    | inl e ↦ rw e tt
    | inr (p, e) ↦ rw e (
        Perm.trans (Perm.cons y (subst (IsTaken l) e (take_out-IsTaken l i))) (Perm.swap p.0 y p.1))
  ]

  pub taken-perm :
      (l : List A) (i : ℕ) {x : A} {rest : List A}
      → take_out l i ≡ some (x, rest)
      → Perm l (x ∷ rest)
  taken-perm l i e = subst (IsTaken l) e (take_out-IsTaken l i)

module _ {A : Type 0} where
  -- what holds of a list holds of what is taken out and of the others
  AllTaken : (P : A → Type 0) → Option (A × List A) → Type 0
  AllTaken P none = Unit
  AllTaken P (some (x, rest)) = P x × All P rest

  All-take_out : (P : A → Type 0) (l : List A) (i : ℕ) → All P l → AllTaken P (take_out l i)
  unfolding take_out AllTaken
  All-take_out P [] i h = tt
  All-take_out P (y ∷ l) zero h = h
  All-take_out P (y ∷ l) (suc i) h = elim (Option-cases (take_out l i)) [
    | inl e ↦ rw e tt
    | inr (p, e) ↦ let k = subst (AllTaken P) e (All-take_out P l i h.1) in rw e (k.0, (h.0, k.1))
  ]

  pub All-taken :
      (P : A → Type 0) (l : List A) (i : ℕ) {x : A} {rest : List A}
      → take_out l i ≡ some (x, rest)
      → All P l
      → P x × All P rest
  unfolding AllTaken
  All-taken P l i e h = subst (AllTaken P) e (All-take_out P l i h)

module _ {A : Type 0} (place : A → ℤ) where
  -- no item stands before `x`
  abbrev pub NoneBefore : A → List A → Type 0
  NoneBefore x l = All (λ y. int_lt (place y) (place x) ≡ false) l

  abbrev pub IsSorted : List A → Type 0
  IsSorted [] = Unit
  IsSorted (x ∷ l) = NoneBefore x l × IsSorted l

  insert_by-perm : (x : A) (l : List A) → Perm (insert_by place x l) (x ∷ l)
  unfolding insert_by
  insert_by-perm x [] = Perm.rfl
  insert_by-perm x (y ∷ l) = elim (Bool-cases (int_lt (place y) (place x))) [
    | inl e ↦ rw e (Perm.trans (Perm.cons y (insert_by-perm x l)) (Perm.swap x y l))
    | inr e ↦ rw e Perm.rfl
  ]

  pub sort_by-perm : (l : List A) → Perm (sort_by place l) l
  unfolding sort_by
  sort_by-perm [] = Perm.rfl
  sort_by-perm (x ∷ l) =
      Perm.trans (insert_by-perm x (sort_by place l)) (Perm.cons x (sort_by-perm l))

  NoneBefore-insert_by :
      (w x : A) (l : List A)
      → int_lt (place x) (place w) ≡ false
      → NoneBefore w l
      → NoneBefore w (insert_by place x l)
  unfolding insert_by
  NoneBefore-insert_by w x [] h k = (h, tt)
  NoneBefore-insert_by w x (y ∷ l) h k = elim (Bool-cases (int_lt (place y) (place x))) [
    | inl e ↦ rw e (k.0, NoneBefore-insert_by w x l h k.1)
    | inr e ↦ rw e (h, k)
  ]

  insert_by-IsSorted : (x : A) (l : List A) → IsSorted l → IsSorted (insert_by place x l)
  unfolding insert_by
  insert_by-IsSorted x [] s = (tt, tt)
  insert_by-IsSorted x (y ∷ l) s = elim (Bool-cases (int_lt (place y) (place x))) [
    | inl e ↦ rw e (
      NoneBefore-insert_by y x l (int_lt_asym (place y) (place x) e) s.0,
      insert_by-IsSorted x l s.1,
    )
    | inr e ↦ rw e ((e, All-mono l (λ z k. int_lt_trans (place x) (place y) (place z) e k) s.0), s)
  ]

  pub sort_by-IsSorted : (l : List A) → IsSorted (sort_by place l)
  unfolding sort_by
  sort_by-IsSorted [] = tt
  sort_by-IsSorted (x ∷ l) = insert_by-IsSorted x (sort_by place l) (sort_by-IsSorted l)

  IsSortedTaken : Option (A × List A) → Type 0
  IsSortedTaken none = Unit
  IsSortedTaken (some (x, rest)) = IsSorted rest

  take_out-IsSorted : (l : List A) (i : ℕ) → IsSorted l → IsSortedTaken (take_out l i)
  unfolding take_out IsSortedTaken
  take_out-IsSorted [] i s = tt
  take_out-IsSorted (y ∷ l) zero s = s.1
  take_out-IsSorted (y ∷ l) (suc i) s = elim (Option-cases (take_out l i)) [
    | inl e ↦ rw e tt
    | inr (p, e) ↦
        rw e ((All-taken _ l i e s.0).1, subst IsSortedTaken e (take_out-IsSorted l i s.1))
  ]

  pub taken-IsSorted :
      (l : List A) (i : ℕ) {x : A} {rest : List A}
      → take_out l i ≡ some (x, rest)
      → IsSorted l
      → IsSorted rest
  unfolding IsSortedTaken
  taken-IsSorted l i e s = subst IsSortedTaken e (take_out-IsSorted l i s)

module _ {A K : Type 0} (key : A → K) where
  -- an item that is taken out and appended to the other list, perhaps changed
  pub moved-perm :
      (l m : List A) (i : ℕ) {x : A} {rest : List A} (y : A)
      → take_out l i ≡ some (x, rest)
      → key y ≡ key x
      → Perm (map key (rest ++ (m ++ y ∷ []))) (map key (l ++ m))
  moved-perm l m i {x} {rest} y e k =
      Perm.trans
        (Perm.map key
          (Perm.trans (Perm.append_left rest (perm_append_singleton y m)) (perm_middle rest m)))
        (Perm.trans (Perm.cons' k (Perm.refl (map key (rest ++ m))))
          (Perm.symm (Perm.map key (Perm.append_right m (taken-perm l i e)))))

  -- an item that is taken out of the second list and sorted into the first
  pub sorted_in-perm :
      (place : A → ℤ) (l m : List A) (i : ℕ) {x : A} {rest : List A} (y : A)
      → take_out m i ≡ some (x, rest)
      → key y ≡ key x
      → Perm (map key (sort_by place (l ++ y ∷ []) ++ rest)) (map key (l ++ m))
  sorted_in-perm place l m i {x} {rest} y e k =
      Perm.trans
        (Perm.map key (
          Perm.append_right rest
            (Perm.trans (sort_by-perm place (l ++ y ∷ [])) (perm_append_singleton y l))))
        (Perm.trans (Perm.cons' k (Perm.refl (map key (l ++ rest)))) (
          Perm.map key
            (Perm.symm (Perm.trans (Perm.append_left l (taken-perm m i e)) (perm_middle l rest)))))
