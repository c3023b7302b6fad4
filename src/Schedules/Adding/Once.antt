-- ===== src/Schedules/Adding/Once.antt =====
-- No system is listed twice.
use mathlib.Core.Path.{subst}
use alike.Base.{
  ℕ, String, List, [], ◌∷◌, ◌++◌, Bool, true, false, not, ◌&&◌, ◌||◌, Option, none, ◌≡◌, refl, sym,
  ap, arith, ◌==◌, if◌then◌else◌, str_eq, eq_iff, All, length, Bool-cases, inl, inr,
}
use alike.Schedules.Adding.{
  Item, Inputs, item_of, is_listed, is_zero, skipped, add_items, add_rep_src,
}

abbrev pub are_apart : List Item → Bool
are_apart [] = true
are_apart (t ∷ ts) = not (is_listed t.source.uuid ts) && are_apart ts

is_listed-append :
    (id : String) (items : List Item) (t : Item)
    → is_listed id (items ++ t ∷ []) ≡ (is_listed id items || str_eq t.source.uuid id)
is_listed-append id [] t = ground arith
is_listed-append id (x ∷ xs) t = ground (arith, is_listed-append id xs t)

are_apart-append :
    (items : List Item) (t : Item)
    → are_apart items ≡ true
    → is_listed t.source.uuid items ≡ false
    → are_apart (items ++ t ∷ []) ≡ true
are_apart-append [] t a l = refl
are_apart-append (x ∷ xs) t a l = ground (
  arith,
  are_apart-append xs t,
  is_listed-append x.source.uuid xs t,
  eq_iff t.source.uuid x.source.uuid,
  eq_iff x.source.uuid t.source.uuid,
)

-- a list without a system twice that has every one of the chosen
abbrev pub IsComplete : List (String × String) → List Item → Type 0
IsComplete vs items = (are_apart items ≡ true) × All (λ v. is_listed v.0 items ≡ true) vs

module _ (is_space : ℕ → Bool) (trim : String → String) where
  item_of-uuid :
      (i : Inputs) (ts : Option ℕ) (v : String × String)
      → (item_of is_space trim i ts v).source.uuid ≡ v.0
  unfolding item_of
  item_of-uuid i ts v = refl

  skips :
      (i : Inputs) (ts : Option ℕ) (v : String × String) (vs : List (String × String))
      (items : List Item)
      → is_listed v.0 items ≡ true
      → add_items is_space trim i ts (v ∷ vs) items ≡ (
        (add_items is_space trim i ts vs items).0,
        skipped v.1 ∷ (add_items is_space trim i ts vs items).1,
      )
  unfolding add_items
  skips i ts v vs items there = rw (there, add_items) refl

  adds :
      (i : Inputs) (ts : Option ℕ) (v : String × String) (vs : List (String × String))
      (items : List Item)
      → is_listed v.0 items ≡ false
      → add_items is_space trim i ts (v ∷ vs) items
        ≡ add_items is_space trim i ts vs (items ++ item_of is_space trim i ts v ∷ [])
  unfolding add_items
  adds i ts v vs items away = rw (away, add_items) refl

  no_vms :
      (i : Inputs) (ts : Option ℕ) (items : List Item)
      → add_items is_space trim i ts [] items ≡ (items, [])
  unfolding add_items
  no_vms i ts items = refl

  -- what was listed stays listed
  is_listed-add_items :
      (i : Inputs) (ts : Option ℕ) (vs : List (String × String)) (items : List Item) (id : String)
      → is_listed id items ≡ true
      → is_listed id (add_items is_space trim i ts vs items).0 ≡ true
  is_listed-add_items i ts [] items id h = rw (no_vms i ts items) h
  is_listed-add_items i ts (v ∷ vs) items id h = elim (Bool-cases (is_listed v.0 items)) [
    | inl there ↦ rw (skips i ts v vs items there) (is_listed-add_items i ts vs items id h)
    | inr away ↦ rw (adds i ts v vs items away) (
        is_listed-add_items i ts vs (items ++ item_of is_space trim i ts v ∷ []) id
          (ground (arith, is_listed-append id items (item_of is_space trim i ts v))))
  ]

  add_items-IsComplete :
      (i : Inputs) (ts : Option ℕ) (vs : List (String × String)) (items : List Item)
      → are_apart items ≡ true
      → IsComplete vs (add_items is_space trim i ts vs items).0
  add_items-IsComplete i ts [] items a = (rw (no_vms i ts items) a, tt)
  add_items-IsComplete i ts (v ∷ vs) items a = elim (Bool-cases (is_listed v.0 items)) [
    | inl there ↦
        let (apart, listed) = add_items-IsComplete i ts vs items a in
        subst (λ l. IsComplete (v ∷ vs) l) (sym (ap (λ r. r.0) (skips i ts v vs items there)))
          (apart, (is_listed-add_items i ts vs items v.0 there, listed))
    | inr away ↦
        let t = item_of is_space trim i ts v in
        let e = item_of-uuid i ts v in
        let (apart, listed) =
          add_items-IsComplete i ts vs (items ++ t ∷ []) (are_apart-append items t a (rw e away)) in
        subst (λ l. IsComplete (v ∷ vs) l) (sym (ap (λ r. r.0) (adds i ts v vs items away)))
          (
            apart,
            (
              is_listed-add_items i ts vs (items ++ t ∷ []) v.0
                  (ground (arith, is_listed-append v.0 items t, e, eq_iff t.source.uuid v.0)),
              listed,
            ),
          )
  ]

  none_chosen :
      (i : Inputs) (vs : List (String × String)) (items : List Item)
      → (if length vs == 0 then items else (add_items is_space trim i none vs items).0)
        ≡ (add_items is_space trim i none vs items).0
  none_chosen i [] items = rw (no_vms i none items) refl
  none_chosen i (v ∷ vs) items = ground arith

  add_rep_src-add_items :
      (i : Inputs) (items : List Item)
      → is_zero i.dest_uuid ≡ false
      → (add_rep_src is_space trim i items).0 ≡ (add_items is_space trim i none i.src_vms items).0
  unfolding add_rep_src
  add_rep_src-add_items i items somewhere = ground (arith, none_chosen i i.src_vms items)

  -- Adding systems, with a destination chosen, to a list without a system twice leaves it so, keeps
  -- every system that it has, if any, and lists every system that is chosen.
  pub add_rep_src_lem :
      (i : Inputs) (items : List Item) (id : String)
      → is_zero i.dest_uuid ≡ false
      → are_apart items ≡ true
      → IsComplete i.src_vms (add_rep_src is_space trim i items).0
        × ((not (is_listed id items) || is_listed id (add_rep_src is_space trim i items).0) ≡ true)
  add_rep_src_lem i items id somewhere a =
      subst (λ l. IsComplete i.src_vms l × ((not (is_listed id items) || is_listed id l) ≡ true))
        (sym (add_rep_src-add_items i items somewhere))
        (
          add_items-IsComplete i none i.src_vms items a,
          elim (Bool-cases (is_listed id items)) [
            | inl h ↦ rw (h, is_listed-add_items i none i.src_vms items id h) refl
            | inr h ↦ rw h refl
          ],
        )
