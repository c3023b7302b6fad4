-- ===== src/Storage/Prune.antt =====
-- `pruneStorage` keeps the last items.
use alike.Base.{
  ℕ, zero, suc, ◌+◌, ◌-◌, ◌≤◌, String, [], ◌∷◌, ◌≡◌, ◌≢◌, refl, ap, ◌∙◌, arith, length, drop,
  length-drop, leb, remove, eq_iff, All, Bool-cases, inl, inr,
}
use alike.Storage.{Item, Storage, dead_men, remove_all, prune_storage}

abbrev Missing : String → Storage → Type 0
Missing k = All (λ e. e.0 ≢ k)

-- No key stands twice.
abbrev pub HasDistinctKeys : Storage → Type 0
HasDistinctKeys [] = Unit
HasDistinctKeys ((k, v) ∷ s) = Missing k s × HasDistinctKeys s

remove-Missing : (k : String) (s : Storage) → Missing k s → remove k s ≡ s
unfolding remove
remove-Missing k [] h = refl
remove-Missing k ((j, v) ∷ s) (hj, h) = ground (arith, eq_iff j k, remove-Missing k s h)

remove_first : (k : String) (v : Item) (s : Storage) → Missing k s → remove k ((k, v) ∷ s) ≡ s
unfolding remove
remove_first k v s h = ground (arith, eq_iff k k, remove-Missing k s h)

-- The keys are read from position `i` on, whatever stands before it.
dead_men-cons :
    (todo i : ℕ) (e : String × Item) (s : Storage)
    → dead_men todo (suc i) (e ∷ s) ≡ dead_men todo i s
unfolding dead_men
dead_men-cons zero i e s = refl
dead_men-cons (suc todo) i e s = ground (arith, dead_men-cons todo (i + 1) e s)

remove_all-dead_men :
    (todo : ℕ) (s : Storage) → HasDistinctKeys s → remove_all (dead_men todo 0 s) s ≡ drop todo s
unfolding remove_all dead_men
remove_all-dead_men zero s h = refl
remove_all-dead_men (suc todo) [] h = refl
remove_all-dead_men (suc todo) ((k, v) ∷ s) (hk, h) =
    ap (λ ks. remove_all ks (remove k ((k, v) ∷ s))) (dead_men-cons todo 0 (k, v) s)
    ∙ ap (remove_all (dead_men todo 0 s)) (remove_first k v s hk)
    ∙ remove_all-dead_men todo s h

-- If no key stands twice, pruning drops the first items and no other, as many as are over the limit.
pub prune_storage-drop :
    (max : ℕ) (s : Storage)
    → HasDistinctKeys s
    → (prune_storage max s ≡ drop (length s - max) s) × (length (prune_storage max s) ≤ max)
unfolding prune_storage
prune_storage-drop max s h = elim (Bool-cases (leb (length s) max)) [
  | inl few ↦ rw few (ap (λ n. drop n s) {x = 0} {y = length s - max} (ground arith), ground arith)
  | inr many ↦
      rw (many, remove_all-dead_men (length s - max) s h)
        (refl, omega (arith, length-drop (length s - max) s))
]
