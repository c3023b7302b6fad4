-- ===== src/Destinations/Offered.antt =====
-- The destinations that are offered can be chosen.
use mathlib.Core.Path.{subst}
use alike.Base.{
  ℕ, String, List, [], ◌∷◌, ◌++◌, pos, int_eq, true, Option, some, none, ◌≡◌, refl, arith, sym,
  eq_iff, lookup, Option-cases, Bool-cases, inl, inr, All, All-append, All-mono,
}
use alike.Storage.{Host, Pool, Storage}
use alike.Pools.{Pools, pool_cache, find_host, get_host_for_guid}
use alike.Pools.Find.{is_found}
use alike.Pools.Has.{has_guid, find_host-here, find_host-later, get_host_for_guid-has_guid}
use alike.Caches.{network_cache, sr_cache}
use alike.Destinations.{
  Choice, host_choices, xen_choices, pool_choices, pools_choices, no_choice,
  populate_quick_restore_items, View, show_srs_for_uuid, show_networks_for_uuid, choose_dest,
}

-- every pool stands under its own guid
abbrev pub IsKeyed : Pools → Type 0
IsKeyed ps = All (λ e. e.0 ≡ e.1.uuid) ps

host_choices-has :
    (l : List (String × Host)) → All (λ c. is_found (find_host c.value l) ≡ true) (host_choices l)
unfolding host_choices
host_choices-has [] = tt
host_choices-has ((i, h) ∷ hs) = (
  find_host-here i h hs,
  All-mono (host_choices hs) (λ c there. find_host-later c.value (i, h) hs there)
      (host_choices-has hs),
)

host_has :
    (k : String) (p : Pool) (ps : Pools) (l : List (String × Host)) (uuid : String)
    → p.hosts ≡ some l
    → is_found (find_host uuid l) ≡ true
    → has_guid uuid ((k, p) ∷ ps) ≡ true
host_has k p ps l uuid e h = rw e (ground arith)

own_has : (k : String) (p : Pool) (ps : Pools) → k ≡ p.uuid → has_guid p.uuid ((k, p) ∷ ps) ≡ true
own_has k p ps e = ground (arith, eq_iff k p.uuid)

xen_choices-has :
    (k : String) (p : Pool) (ps : Pools) (l : List (String × Host))
    → k ≡ p.uuid
    → p.hosts ≡ some l
    → All (λ c. has_guid c.value ((k, p) ∷ ps) ≡ true) (xen_choices p l)
unfolding xen_choices
xen_choices-has k p ps [] e hosts_e = tt
xen_choices-has k p ps ((i, h) ∷ []) e hosts_e =
    (host_has k p ps ((i, h) ∷ []) h.uuid hosts_e (find_host-here i h []), tt)
xen_choices-has k p ps (h ∷ h' ∷ hs) e hosts_e = (
  own_has k p ps e,
  All-mono (host_choices (h ∷ h' ∷ hs))
      (λ c there. host_has k p ps (h ∷ h' ∷ hs) c.value hosts_e there)
      (host_choices-has (h ∷ h' ∷ hs)),
)

-- what holds of the choices, if there is no TypeError
abbrev Chosen : (Choice → Type 0) → Option (List Choice) → Type 0
Chosen P none = Unit
Chosen P (some l) = All P l

pool_choices-xen :
    (p : Pool) (l : List (String × Host))
    → int_eq p.type (pos 0) ≡ true
    → p.hosts ≡ some l
    → pool_choices p ≡ some (xen_choices p l)
unfolding pool_choices
pool_choices-xen p l xen there = rw (xen, there) refl

pool_choices-has :
    (k : String) (p : Pool) (ps : Pools)
    → k ≡ p.uuid
    → Chosen (λ c. has_guid c.value ((k, p) ∷ ps) ≡ true) (pool_choices p)
unfolding pool_choices
pool_choices-has k p ps e = elim (Bool-cases (int_eq p.type (pos 0))) [
  | inl xen ↦ elim (Option-cases p.hosts) [
    | inl missing ↦ rw (xen, missing, pool_choices) tt
    | inr (hs, there) ↦
        subst (λ l. Chosen (λ c. has_guid c.value ((k, p) ∷ ps) ≡ true) l)
          (sym (pool_choices-xen p hs xen there)) (xen_choices-has k p ps hs e there)
  ]
  | inr other ↦ elim (Bool-cases (int_eq p.type (pos 3))) [
    | inl hv ↦ rw (other, hv, pool_choices) (own_has k p ps e, tt)
    | inr skipped ↦ rw (other, skipped, pool_choices) tt
  ]
]

has_guid-later :
    (uuid k : String) (p : Pool) (ps : Pools)
    → has_guid uuid ps ≡ true
    → has_guid uuid ((k, p) ∷ ps) ≡ true
has_guid-later uuid k p ps h = ground arith

pools_choices-has :
    (ps : Pools) → IsKeyed ps → Chosen (λ c. has_guid c.value ps ≡ true) (pools_choices ps)
unfolding pools_choices
pools_choices-has [] keyed = tt
pools_choices-has ((k, p) ∷ ps) (e, keyed) =
    both k p ps (pool_choices p) (pools_choices ps) (pool_choices-has k p ps e)
      (pools_choices-has ps keyed)
  where
    both :
        (k : String) (p : Pool) (ps : Pools) (first rest : Option (List Choice))
        → Chosen (λ c. has_guid c.value ((k, p) ∷ ps) ≡ true) first
        → Chosen (λ c. has_guid c.value ps ≡ true) rest
        → Chosen
            (λ c. has_guid c.value ((k, p) ∷ ps) ≡ true)
            (elim first [
              | none ↦ none
              | some l ↦ elim rest [ none ↦ none | some l' ↦ some (l ++ l') ]
            ])
    both k p ps none rest a b = tt
    both k p ps (some l) none a b = tt
    both k p ps (some l) (some l') a b =
        All-append (λ c. has_guid c.value ((k, p) ∷ ps) ≡ true) l l' a
          (All-mono l' (λ c h. has_guid-later c.value k p ps h) b)

-- the handler for a guid that is found ends without a TypeError
choose_dest-found :
    (pretty : ℕ → String) (s : Storage) (uuid : String) (v : View)
    → is_found (sr_cache s) ≡ true
    → is_found (network_cache s) ≡ true
    → is_found (get_host_for_guid uuid s) ≡ true
    → is_found (choose_dest pretty s uuid v) ≡ true
unfolding choose_dest show_srs_for_uuid show_networks_for_uuid
choose_dest-found pretty s uuid v srs nets found = ground arith

populated :
    (P : Choice → Type 0) (cache : List (String × Pools)) (site : String) (ps : Pools)
    → lookup site cache ≡ some ps
    → P no_choice
    → Chosen P (pools_choices ps)
    → Chosen P (populate_quick_restore_items cache site)
unfolding populate_quick_restore_items
populated P cache site ps there first h = elim (Option-cases (pools_choices ps)) [
  | inl e ↦ rw (there, e, populate_quick_restore_items) tt
  | inr (l, e) ↦ rw (there, e, populate_quick_restore_items) (first, subst (λ o. Chosen P o) e h)
]

no_choice-found :
    (pretty : ℕ → String) (s : Storage) (v : View) → is_found (choose_dest pretty s "0" v) ≡ true
unfolding choose_dest
no_choice-found pretty s v = ground (arith, eq_iff "0" "0")

Chosen-mono :
    (P Q : Choice → Type 0) (o : Option (List Choice))
    → ((c : Choice) → P c → Q c)
    → Chosen P o
    → Chosen Q o
Chosen-mono P Q none f h = tt
Chosen-mono P Q (some l) f h = All-mono l f h

-- Every destination that a site offers, its pools being kept under their own guids and both other
-- caches being there, can be chosen: the handler ends without a TypeError.
pub choose_dest-populate_quick_restore_items :
    (pretty : ℕ → String) (s : Storage) (site : String) (ps : Pools) (l : List Choice)
    → lookup site (pool_cache s) ≡ some ps
    → IsKeyed ps
    → populate_quick_restore_items (pool_cache s) site ≡ some l
    → is_found (sr_cache s) ≡ true
    → is_found (network_cache s) ≡ true
    → All (λ c. (v : View) → is_found (choose_dest pretty s c.value v) ≡ true) l
choose_dest-populate_quick_restore_items pretty s site ps l there keyed offered srs nets =
    let P : Choice → Type 0 = λ c. (v : View) → is_found (choose_dest pretty s c.value v) ≡ true in
    subst (λ o. Chosen P o) offered
      (populated P (pool_cache s) site ps there (no_choice-found pretty s) (
        Chosen-mono (λ c. has_guid c.value ps ≡ true) P (pools_choices ps)
          (λ c h. λ v.
            choose_dest-found pretty s c.value v srs nets
              (get_host_for_guid-has_guid c.value site s ps there h))
          (pools_choices-has ps keyed)))
