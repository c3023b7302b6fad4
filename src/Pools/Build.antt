-- ===== src/Pools/Build.antt =====
-- When the cache of pools can be built.
use alike.Base.{
  String, List, [], ◌∷◌, pos, int_eq, int_eq_iff, Bool, true, false, ◌||◌, ◌&&◌, Option, some, none,
  ◌≡◌, ◌≢◌, refl, ap, ◌∙◌, arith, eq_iff, lookup, insert, lookup-insert, inl, inr, Option-cases,
  Bool-cases,
}
use alike.Pools.{HostInfo, Pools, add_host, add_hosts, alone, with_host}

-- Two hosts in a row of one pool that is not listed end the building with a TypeError.
pub add_hosts-unlisted :
    (h k : HostInfo) (hs : List HostInfo) (ps : Pools)
    → h.type ≢ pos 10
    → k.type ≢ pos 10
    → h.poolid ≡ k.poolid
    → lookup h.poolid ps ≡ none
    → add_hosts (h ∷ k ∷ hs) ps ≡ none
unfolding add_hosts add_host
add_hosts-unlisted h k hs ps th tk same missing = ground (
  arith,
  int_eq_iff h.type (pos 10),
  int_eq_iff k.type (pos 10),
  lookup-insert h.poolid k.poolid (alone h) ps,
  eq_iff h.poolid k.poolid,
)

-- the pool is there and has hosts of its own, so that it is no host that stands for a pool
abbrev pub has_hosts : Pools → String → Bool
has_hosts ps k = elim (lookup k ps) [
  | none ↦ false
  | some p ↦ elim p.hosts [ none ↦ false | some l ↦ true ]
]

abbrev pub name_at : Pools → String → Option String
name_at ps k = elim (lookup k ps) [ none ↦ none | some p ↦ some p.name ]

-- the host is passed over or belongs to a listed pool
abbrev pub fits : Pools → HostInfo → Bool
fits ps h = int_eq h.type (pos 10) || has_hosts ps h.poolid

abbrev pub all_fit : Pools → List HostInfo → Bool
all_fit ps [] = true
all_fit ps (h ∷ hs) = fits ps h && all_fit ps hs

-- A host that fits is added, and neither what fits nor a name changes.
add_host-fits :
    (h : HostInfo) (ps : Pools)
    → fits ps h ≡ true
    → (ps' : Pools) × (add_host h ps ≡ some ps')
      × ((k : String) → (has_hosts ps' k ≡ has_hosts ps k) × (name_at ps' k ≡ name_at ps k))
unfolding add_host
add_host-fits h ps f = elim (Bool-cases (int_eq h.type (pos 10))) [
  | inl passed ↦ (ps, ground arith, λ k. (refl, refl))
  | inr counted ↦ elim (Option-cases (lookup h.poolid ps)) [
    | inl missing ↦ absurd (ground arith)
    | inr (p, listed) ↦ elim (Option-cases p.hosts) [
      | inl e ↦ absurd (ground arith)
      | inr (l, e) ↦ (
        insert h.poolid (with_host p h l) ps,
        ground arith,
        λ k. (
          ground (
            arith,
            lookup-insert h.poolid k (with_host p h l) ps,
            eq_iff h.poolid k,
            ap (λ j. lookup j ps) {x = h.poolid} {y = k},
          ),
          ground (
            arith,
            lookup-insert h.poolid k (with_host p h l) ps,
            eq_iff h.poolid k,
            ap (λ j. lookup j ps) {x = h.poolid} {y = k},
          ),
        ),
      )
    ]
  ]
]

all_fit_cong :
    (ps ps' : Pools) (hs : List HostInfo)
    → ((k : String) → has_hosts ps' k ≡ has_hosts ps k)
    → all_fit ps' hs ≡ all_fit ps hs
all_fit_cong ps ps' [] same = refl
all_fit_cong ps ps' (h ∷ hs) same = rw (same h.poolid, all_fit_cong ps ps' hs same) refl

-- If every host is passed over or belongs to a pool that is listed, the hosts are all added, and
-- every pool keeps its name.
pub add_hosts_lem :
    (hs : List HostInfo) (ps : Pools) (k : String)
    → all_fit ps hs ≡ true
    → (ps' : Pools) × (add_hosts hs ps ≡ some ps') × (name_at ps' k ≡ name_at ps k)
unfolding add_hosts
add_hosts_lem [] ps k f = (ps, refl, refl)
add_hosts_lem (h ∷ hs) ps k f =
    let (ps', added, same) = add_host-fits h ps (ground arith) in
    let (end, rest, names) =
      add_hosts_lem hs ps' k (all_fit_cong ps ps' hs (λ j. (same j).0) ∙ ground arith) in
    (end, rw (added, add_hosts) rest, names ∙ (same k).1)
