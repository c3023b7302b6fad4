-- ===== src/Pools/Has.antt =====
-- A guid that a site's pools have, or their hosts, is found by the search for a host.
use alike.Base.{
  String, List, [], ◌∷◌, Bool, true, false, ◌||◌, Option, some, none, ◌≡◌, refl, arith, str_eq,
  eq_iff, lookup, Option-cases, Bool-cases, inl, inr,
}
use alike.Storage.{Host, Pool, Storage}
use alike.Pools.{
  Pools, Found, pool_cache, find_host, host_in_pools, host_in_sites, get_host_for_guid,
}
use alike.Pools.Find.{is_found}

abbrev pub hosts : Pool → List (String × Host)
hosts p = elim p.hosts [ none ↦ [] | some l ↦ l ]

-- a pool's own guid, or that of one of its hosts
abbrev pub has_guid : String → Pools → Bool
has_guid uuid [] = false
has_guid uuid ((k, p) ∷ ps) =
    (str_eq k uuid || is_found (find_host uuid (hosts p))) || has_guid uuid ps

pub find_host-here :
    (i : String) (h : Host) (hs : List (String × Host))
    → is_found (find_host h.uuid ((i, h) ∷ hs)) ≡ true
unfolding find_host
find_host-here i h hs = ground (arith, eq_iff h.uuid h.uuid)

pub find_host-later :
    (uuid : String) (h : String × Host) (hs : List (String × Host))
    → is_found (find_host uuid hs) ≡ true
    → is_found (find_host uuid (h ∷ hs)) ≡ true
unfolding find_host
find_host-later uuid h hs there = ground arith

found_stays :
    (uuid : String) (ps : Pools) (found : Option Found)
    → is_found found ≡ true
    → is_found (host_in_pools uuid found ps) ≡ true
unfolding host_in_pools
found_stays uuid [] found h = h
found_stays uuid ((k, p) ∷ ps) found h = found_stays uuid ps _ (ground arith)

found_in_sites :
    (uuid : String) (c : List (String × Pools)) (found : Option Found)
    → is_found found ≡ true
    → is_found (host_in_sites uuid found c) ≡ true
unfolding host_in_sites
found_in_sites uuid [] found h = h
found_in_sites uuid ((i, ps) ∷ rest) found h = elim (Option-cases (lookup uuid ps)) [
  | inl e ↦
      rw (e, host_in_sites, is_found) (found_in_sites uuid rest _ (found_stays uuid ps found h))
  | inr (p, e) ↦ rw (e, host_in_sites, is_found) refl
]

-- a guid that is no key of the pools belongs to a host
host_found :
    (uuid : String) (ps : Pools) (found : Option Found)
    → has_guid uuid ps ≡ true
    → lookup uuid ps ≡ none
    → is_found (host_in_pools uuid found ps) ≡ true
unfolding host_in_pools lookup
host_found uuid [] found h e = absurd (ground arith)
host_found uuid ((k, p) ∷ ps) found h e = elim (Option-cases (find_host uuid (hosts p))) [
  | inr (x, there) ↦ rw there (found_stays uuid ps _ refl)
  | inl away ↦ host_found uuid ps _ (ground arith) (ground arith)
]

site_found :
    (uuid site : String) (c : List (String × Pools)) (ps : Pools) (found : Option Found)
    → lookup site c ≡ some ps
    → has_guid uuid ps ≡ true
    → is_found (host_in_sites uuid found c) ≡ true
unfolding host_in_sites lookup
site_found uuid site [] ps found e h = absurd (ground arith)
site_found uuid site ((i, qs) ∷ rest) ps found e h = elim (Option-cases (lookup uuid qs)) [
  | inr (p, there) ↦ rw (there, host_in_sites, is_found) refl
  | inl away ↦ elim (Bool-cases (str_eq i site)) [
    | inl here ↦
        rw (away, host_in_sites, is_found)
          (found_in_sites uuid rest _ (host_found uuid qs found (ground arith) away))
    | inr other ↦
        rw (away, host_in_sites, is_found) (site_found uuid site rest ps _ (ground arith) h)
  ]
]

pub get_host_for_guid-has_guid :
    (uuid site : String) (s : Storage) (ps : Pools)
    → lookup site (pool_cache s) ≡ some ps
    → has_guid uuid ps ≡ true
    → is_found (get_host_for_guid uuid s) ≡ true
unfolding get_host_for_guid
get_host_for_guid-has_guid uuid site s ps e h = site_found uuid site (pool_cache s) ps none e h
