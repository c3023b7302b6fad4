-- ===== src/Pools/Find.antt =====
-- The two searches for a guid find the same guids.
use alike.Base.{
  String, List, [], ◌∷◌, Bool, true, false, Option, some, none, ◌≡◌, refl, arith, lookup,
  Option-cases, inl, inr,
}
use alike.Storage.{Storage}
use alike.Pools.{
  Pools, Found, pool_in_pools, pool_in_sites, host_in_pools, host_in_sites, get_pool_for_guid,
  get_host_for_guid, pool_cache,
}

abbrev pub is_found {ℓ} : {A : Type ℓ} → Option A → Bool
is_found none = false
is_found (some a) = true

in_pools :
    (uuid : String) (ps : Pools) (found : Option String) (found' : Option Found)
    → is_found found ≡ is_found found'
    → is_found (pool_in_pools uuid found ps) ≡ is_found (host_in_pools uuid found' ps)
unfolding pool_in_pools host_in_pools
in_pools uuid [] found found' h = h
in_pools uuid ((x, p) ∷ ps) found found' h = in_pools uuid ps _ _ (ground arith)

in_sites :
    (uuid : String) (c : List (String × Pools)) (found : Option String) (found' : Option Found)
    → is_found found ≡ is_found found'
    → is_found (pool_in_sites uuid found c) ≡ is_found (host_in_sites uuid found' c)
unfolding pool_in_sites host_in_sites
in_sites uuid [] found found' h = h
in_sites uuid ((i, ps) ∷ rest) found found' h = elim (Option-cases (lookup uuid ps)) [
  | inl e ↦
      rw (e, is_found, pool_in_sites, host_in_sites)
        (in_sites uuid rest (pool_in_pools uuid found ps) (host_in_pools uuid found' ps)
          (in_pools uuid ps found found' h))
  | inr (p, e) ↦ rw (e, is_found, pool_in_sites, host_in_sites) refl
]

-- A pool is found for a guid exactly if a pool or host is.
pub get_pool_for_guid-get_host_for_guid :
    (uuid : String) (s : Storage)
    → is_found (get_pool_for_guid uuid s) ≡ is_found (get_host_for_guid uuid s)
unfolding get_pool_for_guid get_host_for_guid
get_pool_for_guid-get_host_for_guid uuid s = in_sites uuid (pool_cache s) none none refl
