-- ===== src/Pools.antt =====
-- The cache of pools and hosts: `setPoolCacheCB`, `getNameFromCache`, `getA3FromGuid` and
-- `getA3FromId` of webui/js/utils.js, `getPoolForGuid` and `getHostForGuid` of webui/js/a3.js. The
-- objects keep their keys in the order of insertion. `$.each` of the `hosts` that a host standing
-- for a pool does not have visits nothing.
pub mod Build
pub mod Find
pub mod Has
use alike.Base.{
  ℕ, String, List, [], ◌∷◌, ℤ, pos, int_eq, Bool, true, false, Option, some, none, str_eq,
  if◌then◌else◌, lookup, insert,
}
use alike.Storage.{Host, Pool, A3, Item, Storage, pools, a3s}

-- what the web service tells of a host and of an A3
pub record HostInfo : Type 0 where
  pub name : String
  pub guid : String
  pub type : ℤ
  pub poolid : String

pub record SiteInfo : Type 0 where
  pub id : String
  pub pools : List (String × String)
  pub hosts : List HostInfo

abbrev pub Pools : Type 0
Pools = List (String × Pool)

abbrev pub pool_of : String → String → Pool
pool_of p name = record { uuid = p; name = name; type = pos 0; hosts = some [] }

pub add_pools : List (String × String) → Pools → Pools
add_pools [] ps = ps
add_pools ((p, v) ∷ rest) ps = add_pools rest (insert p (pool_of p v) ps)

abbrev pub host_of : HostInfo → Host
host_of h = record { uuid = h.guid; name = h.name; type = h.type }

-- a host that is its own pool
abbrev pub alone : HostInfo → Pool
alone h = record { uuid = h.guid; name = h.name; type = h.type; hosts = none }

abbrev pub with_host : Pool → HostInfo → List (String × Host) → Pool
with_host p h l = record {
  uuid = p.uuid;
  name = p.name;
  type = p.type;
  hosts = some (insert h.guid (host_of h) l);
}

-- `none` is the TypeError of `pools[h.poolid].hosts[h.guid] = guy` where there are no `hosts`
pub add_host : HostInfo → Pools → Option Pools
add_host h ps = if int_eq h.type (pos 10) then some ps else elim (lookup h.poolid ps) [
  | none ↦ some (insert h.poolid (alone h) ps)
  | some p ↦ elim p.hosts [ none ↦ none | some l ↦ some (insert h.poolid (with_host p h l) ps) ]
]

pub add_hosts : List HostInfo → Pools → Option Pools
add_hosts [] ps = some ps
add_hosts (h ∷ hs) ps = elim (add_host h ps) [ none ↦ none | some ps' ↦ add_hosts hs ps' ]

pub add_sites : List SiteInfo → List (String × Pools) → Option (List (String × Pools))
unfolding add_pools add_hosts
add_sites [] cache = some cache
add_sites (a ∷ rest) cache = elim (add_hosts a.hosts (add_pools a.pools [])) [
  | none ↦ none
  | some ps ↦ add_sites rest (insert a.id ps cache)
]

pub set_pool_cache_cb : List SiteInfo → Storage → Option Storage
unfolding add_sites
set_pool_cache_cb infos s = elim (add_sites infos []) [
  | none ↦ none
  | some cache ↦ some (insert "poolCache" (pools cache) s)
]

abbrev hosts_of : Pool → List (String × Host)
hosts_of p = elim p.hosts [ none ↦ [] | some l ↦ l ]

-- the loop over hosts ends at the first that is found
pub find_host : String → List (String × Host) → Option Host
find_host guid [] = none
find_host guid ((x, h) ∷ hs) = if str_eq guid h.uuid then some h else find_host guid hs

-- `name` is the name so far; a host that is found does not end the loop over the pools
pub name_in_pools : String → String → Pools → String
unfolding find_host
name_in_pools guid name [] = name
name_in_pools guid name ((x, p) ∷ ps) =
    if str_eq guid p.uuid
    then p.name
    else name_in_pools guid (elim (find_host guid (hosts_of p)) [ none ↦ name | some h ↦ h.name ])
        ps

pub name_in_sites : String → String → List (String × Pools) → String
unfolding name_in_pools
name_in_sites guid name [] = name
name_in_sites guid name ((i, ps) ∷ rest) = name_in_sites guid (name_in_pools guid name ps) rest

-- a storage without a cache is read as a cache without sites
unfoldable pub pool_cache : Storage → List (String × Pools)
pool_cache s = elim (lookup "poolCache" s) [ some (pools c) ↦ c | _ ↦ [] ]

pub get_name_from_cache : String → Storage → String
unfolding name_in_sites pool_cache
get_name_from_cache guid s = name_in_sites guid "Unknown Guid" (pool_cache s)

pub pool_in_pools : String → Option String → Pools → Option String
unfolding find_host
pool_in_pools uuid found [] = found
pool_in_pools uuid found ((x, p) ∷ ps) =
    pool_in_pools uuid (elim (find_host uuid (hosts_of p)) [ none ↦ found | some h ↦ some p.uuid ])
      ps

pub pool_in_sites : String → Option String → List (String × Pools) → Option String
unfolding pool_in_pools
pool_in_sites uuid found [] = found
pool_in_sites uuid found ((i, ps) ∷ rest) = elim (lookup uuid ps) [
  | some p ↦ some uuid
  | none ↦ pool_in_sites uuid (pool_in_pools uuid found ps) rest
]

pub get_pool_for_guid : String → Storage → Option String
unfolding pool_in_sites pool_cache
get_pool_for_guid uuid s = pool_in_sites uuid none (pool_cache s)

-- what `getHostForGuid` finds
pub data Found : Type 0 where
  a_pool : Pool → Found
  a_host : Host → Found

pub host_in_pools : String → Option Found → Pools → Option Found
unfolding find_host
host_in_pools uuid found [] = found
host_in_pools uuid found ((x, p) ∷ ps) =
    host_in_pools uuid
      (elim (find_host uuid (hosts_of p)) [ none ↦ found | some h ↦ some (a_host h) ]) ps

pub host_in_sites : String → Option Found → List (String × Pools) → Option Found
unfolding host_in_pools
host_in_sites uuid found [] = found
host_in_sites uuid found ((i, ps) ∷ rest) = elim (lookup uuid ps) [
  | some p ↦ some (a_pool p)
  | none ↦ host_in_sites uuid (host_in_pools uuid found ps) rest
]

pub get_host_for_guid : String → Storage → Option Found
unfolding host_in_sites pool_cache
get_host_for_guid uuid s = host_in_sites uuid none (pool_cache s)

unfoldable pub a3_cache : Storage → List A3
a3_cache s = elim (lookup "a3Cache" s) [ some (a3s l) ↦ l | _ ↦ [] ]

pub find_guid : String → List A3 → Option A3
find_guid guid [] = none
find_guid guid (a ∷ rest) = if str_eq a.guid guid then some a else find_guid guid rest

pub get_a3_from_guid : String → Storage → Option A3
unfolding find_guid a3_cache
get_a3_from_guid guid s = find_guid guid (a3_cache s)

unfoldable pub find_id : String → List A3 → Option A3
find_id id [] = none
find_id id (a ∷ rest) = if str_eq a.id id then some a else find_id id rest

unfoldable pub get_a3_from_id : String → Storage → Option A3
unfolding find_id a3_cache
get_a3_from_id id s = find_id id (a3_cache s)
