-- ===== src/Caches.antt =====
-- webui/js/utils.js, `setNetworkCacheCB` and `setSrCacheCB`: the answers of the web service are
-- merged into the caches of the storage. The log lines of the browser's console are left out.
pub mod Networks
pub mod Srs
pub mod Built
use alike.Base.{
  String, List, [], ◌∷◌, ◌++◌, Bool, true, false, Option, some, none, any, str_eq, if◌then◌else◌,
  lookup, insert,
}
use alike.Storage.{Network, Sr, Item, networks, srs, Storage}

-- an answer of the web service; `result` is "success" or something else
pub record Answer (A : Type 0) : Type 0 where
  pub result : String
  pub message : String
  pub content : A

-- a callback ends with the storage that it leaves and the toasts that it shows, or throws
pub data Outcome : Type 0 where
  ended : Storage → List String → Outcome
  throws : String → Outcome

-- networks by pool
abbrev pub Networks : Type 0
Networks = List (String × List Network)

-- `if (!netAssoc[n.poolid]) { netAssoc[n.poolid] = []; }`
pub ensure_pool : Networks → Network → Networks
ensure_pool assoc n = elim (lookup n.poolid assoc) [
  | none ↦ insert n.poolid [] assoc
  | some l ↦ assoc
]

-- `netAssoc[n.poolid]`, for a pool that has been ensured
pub networks_of : Networks → String → List Network
networks_of assoc pool = elim (lookup pool assoc) [ none ↦ [] | some l ↦ l ]

pub push_network : Networks → Network → Networks
push_network assoc n = insert n.poolid (networks_of assoc n.poolid ++ n ∷ []) assoc

-- `netAssoc[s.poolid].some(g => s.uuid === g.uuid)`
pub has_guy : Networks → Network → Bool
has_guy assoc n = any (λ g. str_eq n.uuid g.uuid) (networks_of assoc n.poolid)

-- the loop of the first answer
create_networks : Networks → List Network → Networks
create_networks assoc [] = assoc
create_networks assoc (n ∷ ns) = create_networks (push_network (ensure_pool assoc n) n) ns

ensure_pools : Networks → List Network → Networks
ensure_pools assoc [] = assoc
ensure_pools assoc (n ∷ ns) = ensure_pools (ensure_pool assoc n) ns

pub add_network : Networks → Network → Networks
add_network assoc n = if has_guy assoc n then assoc else push_network assoc n

add_networks : Networks → List Network → Networks
add_networks assoc [] = assoc
add_networks assoc (n ∷ ns) = add_networks (add_network assoc n) ns

-- the two loops over a later answer
pub merge_networks : Networks → List Network → Networks
unfolding ensure_pools add_networks
merge_networks assoc ns = add_networks (ensure_pools assoc ns) ns

unfoldable pub network_cache : Storage → Option Networks
network_cache s = elim (lookup "networkCache" s) [ some (networks c) ↦ some c | _ ↦ none ]

pub set_network_cache_cb : Answer (List Network) → Storage → Outcome
unfolding create_networks
set_network_cache_cb answer s =
    if str_eq answer.result "success"
    then elim (network_cache s) [
      | none ↦ ended (insert "networkCache" (networks (create_networks [] answer.content)) s) []
      | some assoc ↦
          ended (insert "networkCache" (networks (merge_networks assoc answer.content)) s) []
    ]
    else ended s (answer.message ∷ [])

-- srs by pool or host
abbrev pub Srs : Type 0
Srs = List (String × List Sr)

-- `if(i in cache){ ; } else { cache[i] = s; }`
pub merge_srs : Srs → Srs → Srs
merge_srs cache [] = cache
merge_srs cache ((i, s) ∷ rest) = elim (lookup i cache) [
  | some old ↦ merge_srs cache rest
  | none ↦ merge_srs (insert i s cache) rest
]

unfoldable pub sr_cache : Storage → Option Srs
sr_cache s = elim (lookup "srCache" s) [ some (srs c) ↦ some c | _ ↦ none ]

-- on a failure the toast's text is `ex.message`, and there is no `ex`
pub set_sr_cache_cb : Answer Srs → Storage → Outcome
set_sr_cache_cb answer s =
    if str_eq answer.result "success"
    then elim (sr_cache s) [
      | none ↦ ended (insert "srCache" (srs answer.content) s) []
      | some cache ↦ ended (insert "srCache" (srs (merge_srs cache answer.content)) s) []
    ]
    else throws "ReferenceError: ex is not defined"
