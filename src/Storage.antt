-- ===== src/Storage.antt =====
-- webui/js/utils.js: the browser's `sessionStorage`, its pruning and the cache of guids.
-- The storage is the list of its items in the order of `sessionStorage.key(i)`. An item is kept as
-- the value whose `JSON.stringify` is stored, so reading it back is `JSON.parse`; each key of the
-- console holds values of one kind.
pub mod Prune
pub mod Guids
use alike.Base.{
  ℕ, zero, suc, ◌+◌, ◌-◌, String, List, [], ◌∷◌, ◌++◌, map, ℤ, Bool, true, false, Option, some,
  none, length, leb, get_elem?, if◌then◌else◌, lookup, insert, remove,
}

pub record Network : Type 0 where
  pub uuid : String
  pub poolid : String
  pub name : String

pub record Sr : Type 0 where
  pub uuid : String
  pub name : String
  pub free : ℕ

pub record Host : Type 0 where
  pub uuid : String
  pub name : String
  pub type : ℤ

-- a host that is its own pool has no `hosts`
pub record Pool : Type 0 where
  pub uuid : String
  pub name : String
  pub type : ℤ
  pub hosts : Option (List (String × Host))

pub record A3 : Type 0 where
  pub id : String
  pub guid : String
  pub name : String

pub record Job : Type 0 where
  pub job_id : ℕ
  pub name : String
  pub type : ℕ
  pub status : ℕ
  pub time_elapsed : ℕ

pub data Item : Type 0 where
  networks : List (String × List Network) → Item
  srs : List (String × List Sr) → Item
  pools : List (String × List (String × Pool)) → Item
  a3s : List A3 → Item
  jobs : List Job → Item
  guids : List (String × String) → Item
  -- what `setSites` keeps for a site: its url and its session
  site : String → String → Item

abbrev pub Storage : Type 0
Storage = List (String × Item)

-- the loop that collects `sessionStorage.key(i)` for the first `todo` positions
dead_men : ℕ → ℕ → Storage → List String
dead_men zero i s = []
dead_men (suc todo) i s = elim (get_elem? s i) [
  | none ↦ []
  | some (k, v) ↦ k ∷ dead_men todo (i + 1) s
]

remove_all : List String → Storage → Storage
remove_all [] s = s
remove_all (k ∷ ks) s = remove_all ks (remove k s)

pub prune_storage : ℕ → Storage → Storage
unfolding dead_men remove_all
prune_storage max s = if leb (length s) max then s else remove_all (dead_men (length s - max) 0 s) s

unfoldable pub clear_meta_caches : Storage → Storage
clear_meta_caches s = remove "poolCache" (remove "srCache" (remove "a3Cache" s))

-- `getGuidCache`: an object without entries if there is none
pub get_guid_cache : Storage → List (String × String)
get_guid_cache s = elim (lookup "guidCache" s) [ some (guids g) ↦ g | _ ↦ [] ]

pub set_guid_cache : List (String × String) → Storage → Storage
set_guid_cache cache s = insert "guidCache" (guids cache) s

-- `none` is `null`
pub get_guid_cache_item : String → Storage → Option String
get_guid_cache_item item s = elim (lookup "guidCache" s) [
  | some (guids g) ↦ lookup item g
  | _ ↦ none
]

pub set_guid_cache_item : String → String → Storage → Storage
unfolding set_guid_cache get_guid_cache
set_guid_cache_item guid obj s = set_guid_cache (insert guid obj (get_guid_cache s)) s
