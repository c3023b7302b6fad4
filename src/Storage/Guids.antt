-- ===== src/Storage/Guids.antt =====
-- The cache of guids: what is read after a write, and what a write leaves alone.
use alike.Base.{
  String, List, some, ◌≡◌, ◌≢◌, arith, if◌then◌else◌, lookup, insert, lookup-insert, str_eq, eq_iff,
}
use alike.Storage.{
  Storage, guids, get_guid_cache, get_guid_cache_item, set_guid_cache, set_guid_cache_item,
}

get_guid_cache_item-lookup :
    (k : String) (s : Storage) → get_guid_cache_item k s ≡ lookup k (get_guid_cache s)
unfolding get_guid_cache_item get_guid_cache
get_guid_cache_item-lookup k s = unfold lookup in ground arith

get_guid_cache-set_guid_cache :
    (c : List (String × String)) (s : Storage) → get_guid_cache (set_guid_cache c s) ≡ c
unfolding get_guid_cache set_guid_cache
get_guid_cache-set_guid_cache c s =
    ground
      (arith, lookup-insert "guidCache" "guidCache" (guids c) s, eq_iff "guidCache" "guidCache")

-- After a guid is written its object is read back, every other guid has the object that it had, and
-- no other item of the storage is touched.
pub get-set_guid_cache_item :
    (guid obj j k : String) (s : Storage)
    → k ≢ "guidCache"
    → (get_guid_cache_item j (set_guid_cache_item guid obj s)
        ≡ (if str_eq guid j then some obj else get_guid_cache_item j s))
      × (lookup k (set_guid_cache_item guid obj s) ≡ lookup k s)
unfolding set_guid_cache_item
get-set_guid_cache_item guid obj j k s ne = (
  rw (
    get_guid_cache_item-lookup j (set_guid_cache (insert guid obj (get_guid_cache s)) s),
    get_guid_cache-set_guid_cache,
    lookup-insert,
    get_guid_cache_item-lookup,
  ),
  unfold set_guid_cache in
      ground (
        arith,
        lookup-insert "guidCache" k (guids (insert guid obj (get_guid_cache s))) s,
        eq_iff "guidCache" k,
      ),
)
