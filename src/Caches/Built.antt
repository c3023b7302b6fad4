-- ===== src/Caches/Built.antt =====
-- webui/js/utils.js: `buildMetaCaches`, up to the requests whose replies fill the caches, and the replies
-- for the networks, one after another in the order in which they come.
pub mod Known
mod Tests
use alike.Base.{String, List, [], ◌∷◌, ◌++◌, Bool, true, false, insert}
use alike.Storage.{A3, Network, Storage, a3s}
use alike.Caches.{Answer, Outcome, ended, throws, set_network_cache_cb}

-- a request and its site
pub data Call : Type 0 where
  host_pools : Call
  srs networks : String → Call

-- what the awaited request for the A3s comes to
pub data Awaited : Type 0 where
  fulfilled : List A3 → Awaited
  thrown : String → Awaited

pub record Started : Type 0 where
  pub storage : Storage
  pub calls : List Call
  pub toasts : List String
  -- the loop over an object that is no list
  pub is_type_error : Bool

-- the loop over the A3s
unfoldable pub site_calls : List A3 → List Call
site_calls [] = []
site_calls (a ∷ found) = srs a.id ∷ networks a.id ∷ site_calls found

unfoldable pub build_meta_caches : Awaited → Storage → Started
unfolding site_calls
build_meta_caches (fulfilled found) s = record {
  storage = insert "a3Cache" (a3s found) s;
  calls = host_pools ∷ site_calls found;
  toasts = [];
  is_type_error = false;
}
build_meta_caches (thrown message) s = record {
  storage = s;
  calls = host_pools ∷ [];
  toasts = message ∷ [];
  is_type_error = true;
}

-- the storage that a callback leaves
unfoldable pub settled : Outcome → Storage → Storage
settled (ended s' toasts) s = s'
settled (throws e) s = s

unfoldable pub callbacks : List (Answer (List Network)) → Storage → Storage
unfolding settled
callbacks [] s = s
callbacks (a ∷ answers) s = callbacks answers (settled (set_network_cache_cb a s) s)
