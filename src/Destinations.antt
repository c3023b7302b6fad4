-- ===== src/Destinations.antt =====
-- webui/js/a3.js: `populateQuickRestoreItems`, `showSrsForUuid` and `showNetworksForUuid`, the choice
-- of where a system is restored to. They read the caches of pools, repositories and networks; a
-- TypeError ends a handler, and is `none`. `pretty` is the text of a size. A guid is no number.
pub mod Offered
mod Tests
use alike.Base.{
  ℕ, String, List, [], ◌∷◌, ◌++◌, ℤ, pos, int_eq, Bool, true, false, not, ◌&&◌, ◌||◌, Option, some,
  none, str_eq, if◌then◌else◌, lookup, ltb, length, ◌<>◌,
}
use alike.Storage.{Host, Pool, Storage, Sr, Network}
use alike.Pools.{Pools, Found, a_pool, a_host, pool_cache, get_pool_for_guid, get_host_for_guid}
use alike.Caches.{network_cache, sr_cache}

-- an `<option>`
pub record Choice : Type 0 where
  pub value : String
  pub text : String

pub host_choices : List (String × Host) → List Choice
host_choices [] = []
host_choices ((i, h) ∷ hs) = record { value = h.uuid; text = " > " <> h.name } ∷ host_choices hs

abbrev unhomed : Pool → Choice
unhomed p = record { value = p.uuid; text = "Pool: " <> p.name <> " [unhomed]" }

-- a pool of type 0 with these hosts
pub xen_choices : Pool → List (String × Host) → List Choice
unfolding host_choices
xen_choices p [] = []
xen_choices p ((i, h) ∷ []) = record { value = h.uuid; text = h.name } ∷ []
xen_choices p (h ∷ h' ∷ hs) = unhomed p ∷ host_choices (h ∷ h' ∷ hs)

-- `Object.keys(p.hosts)` is a TypeError where there are no `hosts`
pub pool_choices : Pool → Option (List Choice)
unfolding xen_choices
pool_choices p =
    if int_eq p.type (pos 0)
    then elim p.hosts [ none ↦ none | some l ↦ some (xen_choices p l) ]
    else if int_eq p.type (pos 3)
    then some (record { value = p.uuid; text = "   " <> p.name } ∷ [])
    else some []

pub pools_choices : Pools → Option (List Choice)
unfolding pool_choices
pools_choices [] = some []
pools_choices ((i, p) ∷ ps) = elim (pool_choices p) [
  | none ↦ none
  | some l ↦ elim (pools_choices ps) [ none ↦ none | some rest ↦ some (l ++ rest) ]
]

abbrev pub no_choice : Choice
no_choice = record { value = "0"; text = "Select your restore host or pool" }

-- a site that the cache does not have is a TypeError
pub populate_quick_restore_items : List (String × Pools) → String → Option (List Choice)
unfolding pools_choices
populate_quick_restore_items cache site = elim (lookup site cache) [
  | none ↦ none
  | some ps ↦ elim (pools_choices ps) [ none ↦ none | some l ↦ some (no_choice ∷ l) ]
]

-- what the window shows below the destination
pub record View : Type 0 where
  pub sr_row : Bool
  pub vhd_row : Bool
  pub network_row : Bool
  pub dest_sr : List Choice
  pub dest_network : List Choice
  pub ok_disabled : Bool

pub sr_choices : (ℕ → String) → List Sr → List Choice
sr_choices pretty [] = []
sr_choices pretty (s ∷ ss) =
    record { value = s.uuid; text = s.name <> "  (" <> pretty s.free <> " Free) " }
    ∷ sr_choices pretty ss

abbrev pub alike_sr : Choice
alike_sr = record { value = "AlikeSR"; text = "AlikeSR - (Boot from Backup)" }

abbrev pub listed {ℓ} : {A : Type ℓ} → String → List (String × List A) → List A
listed key l = elim (lookup key l) [ none ↦ [] | some found ↦ found ]

abbrev pub type_of : Found → ℤ
type_of (a_pool p) = p.type
type_of (a_host h) = h.type

pub show_srs_for_uuid : (ℕ → String) → Storage → String → View → Option View
unfolding sr_choices
show_srs_for_uuid pretty s uuid v = elim (get_host_for_guid uuid s) [
  | none ↦ none
  | some h ↦
      if int_eq (type_of h) (pos 3)
      then some (record v { sr_row = false; vhd_row = true; network_row = false })
      else elim (sr_cache s) [
        | none ↦ none
        | some srs ↦ some (record v {
          sr_row = true;
          vhd_row = false;
          network_row = true;
          dest_sr = sr_choices pretty (listed uuid srs) ++ alike_sr ∷ [];
        })
      ]
]

pub network_choices : List Network → List Choice
network_choices [] = []
network_choices (n ∷ ns) = record { value = n.uuid; text = n.name } ∷ network_choices ns

abbrev pub sandbox : Choice
sandbox = record { value = "sandbox"; text = "SandBox Net (Isolated traffic)" }

-- a guid without a pool is looked up as "null"
abbrev pub key_of : Option String → String
key_of none = "null"
key_of (some p) = p

pub show_networks_for_uuid : Storage → String → View → Option View
unfolding network_choices
show_networks_for_uuid s uuid v = elim (network_cache s) [
  | none ↦ none
  | some nets ↦ some (record v {
    dest_network =
        network_choices (listed (key_of (get_pool_for_guid uuid s)) nets) ++ sandbox ∷ [];
  })
]

-- the change of the destination
pub choose_dest : (ℕ → String) → Storage → String → View → Option View
unfolding show_srs_for_uuid show_networks_for_uuid
choose_dest pretty s uuid v =
    if str_eq uuid "0" || str_eq uuid ""
    then some (record v { ok_disabled = true })
    else elim (show_srs_for_uuid pretty s uuid v) [
      | none ↦ none
      | some v' ↦ elim (show_networks_for_uuid s uuid v') [
        | none ↦ none
        | some v'' ↦ some (record v'' { ok_disabled = false })
      ]
    ]
