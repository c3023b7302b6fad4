-- ===== src/Destinations/Tests.antt =====
-- A site with a pool of two hosts and a host of its own, and the theorem at it.
use alike.Base.{List, [], ◌∷◌, pos, true, some, none, ◌≡◌, refl, All, lookup, show}
use alike.Storage.{Storage, pools, srs, networks}
use alike.Pools.{Pools, pool_cache}
use alike.Pools.Find.{is_found}
use alike.Caches.{network_cache, sr_cache}
use alike.Destinations.{Choice, View, populate_quick_restore_items, choose_dest}
use alike.Destinations.Offered.{IsKeyed, choose_dest-populate_quick_restore_items}

abbrev site_pools : Pools
site_pools =
    (
      "p1",
      record {
        uuid = "p1";
        name = "Main";
        type = pos 0;
        hosts = some (
            ("h1", record { uuid = "h1"; name = "left"; type = pos 2 })
            ∷ ("h2", record { uuid = "h2"; name = "right"; type = pos 2 })
            ∷ []);
      },
    )
    ∷ ("h3", record { uuid = "h3"; name = "hyper"; type = pos 3; hosts = none })
    ∷ []

abbrev kept : Storage
kept =
    ("poolCache", pools (("1", site_pools) ∷ []))
    ∷ ("srCache", srs [])
    ∷ ("networkCache", networks [])
    ∷ []

abbrev offered : List Choice
offered =
    record { value = "0"; text = "Select your restore host or pool" }
    ∷ record { value = "p1"; text = "Pool: Main [unhomed]" }
    ∷ record { value = "h1"; text = " > left" }
    ∷ record { value = "h2"; text = " > right" }
    ∷ record { value = "h3"; text = "   hyper" }
    ∷ []

site_kept : lookup "1" (pool_cache kept) ≡ some site_pools
unfolding pool_cache lookup
site_kept = refl

keyed : IsKeyed site_pools
keyed = (refl, (refl, tt))

offers : populate_quick_restore_items (pool_cache kept) "1" ≡ some offered
unfolding populate_quick_restore_items pool_cache lookup
offers = refl

srs_kept : is_found (sr_cache kept) ≡ true
unfolding sr_cache lookup
srs_kept = refl

networks_kept : is_found (network_cache kept) ≡ true
unfolding network_cache lookup
networks_kept = refl

choose_dest-populate_quick_restore_items_example :
    All (λ c. (v : View) → is_found (choose_dest show kept c.value v) ≡ true) offered
choose_dest-populate_quick_restore_items_example =
    choose_dest-populate_quick_restore_items show kept "1" site_pools offered site_kept keyed offers
      srs_kept networks_kept
