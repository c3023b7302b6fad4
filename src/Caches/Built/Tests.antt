-- ===== src/Caches/Built/Tests.antt =====
-- Two A3s, of which one replies with a network and one fails.
use alike.Base.{List, [], ◌∷◌, ◌||◌, map, any, ◌≡◌}
use alike.Storage.{A3, Network}
use alike.Caches.{Answer}
use alike.Caches.Networks.{known}
use alike.Caches.Built.{fulfilled, build_meta_caches, callbacks}
use alike.Caches.Built.Known.{network_sites, known_networks, has_network, build_meta_caches-known}

abbrev both : List A3
both =
    record { id = "1"; guid = "g1"; name = "East" }
    ∷ record { id = "2"; guid = "g2"; name = "West" }
    ∷ []

abbrev lan : Network
lan = record { uuid = "n1"; poolid = "p"; name = "lan" }

abbrev replies : List (Answer (List Network))
replies =
    record { result = "failed"; message = "no answer"; content = [] }
    ∷ record { result = "success"; message = ""; content = lan ∷ [] }
    ∷ []

build_meta_caches-known_example :
    (network_sites (build_meta_caches (fulfilled both) []).calls ≡ map (λ a. a.id) both)
    × (known
          (known_networks (callbacks replies (build_meta_caches (fulfilled both) []).storage) "p")
          lan
        ≡ (known (known_networks [] "p") lan || any (has_network "p" lan) replies))
build_meta_caches-known_example = build_meta_caches-known both [] replies "p" lan
