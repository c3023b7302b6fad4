-- ===== src/Caches/Built/Known.antt =====
-- Which networks are known once the caches are built.
use alike.Base.{
  String, List, [], ◌∷◌, ◌++◌, map, Bool, false, ◌&&◌, ◌||◌, Option, some, none, ◌≡◌, refl, ap, sym,
  arith, any, str_eq, eq_iff, insert, lookup, lookup-insert, ◌∙◌, append_assoc, append-nil,
  Bool-cases, Option-cases, inl, inr,
}
use alike.Storage.{A3, Network, Storage, a3s}
use alike.Caches.{
  Answer, Networks, ensure_pool, networks_of, push_network, create_networks, merge_networks,
  network_cache, set_network_cache_cb,
}
use alike.Caches.Networks.{
  known, of_pool, networks_of-ensure_pool, networks_of-push_network, merge_networks-add_new,
  known-add_new, stored,
}
use alike.Caches.Built.{
  Call, host_pools, srs, fulfilled, site_calls, build_meta_caches, settled, callbacks,
}

-- the networks of a pool, none where nothing is kept
abbrev pub kept_networks : Option Networks → String → List Network
kept_networks none p = []
kept_networks (some c) p = networks_of c p

abbrev pub known_networks : Storage → String → List Network
known_networks s p = kept_networks (network_cache s) p

abbrev pub is_fine : Answer (List Network) → Bool
is_fine a = str_eq a.result "success"

-- the sites that are asked for their networks
abbrev pub network_sites : List Call → List String
network_sites [] = []
network_sites (host_pools ∷ calls) = network_sites calls
network_sites (srs site ∷ calls) = network_sites calls
network_sites (Call.networks site ∷ calls) = site ∷ network_sites calls

-- an answer has the network
abbrev pub has_network : String → Network → Answer (List Network) → Bool
has_network p n a = is_fine a && known (of_pool p a.content) n

networks_of-create_networks :
    (a : Networks) (ns : List Network) (p : String)
    → networks_of (create_networks a ns) p ≡ networks_of a p ++ of_pool p ns
unfolding create_networks
networks_of-create_networks a [] p = sym (append-nil (networks_of a p))
networks_of-create_networks a (n ∷ ns) p =
    let pushed = networks_of-push_network (ensure_pool a n) n p in
    let ensured = networks_of-ensure_pool a n p in
    networks_of-create_networks (push_network (ensure_pool a n) n) ns p
    ∙ (elim (Bool-cases (str_eq n.poolid p)) [
      | inl same ↦
          rw (pushed, same, ensured) (append_assoc (networks_of a p) (n ∷ []) (of_pool p ns))
      | inr other ↦ rw (pushed, other, ensured) refl
    ])

nothing : (p : String) → networks_of [] p ≡ []
unfolding networks_of lookup
nothing p = refl

created : (ns : List Network) (p : String) → networks_of (create_networks [] ns) p ≡ of_pool p ns
created ns p = networks_of-create_networks [] ns p ∙ ap (λ l. l ++ of_pool p ns) (nothing p)

or-false : (b : Bool) → (b || false) ≡ b
or-false b = ground arith

or_assoc : (a b c : Bool) → ((a || b) || c) ≡ (a || (b || c))
or_assoc a b c = ground arith

callback-known :
    (a : Answer (List Network)) (s : Storage) (p : String) (n : Network)
    → known (known_networks (settled (set_network_cache_cb a s) s) p) n
      ≡ (known (known_networks s p) n || has_network p n a)
unfolding set_network_cache_cb settled
callback-known a s p n = elim (Bool-cases (is_fine a)) [
  | inr bad ↦ rw bad (sym (or-false (known (known_networks s p) n)))
  | inl fine ↦ elim (Option-cases (network_cache s)) [
    | inl e ↦
        let made = create_networks [] a.content in
        let left : network_cache (settled (set_network_cache_cb a s) s) ≡ some made =
          rw (fine, e) (stored made s) in
        rw (left, e, fine) (ap (λ l. known l n) (created a.content p))
    | inr (c, e) ↦
        let made = merge_networks c a.content in
        let left : network_cache (settled (set_network_cache_cb a s) s) ≡ some made =
          rw (fine, e) (stored made s) in
        rw (left, e, fine)
          (ap (λ l. known l n) (merge_networks-add_new c a.content p)
            ∙ known-add_new (networks_of c p) (of_pool p a.content) n)
  ]
]

callbacks-known :
    (answers : List (Answer (List Network))) (s : Storage) (p : String) (n : Network)
    → known (known_networks (callbacks answers s) p) n
      ≡ (known (known_networks s p) n || any (has_network p n) answers)
unfolding callbacks
callbacks-known [] s p n = sym (or-false (known (known_networks s p) n))
callbacks-known (a ∷ answers) s p n =
    callbacks-known answers (settled (set_network_cache_cb a s) s) p n
    ∙ ap (λ b. b || any (has_network p n) answers) (callback-known a s p n)
    ∙ or_assoc (known (known_networks s p) n) (has_network p n a) (any (has_network p n) answers)

network_sites-site_calls : (l : List A3) → network_sites (site_calls l) ≡ map (λ a. a.id) l
unfolding site_calls
network_sites-site_calls [] = refl
network_sites-site_calls (a ∷ l) = ap (λ sites. a.id ∷ sites) (network_sites-site_calls l)

unchanged :
    (found : List A3) (s : Storage)
    → network_cache (insert "a3Cache" (a3s found) s) ≡ network_cache s
unfolding network_cache
unchanged found s =
    ground
      (arith, lookup-insert "a3Cache" "networkCache" (a3s found) s, eq_iff "a3Cache" "networkCache")

-- With the A3s that the service lists, the networks of each of them are asked for, and of no other
-- site. After the replies of any sites, in whatever order they come and whichever of them fail, a
-- network of a pool is known exactly if it was before or some reply that succeeded has it.
pub build_meta_caches-known :
    (found : List A3) (s : Storage) (replies : List (Answer (List Network))) (p : String)
    (n : Network)
    → (network_sites (build_meta_caches (fulfilled found) s).calls ≡ map (λ a. a.id) found)
      × (known
            (known_networks (callbacks replies (build_meta_caches (fulfilled found) s).storage) p)
            n
          ≡ (known (known_networks s p) n || any (has_network p n) replies))
unfolding build_meta_caches
build_meta_caches-known found s replies p n = (
  network_sites-site_calls found,
  callbacks-known replies (insert "a3Cache" (a3s found) s) p n
      ∙ ap (λ c. known (kept_networks c p) n || any (has_network p n) replies) (unchanged found s),
)
