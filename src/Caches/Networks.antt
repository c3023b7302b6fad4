-- ===== src/Caches/Networks.antt =====
-- The cache of networks, pool by pool.
use alike.Base.{
  String, List, [], ◌∷◌, ◌++◌, Bool, true, false, not, ◌&&◌, ◌||◌, some, ◌≡◌, refl, arith,
  if◌then◌else◌, any, filter, str_eq, eq_iff, insert, lookup-insert, ap, ◌∙◌, Bool-cases, inl, inr,
}
use alike.Storage.{Network, networks, Storage}
use alike.Caches.{
  Answer, ended, Networks, ensure_pool, networks_of, push_network, has_guy, ensure_pools,
  add_network, add_networks, merge_networks, network_cache, set_network_cache_cb,
}

abbrev pub known : List Network → Network → Bool
known l n = any (λ g. str_eq n.uuid g.uuid) l

-- one pool's list, and the networks of an answer that are new to it, in order
abbrev pub add_new : List Network → List Network → List Network
add_new l [] = l
add_new l (n ∷ ns) = add_new (if known l n then l else l ++ n ∷ []) ns

abbrev pub of_pool : String → List Network → List Network
of_pool p = filter (λ n. str_eq n.poolid p)

pub networks_of-ensure_pool :
    (a : Networks) (n : Network) (p : String) → networks_of (ensure_pool a n) p ≡ networks_of a p
unfolding networks_of ensure_pool
networks_of-ensure_pool a n p = ground (arith, lookup-insert n.poolid p [] a, eq_iff n.poolid p)

networks_of-ensure_pools :
    (a : Networks) (ns : List Network) (p : String)
    → networks_of (ensure_pools a ns) p ≡ networks_of a p
unfolding ensure_pools
networks_of-ensure_pools a [] p = refl
networks_of-ensure_pools a (n ∷ ns) p =
    networks_of-ensure_pools (ensure_pool a n) ns p ∙ networks_of-ensure_pool a n p

pub networks_of-push_network :
    (a : Networks) (n : Network) (p : String)
    → networks_of (push_network a n) p
      ≡ (if str_eq n.poolid p then networks_of a p ++ n ∷ [] else networks_of a p)
unfolding networks_of push_network
networks_of-push_network a n p =
    ground (arith, lookup-insert n.poolid p (networks_of a n.poolid ++ n ∷ []) a, eq_iff n.poolid p)

networks_of-add_network :
    (a : Networks) (n : Network) (p : String)
    → networks_of (add_network a n) p ≡ (
        if str_eq n.poolid p
        then (if known (networks_of a p) n then networks_of a p else networks_of a p ++ n ∷ [])
        else networks_of a p)
unfolding add_network has_guy
networks_of-add_network a n p = ground (arith, networks_of-push_network a n p, eq_iff n.poolid p)

networks_of-add_networks :
    (a : Networks) (ns : List Network) (p : String)
    → networks_of (add_networks a ns) p ≡ add_new (networks_of a p) (of_pool p ns)
unfolding add_networks
networks_of-add_networks a [] p = refl
networks_of-add_networks a (n ∷ ns) p = elim (Bool-cases (str_eq n.poolid p)) [
  | inl same ↦ rw same (
      networks_of-add_networks (add_network a n) ns p
      ∙ ap (λ l. add_new l (of_pool p ns)) (networks_of-add_network a n p ∙ rw same refl))
  | inr other ↦ rw other (
      networks_of-add_networks (add_network a n) ns p
      ∙ ap (λ l. add_new l (of_pool p ns)) (networks_of-add_network a n p ∙ rw other refl))
]

-- For every pool the merged cache has the list that was there, followed by the networks of the
-- answer with an identifier that the pool did not have.
pub merge_networks-add_new :
    (a : Networks) (ns : List Network) (p : String)
    → networks_of (merge_networks a ns) p ≡ add_new (networks_of a p) (of_pool p ns)
unfolding merge_networks
merge_networks-add_new a ns p =
    networks_of-add_networks (ensure_pools a ns) ns p
    ∙ ap (λ l. add_new l (of_pool p ns)) (networks_of-ensure_pools a ns p)

-- no identifier stands twice
abbrev pub are_distinct : List Network → Bool
are_distinct [] = true
are_distinct (n ∷ l) = not (known l n) && are_distinct l

pub known-append : (l m : List Network) (n : Network) → known (l ++ m) n ≡ (known l n || known m n)
known-append [] m n = refl
known-append (g ∷ l) m n = ground (arith, known-append l m n)

distinct-concat :
    (l : List Network) (n : Network)
    → are_distinct l ≡ true
    → known l n ≡ false
    → are_distinct (l ++ n ∷ []) ≡ true
distinct-concat [] n h k = refl
distinct-concat (g ∷ l) n h k = ground (
  arith,
  distinct-concat l n,
  known-append l (n ∷ []) g,
  eq_iff n.uuid g.uuid,
  eq_iff g.uuid n.uuid,
)

distinct-add_new :
    (l ns : List Network) → are_distinct l ≡ true → are_distinct (add_new l ns) ≡ true
distinct-add_new l [] h = h
distinct-add_new l (n ∷ ns) h = elim (Bool-cases (known l n)) [
  | inl old ↦ rw old (distinct-add_new l ns h)
  | inr new ↦ rw new (distinct-add_new (l ++ n ∷ []) ns (distinct-concat l n h new))
]

known_cong : (l : List Network) (n m : Network) → n.uuid ≡ m.uuid → known l n ≡ known l m
known_cong [] n m e = refl
known_cong (g ∷ l) n m e = ground (arith, known_cong l n m)

pub known-add_new :
    (l ns : List Network) (n : Network) → known (add_new l ns) n ≡ (known l n || known ns n)
known-add_new l [] n = ground arith
known-add_new l (m ∷ ns) n = elim (Bool-cases (known l m)) [
  | inl old ↦ rw old (ground (arith, known-add_new l ns n, known_cong l n m, eq_iff n.uuid m.uuid))
  | inr new ↦ rw new (ground (arith, known-add_new (l ++ m ∷ []) ns n, known-append l (m ∷ []) n))
]

nothing_new :
    (l ns : List Network)
    → ((n : Network) → known ns n ≡ true → known l n ≡ true)
    → add_new l ns ≡ l
nothing_new l [] all = refl
nothing_new l (n ∷ ns) all =
    rw (all n (ground (arith, eq_iff n.uuid n.uuid)))
      (nothing_new l ns (λ m h. all m (ground arith)))

-- Merging the same answer once more changes no pool.
pub merge_networks_idempotent :
    (a : Networks) (ns : List Network) (p : String)
    → networks_of (merge_networks (merge_networks a ns) ns) p ≡ networks_of (merge_networks a ns) p
merge_networks_idempotent a ns p =
    merge_networks-add_new (merge_networks a ns) ns p
    ∙ nothing_new (networks_of (merge_networks a ns) p) (of_pool p ns) (λ n h.
      ground
        (arith, merge_networks-add_new a ns p, known-add_new (networks_of a p) (of_pool p ns) n))

pub stored :
    (c : Networks) (s : Storage) → network_cache (insert "networkCache" (networks c) s) ≡ some c
unfolding network_cache
stored c s = ground (
  arith,
  lookup-insert "networkCache" "networkCache" (networks c) s,
  eq_iff "networkCache" "networkCache",
)

-- A successful answer to a console that has a cache: every pool keeps its networks in their order
-- and gets the new ones behind them, no identifier comes to stand twice, and a network is known
-- afterwards exactly if it was before or is in the answer. Nothing is shown.
pub set_network_cache_cb_lem :
    (answer : Answer (List Network)) (s : Storage) (a : Networks) (p : String) (n : Network)
    → answer.result ≡ "success"
    → network_cache s ≡ some a
    → are_distinct (networks_of a p) ≡ true
    → (s' : Storage) × (a' : Networks) × (set_network_cache_cb answer s ≡ ended s' [])
      × (network_cache s' ≡ some a')
      × (networks_of a' p ≡ add_new (networks_of a p) (of_pool p answer.content))
      × (are_distinct (networks_of a' p) ≡ true)
      × (known (networks_of a' p) n
          ≡ (known (networks_of a p) n || known (of_pool p answer.content) n))
unfolding set_network_cache_cb
set_network_cache_cb_lem answer s a p n h cached distinct =
    let a' = merge_networks a answer.content in
    let same = merge_networks-add_new a answer.content p in
    (
      insert "networkCache" (networks a') s,
      a',
      ground (arith, eq_iff answer.result "success"),
      stored a' s,
      same,
      rw same (distinct-add_new (networks_of a p) (of_pool p answer.content) distinct),
      rw same (known-add_new (networks_of a p) (of_pool p answer.content) n),
    )
