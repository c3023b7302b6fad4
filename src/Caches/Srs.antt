-- ===== src/Caches/Srs.antt =====
-- The cache of storage repositories: what was there stays, what was missing comes from the answer.
use alike.Base.{
  String, List, [], ◌∷◌, Option, some, none, ◌≡◌, ◌≢◌, arith, eq_iff, lookup, insert, lookup-cons,
  lookup-insert, Option-cases, inl, inr,
}
use alike.Storage.{Sr, srs, Storage}
use alike.Caches.{Answer, ended, Srs, merge_srs, sr_cache, set_sr_cache_cb}

-- the entry of the cache, and without one that of the answer
abbrev pub first : Option (List Sr) → Option (List Sr) → Option (List Sr)
first none b = b
first (some a) b = some a

lookup-merge_srs :
    (k : String) (cache answer : Srs)
    → lookup k (merge_srs cache answer) ≡ first (lookup k cache) (lookup k answer)
unfolding merge_srs
lookup-merge_srs k cache [] = unfold lookup in ground arith
lookup-merge_srs k cache ((i, s) ∷ rest) = ground (
  arith,
  lookup-cons i k s rest,
  lookup-insert i k s cache,
  eq_iff i k,
  lookup-merge_srs k cache rest,
  lookup-merge_srs k (insert i s cache) rest,
)

-- what the cache holds before the answer
abbrev pub known_srs : Storage → Srs
known_srs s = elim (sr_cache s) [ none ↦ [] | some c ↦ c ]

stored : (c : Srs) (s : Storage) → sr_cache (insert "srCache" (srs c) s) ≡ some c
unfolding sr_cache
stored c s = ground (arith, lookup-insert "srCache" "srCache" (srs c) s, eq_iff "srCache" "srCache")

merged : Srs → Storage → Srs
merged answer s = elim (sr_cache s) [ none ↦ answer | some c ↦ merge_srs c answer ]

lookup-merged :
    (k : String) (answer : Srs) (s : Storage)
    → lookup k (merged answer s) ≡ first (lookup k (known_srs s)) (lookup k answer)
unfolding merged
lookup-merged k answer s = elim (Option-cases (sr_cache s)) [
  | inl e ↦ unfold lookup in ground arith
  | inr (c, e) ↦ ground (arith, lookup-merge_srs k c answer)
]

-- After a successful answer the cache holds, for every key, the entry that it held before, and
-- where it held none the entry of the answer. No other item of the storage is touched and nothing
-- is shown.
pub set_sr_cache_cb_lem :
    (answer : Answer Srs) (s : Storage) (k j : String)
    → answer.result ≡ "success"
    → j ≢ "srCache"
    → (s' : Storage) × (c : Srs) × (set_sr_cache_cb answer s ≡ ended s' [])
      × (sr_cache s' ≡ some c)
      × (lookup k c ≡ first (lookup k (known_srs s)) (lookup k answer.content))
      × (lookup j s' ≡ lookup j s)
unfolding set_sr_cache_cb merged
set_sr_cache_cb_lem answer s k j h ne = (
  insert "srCache" (srs (merged answer.content s)) s,
  merged answer.content s,
  ground (arith, eq_iff answer.result "success"),
  stored _ s,
  lookup-merged k answer.content s,
  ground (arith, lookup-insert "srCache" j (srs (merged answer.content s)) s, eq_iff "srCache" j),
)
