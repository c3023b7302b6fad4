-- ===== src/Filters/Tests.antt =====
-- Two systems, of which one is typed in part; a host without systems that are left.
use alike.Base.{
  ℕ, ◌-◌, List, [], ◌∷◌, map, codes, true, false, ◌≡◌, refl, ◌↔◌, All, leb, ◌&&◌, if◌then◌else◌,
}
use alike.Filters.{Source, Group, is_found, filter_sources, filter_group, filter_vm, renamed}
use alike.Filters.Found.{IsNamed, key, filter_sources_iff}

abbrev upper : List ℕ → List ℕ
upper s = map (λ c. if leb b'a' c && leb c b'z' then c - 32 else c) s

abbrev untrimmed : List ℕ → List ℕ
untrimmed s = s

abbrev sources : List Source
sources =
    record { text = codes "Mail"; uuid = codes "a-1"; shown = false }
    ∷ record { text = codes "web"; uuid = codes "b-2"; shown = true }
    ∷ []

filter_sources_iff_example :
    All
      (λ i. (i.shown ≡ true) ↔ IsNamed upper untrimmed (codes "ai") i)
      (filter_sources upper untrimmed (codes "ai") sources)
    × (map key (filter_sources upper untrimmed (codes "ai") sources) ≡ map key sources)
filter_sources_iff_example = filter_sources_iff upper untrimmed (codes "ai") sources

abbrev host : Group
host = record {
  others = 1;
  vms =
      record {
        text = codes "mail";
        inputs = record { name = "n"; value = codes "x" } ∷ [];
        hidden = false;
      }
      ∷ [];
  hidden = false;
}

filter_group_test : (filter_group upper untrimmed (codes "web") host).hidden ≡ true
unfolding filter_group filter_vm is_found renamed
filter_group_test = refl
