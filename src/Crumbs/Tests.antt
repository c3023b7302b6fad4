-- ===== src/Crumbs/Tests.antt =====
-- Tests of the trail, and the theorem at one.
use alike.Base.{String, List, [], ◌∷◌, some, ◌≡◌, refl, codes}
use alike.Crumbs.{show_crumbs}

abbrev trail : List String
trail = "jobs" ∷ "hosts" ∷ "a3" ∷ []

show_crumbs_test : show_crumbs (some trail) ≡ codes "History: jobs /hosts /a3 "
unfolding show_crumbs
show_crumbs_test = refl
