-- ===== src/Crumbs.antt =====
-- webui/js/utils.js: the trail of the last pages, `addCrumb` and `showCrumbs`.
pub mod Recent
mod Tests
use alike.Base.{
  ℕ, ◌+◌, String, List, [], ◌∷◌, ◌++◌, Bool, Option, some, none, ltb, ◌==◌, if◌then◌else◌, length,
  drop, str_eq, codes,
}

-- `indexOf` and `splice(index, 1)`: the first that is equal goes
pub without : String → List String → List String
without it [] = []
without it (c ∷ cs) = if str_eq c it then cs else c ∷ without it cs

pub add_crumb : String → List String → List String
unfolding without
add_crumb it crumbs =
    let pushed = without it crumbs ++ it ∷ [] in
    if ltb 3 (length pushed) then drop 1 pushed else pushed

each_crumb : List String → List ℕ
each_crumb [] = []
each_crumb (c ∷ cs) = codes c ++ codes " /" ++ each_crumb cs

-- `if (c.endsWith('/')) { c = c.slice(0, -1); }`
strip_slash : List ℕ → List ℕ
strip_slash [] = []
strip_slash (c ∷ []) = if c == b'/' then [] else c ∷ []
strip_slash (c ∷ d ∷ cs) = c ∷ strip_slash (d ∷ cs)

-- `none` is `null`
pub show_crumbs : Option (List String) → List ℕ
unfolding each_crumb strip_slash
show_crumbs none = codes "History: None"
show_crumbs (some crumbs) = strip_slash (codes "History: " ++ each_crumb crumbs)
