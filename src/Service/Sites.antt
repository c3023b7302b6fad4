-- ===== src/Service/Sites.antt =====
-- What is kept of the sites.
use alike.Base.{
  String, List, [], ◌∷◌, Bool, Option, some, none, ◌≡◌, ◌≢◌, refl, ap, ◌∙◌, arith, str_eq, eq_iff,
  if◌then◌else◌, insert, lookup-insert, ◌<>◌,
}
use alike.Storage.{Storage, site}
use alike.Service.{Site, proto_of, set_sites, kept_site, get_site, get_session_for_site}

-- the last site of the list with this id, and without one what is kept of it before
abbrev pub last_site :
    Bool → String → List Site → Option (String × String) → Option (String × String)
last_site http id [] before = before
last_site http id (x ∷ xs) before =
    last_site http id xs
      (if str_eq x.id id then some (proto_of http <> x.ip, x.password) else before)

kept_site-insert :
    (k id url session : String) (s : Storage)
    → kept_site id (insert k (site url session) s)
      ≡ (if str_eq k id then some (url, session) else kept_site id s)
unfolding kept_site
kept_site-insert k id url session s =
    ground (arith, lookup-insert k id (site url session) s, eq_iff k id)

kept_site-set_sites :
    (http : Bool) (id : String) (xs : List Site) (s : Storage)
    → kept_site id (set_sites http xs s) ≡ last_site http id xs (kept_site id s)
unfolding set_sites
kept_site-set_sites http id [] s = refl
kept_site-set_sites http id (x ∷ xs) s =
    kept_site-set_sites http id xs (insert x.id (site (proto_of http <> x.ip) x.password) s)
    ∙ ap (last_site http id xs) (kept_site-insert x.id id (proto_of http <> x.ip) x.password s)

abbrev pub url_of : Option (String × String) → Option String
url_of none = none
url_of (some (url, session)) = some url

abbrev pub session_of : Option (String × String) → Option String
session_of none = none
session_of (some (url, session)) = some session

-- After the sites are set, the url and the session of a site other than 0 are those of the last
-- site of the list with its id, and without one those that were kept before.
pub get_site-set_sites :
    (http : Bool) (own own_session id : String) (xs : List Site) (s : Storage)
    → id ≢ "0"
    → (get_site own id (set_sites http xs s) ≡ url_of (last_site http id xs (kept_site id s)))
      × (get_session_for_site own_session id (set_sites http xs s)
          ≡ session_of (last_site http id xs (kept_site id s)))
unfolding get_site get_session_for_site
get_site-set_sites http own own_session id xs s ne =
    ground (arith, eq_iff id "0", kept_site-set_sites http id xs s)
