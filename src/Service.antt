-- ===== src/Service.antt =====
-- webui/js/utils.js: the console's calls of the web service. `setSites`, `getSite`,
-- `getSessionForSite`, `getWsCall`, `fixJsonArgs`, `wsCall`, `wsPromise`. The request itself is the
-- browser's: its reply is an argument. Every answer has a message, and `toLowerCase` is that of the
-- letters from A to Z.
pub mod Sites
pub mod Replies
mod Tests
use alike.Base.{
  ℕ, ◌+◌, String, List, [], ◌∷◌, map, ℤ, pos, Bool, true, false, not, ◌&&◌, Option, some, none,
  str_eq, leb, if◌then◌else◌, lookup, insert, codes, contains, ◌<>◌,
}
use alike.Status.Value.{Value, undefined, null, bool, num, str, to_number, show_number}
use alike.Status.Numeric.{is_number}
use alike.Storage.{Item, Storage, site}

pub record Site : Type 0 where
  pub id : String
  pub ip : String
  pub password : String

-- `http` tells whether the page itself came over http
pub proto_of : Bool → String
proto_of http = if http then "http://" else "https://"

pub set_sites : Bool → List Site → Storage → Storage
unfolding proto_of
set_sites http [] s = s
set_sites http (x ∷ xs) s =
    set_sites http xs (insert x.id (site (proto_of http <> x.ip) x.password) s)

-- the url and the session kept for a site; `none` is the TypeError of a site that is not kept
pub kept_site : String → Storage → Option (String × String)
kept_site id s = elim (lookup id s) [ some (site url session) ↦ some (url, session) | _ ↦ none ]

-- `local` is `window.alikeSite`, which site 0 stands for
pub get_site : String → String → Storage → Option String
unfolding kept_site
get_site local id s =
    if str_eq id "0"
    then some local
    else elim (kept_site id s) [ none ↦ none | some (url, session) ↦ some url ]

-- `local` is `getLocalSession()`
pub get_session_for_site : String → String → Storage → Option String
unfolding kept_site
get_session_for_site local id s =
    if str_eq id "0"
    then some local
    else elim (kept_site id s) [ none ↦ none | some (url, session) ↦ some session ]

pub get_ws_call : String → String → String → String
get_ws_call local call id = local <> "/ws/" <> id <> "/" <> call

-- `isNumeric`
unfoldable pub is_numeric : Value → Bool
unfolding is_number
is_numeric (num n) = true
is_numeric (str s) = is_number (codes s)
is_numeric v = false

-- `val.toString()`
pub to_text : Value → Value
to_text (num n) = str (show_number (some n))
to_text v = v

pub fix_json_args : List (String × Value) → List (String × Value)
unfolding is_numeric to_text
fix_json_args [] = []
fix_json_args ((k, v) ∷ args) = (k, if is_numeric v then to_text v else v) ∷ fix_json_args args

pub record Results : Type 0 where
  pub result : String
  pub message : String

-- the request succeeds with an answer, or fails
pub data Reply : Type 0 where
  answered : Results → Reply
  failed : String → Reply

-- what a call does; a toast has its text, title and kind
pub data Effect : Type 0 where
  call_back : String → Results → Option String → Effect
  toast : String → String → String → Effect
  -- in so many milliseconds
  reload : ℕ → Effect

lower : ℕ → ℕ
lower c = if leb b'A' c && leb c b'Z' then c + 32 else c

-- the session has expired
pub is_expired : Results → Bool
unfolding lower
is_expired r =
    str_eq r.result "error"
    && contains (codes "authentication required") (map lower (codes r.message))

abbrev pub expired_effects : List Effect
expired_effects =
    toast "Session expired.  Please login again." "Session Expired" "warning" ∷ reload 2000 ∷ []

abbrev no_answer : String → List Effect
no_answer error = toast ("Received the error:" <> error) "Invalid WS Results" "error" ∷ []

-- `callback` and `param` are `none` if they are left out
pub ws_call : Option String → Option String → Reply → List Effect
ws_call callback param (failed error) = no_answer error
ws_call callback param (answered r) =
    if str_eq r.result "success"
    then elim callback [ none ↦ [] | some f ↦ call_back f r param ∷ [] ]
    else if is_expired r
    then expired_effects
    else elim callback [
      | some f ↦ call_back f r param ∷ []
      | none ↦ no_answer (r.message <> "<br>Response:[object Object]")
    ]

-- a promise is resolved, rejected with an answer or an error, or stays as it is
pub data Settled : Type 0 where
  resolved rejected : Results → Settled
  rejected_error : String → Settled
  pending : List Effect → Settled

pub ws_promise : Reply → Settled
ws_promise (failed error) = rejected_error error
ws_promise (answered r) =
    if str_eq r.result "success"
    then resolved r
    else if is_expired r
    then pending expired_effects
    else rejected r
