-- ===== src/Enroll/A3.antt =====
-- webui/js/a3.js, `doTestA3` and `doAddA3`: the fields of the modal window and what is sent. A
-- handler is cut where it waits: what stands before the `await`, and what follows each reply. The
-- guard on the class "disabled" reads a `this` that is no element, and never holds.
pub mod Trace
pub mod Safety
pub mod Stale
use alike.Base.{
  any, String, List, [], ◌∷◌, ◌++◌, Bool, true, false, not, ◌||◌, Option, some, none, str_eq,
  if◌then◌else◌, codes,
}
use alike.Net.{check_ip}

pub record A3Args : Type 0 where
  -- "a3/add" or "a3/edit"
  pub action : String
  pub ip : String
  pub pass : String
  pub guid : String
  pub name : Option String
  -- `none` for a new one
  pub id : Option String

-- a request that tests an address with a password
pub record TestArgs : Type 0 where
  pub ip : String
  pub pass : String
  pub name : Option String

pub record A3Form : Type 0 where
  pub is_new : Bool
  pub a3id : String
  pub ip : String
  pub pass : String
  -- hidden fields: "0" until a test succeeds
  pub guid : String
  -- `none` where the window has no such field, which then stays so
  pub name : Option String
  -- the classes and the text of the error line
  pub error_class : List String
  pub error : String
  pub save_disabled : Bool
  pub loading : Bool

-- what remains of the classes is the new one, if there is one
abbrev says : List String → String → A3Form → A3Form
says classes text f = record f { error_class = classes; error = text }

-- `doTestA3` up to the request, which is `none` if there is none
pub do_test_a3 : A3Form → A3Form × Option TestArgs
do_test_a3 f =
    if not (check_ip (codes f.ip))
    then (says ("modal-error" ∷ []) "Please provide a valid A3 IP." f, none)
    else if str_eq f.pass ""
    then (says ("modal-error" ∷ []) "Please provide a valid password" f, none)
    else (
      says [] "Testing access now..." f,
      some record { ip = f.ip; pass = f.pass; name = f.name },
    )

pub test_succeeded : String → String → A3Form → A3Form
test_succeeded guid name f = record f {
  error_class = "modal-success" ∷ [];
  error = "Authentication succeeded";
  guid = guid;
  name = elim f.name [ none ↦ none | some old ↦ some name ];
  save_disabled = false;
}

pub test_failed : String → A3Form → A3Form
test_failed message f = says ("modal-error" ∷ []) message f

-- jQuery's `addClass`: a class is added that the line does not have
abbrev pub add_class : String → List String → List String
add_class cls classes = if any (str_eq cls) classes then classes else classes ++ cls ∷ []

abbrev adds : String → String → A3Form → A3Form
adds cls text f = record f { error_class = add_class cls f.error_class; error = text }

-- `doAddA3` up to the request
pub do_add_a3 : A3Form → A3Form × Option A3Args
do_add_a3 f =
    if str_eq f.ip ""
    then (adds "modal-error" "Error: Invalid address" f, none)
    else if str_eq f.pass ""
    then (adds "modal-error" "Error: Password cannot be blank" f, none)
    else if str_eq f.guid "0"
    then (adds "bg-error" "Error: please test the connection first" f, none)
    else (
      record f { loading = true },
      some record {
        action = if f.is_new then "a3/add" else "a3/edit";
        ip = f.ip;
        pass = f.pass;
        guid = f.guid;
        name = f.name;
        id = if f.is_new then none else some f.a3id;
      },
    )

-- what a save does besides the form
pub data After : Type 0 where
  hide_modal build_meta_caches list_a3s : After

pub add_succeeded : A3Form → A3Form × List After
add_succeeded f = (record f { loading = false }, hide_modal ∷ build_meta_caches ∷ list_a3s ∷ [])

pub add_failed : String → A3Form → A3Form × List After
add_failed message f =
    (record f { error_class = "modal-error" ∷ []; error = message; loading = false }, [])

-- the modal window as `drawEditA3Modal` builds it, new or for an A3
pub edit_form : Option (String × String × String) → A3Form
edit_form none = record {
  is_new = true;
  a3id = "";
  ip = "";
  pass = "";
  guid = "0";
  name = some "New A3";
  error_class = "modal-error" ∷ [];
  error = "";
  save_disabled = true;
  loading = false;
}
edit_form (some (id, ip, pass)) = record {
  is_new = false;
  a3id = id;
  ip = ip;
  pass = pass;
  guid = "0";
  name = none;
  error_class = "modal-error" ∷ [];
  error = "";
  save_disabled = true;
  loading = false;
}
