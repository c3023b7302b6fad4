-- ===== src/Enroll/Host.antt =====
-- webui/js/a3.js, `doTestHost` and `doAddHost`. The hosts that a test returns are kept as text under
-- "tmpHosts" until the host is saved. `none` there is a storage without the key, whose `JSON.parse`
-- is null; the other texts are the empty one that a save leaves, and what `JSON.stringify` makes of
-- the hosts of an answer, which is "undefined" for one without hosts: of these two `JSON.parse` throws.
pub mod Sent
mod Tests
use alike.Base.{
  ℕ, String, List, [], ◌∷◌, Bool, true, false, not, ◌&&◌, ◌||◌, Option, some, none, str_eq, any,
  ◌++◌, ◌==◌, if◌then◌else◌, codes,
}
use alike.Net.{check_ip}
use alike.Enroll.A3.{add_class}

pub record HostForm : Type 0 where
  pub virt_type : ℕ
  pub hostip : String
  pub hostpass : String
  pub hostuser : String
  pub a3s : List String
  pub is_new : Bool
  pub hostguid : String
  -- a hidden field
  pub host_passed : ℕ
  pub error_class : List String
  pub error : String
  pub save_disabled : Bool
  pub loading : Bool
  pub tmp_hosts : Option String

abbrev pub is_xen : HostForm → Bool
is_xen f = f.virt_type == 2

pub record HostTest : Type 0 where
  pub ip : String
  pub type : ℕ
  -- the user and the password, for a Xen host
  pub login : Option (String × String)

pub record HostArgs : Type 0 where
  pub action : String
  pub ip : String
  pub login : Option (String × String)
  pub a3s : List String
  pub host : Option String
  pub guid : Option String

abbrev pub host_says : List String → String → HostForm → HostForm
host_says classes text f = record f { error_class = classes; error = text }

abbrev pub login_of : HostForm → Option (String × String)
login_of f = if is_xen f then some (f.hostuser, f.hostpass) else none

-- up to the request, which goes to the first A3
pub do_test_host : HostForm → HostForm × Option (HostTest × String)
do_test_host f =
    if not (check_ip (codes f.hostip))
    then (host_says ("modal-error" ∷ []) "Please provide a valid IP address." f, none)
    else elim f.a3s [
      | [] ↦ (host_says ("modal-error" ∷ []) "Please select at least 1 A3" f, none)
      | a3 ∷ rest ↦
          if is_xen f && str_eq f.hostpass ""
          then (host_says ("modal-error" ∷ []) "Please provide a valid password" f, none)
          else if is_xen f && str_eq f.hostuser ""
          then (host_says ("modal-error" ∷ []) "Please provide a valid username" f, none)
          else (
            host_says [] "Testing access now..." f,
            some (record { ip = f.hostip; type = f.virt_type; login = login_of f }, a3),
          )
    ]

pub host_test_succeeded : String → HostForm → HostForm
host_test_succeeded hosts f = record f {
  tmp_hosts = some hosts;
  error_class = "modal-success" ∷ [];
  error = "Authentication succeeded";
  host_passed = 1;
  save_disabled = false;
}

pub host_test_failed : String → HostForm → HostForm
host_test_failed message f = host_says ("modal-error" ∷ []) message f

pub data Save : Type 0 where
  stops : HostForm → Save
  sends : HostForm → HostArgs → Save
  throws : Save

abbrev pub host_adds : String → HostForm → HostForm
host_adds text f = record f { error_class = add_class "modal-error" f.error_class; error = text }

abbrev pub host_args : HostForm → HostArgs
host_args f = record {
  action = if f.is_new then "host/add" else "host/edit";
  ip = f.hostip;
  login = login_of f;
  a3s = f.a3s;
  host = f.tmp_hosts;
  guid = if f.is_new then none else some f.hostguid;
}

abbrev pub is_json : Option String → Bool
is_json none = true
is_json (some t) = not (str_eq t "") && not (str_eq t "undefined")

-- up to the request; the second test of `host_passed` is never reached
pub do_add_host : HostForm → Save
do_add_host f =
    if not (f.host_passed == 1)
    then stops (host_adds "Please test the connection before saving." f)
    else if str_eq f.hostip ""
    then stops (host_adds "Error: Invalid address" f)
    else if is_xen f && str_eq f.hostpass ""
    then stops (host_adds "Error: Password cannot be blank" f)
    else if is_json f.tmp_hosts
    then sends (record f { loading = true }) (host_args f)
    else throws

-- what follows a save beside the form
pub data HostAfter : Type 0 where
  refresh_pools toast_added hide_modal list_hosts : HostAfter

pub host_saved : HostForm → HostForm × List HostAfter
host_saved f = (
  record f { tmp_hosts = some ""; loading = false },
  if f.is_new
      then refresh_pools ∷ toast_added ∷ hide_modal ∷ list_hosts ∷ []
      else toast_added ∷ hide_modal ∷ list_hosts ∷ [],
)

pub host_not_saved : String → HostForm → HostForm × List HostAfter
host_not_saved message f =
    (record (host_says ("modal-error" ∷ []) message f) { loading = false }, [])
