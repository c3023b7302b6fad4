-- ===== src/Enroll/Host/Tests.antt =====
-- A Xen host that is tested, edited and saved twice.
use alike.Base.{List, ◌≡◌, refl, [], ◌∷◌, true, false, none, All, length}
use alike.Enroll.Host.{
  HostForm, is_xen, do_add_host, host_test_succeeded, host_test_failed, host_saved,
}
use alike.Enroll.Host.Sent.{
  Event, passes, fails, edits, saves_it, saved, run, opened_host, IsTested, do_add_host_lem,
}

abbrev xen_form : HostForm
xen_form = record {
  virt_type = 2;
  hostip = "10.0.0.9";
  hostpass = "secret";
  hostuser = "root";
  a3s = "1" ∷ [];
  is_new = true;
  hostguid = "";
  host_passed = 0;
  error_class = [];
  error = "";
  save_disabled = true;
  loading = false;
  tmp_hosts = none;
}

abbrev host_events : List Event
host_events =
    passes "[{}]"
    ∷ fails "timeout"
    ∷ edits "10.0.0.9" "other" "root" ("1" ∷ [])
    ∷ saves_it
    ∷ saved
    ∷ saves_it
    ∷ []

do_add_host_lem_example :
    All (IsTested (is_xen xen_form)) (run (opened_host xen_form) host_events).sent
do_add_host_lem_example = do_add_host_lem xen_form host_events refl

sent_test : length (run (opened_host xen_form) host_events).sent ≡ 1
unfolding run do_add_host host_test_succeeded host_test_failed host_saved
sent_test = refl
