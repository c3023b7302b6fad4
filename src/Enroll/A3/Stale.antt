-- ===== src/Enroll/A3/Stale.antt =====
-- A test vouches for a guid and not for the fields that are saved with it.
use alike.Base.{String, [], ◌∷◌, true, Option, some, none, ◌≡◌, ◌≢◌, refl, arith, ap, eq_iff, codes}
use alike.Net.{check_ip}
use alike.Enroll.A3.{A3Form, do_test_a3, do_add_a3, test_succeeded, edit_form}
use alike.Enroll.A3.Trace.{
  State, types, tests_it, passes, saves_it, Reach, here, next, opened, press_test, press_save,
  add_some,
}

tested :
    (f : A3Form)
    → check_ip (codes f.ip) ≡ true
    → f.pass ≢ ""
    → do_test_a3 f ≡ (
      record f { error_class = []; error = "Testing access now..." },
      some record { ip = f.ip; pass = f.pass; name = f.name },
    )
unfolding do_test_a3
tested f valid given = ground (arith, eq_iff f.pass "")

kept_new : (f : A3Form) → (do_test_a3 f).0.is_new ≡ f.is_new
unfolding do_test_a3
kept_new f = ground arith

saved_args :
    (f : A3Form) (name : Option String)
    → f.name ≡ name
    → f.is_new ≡ true
    → f.ip ≢ ""
    → f.pass ≢ ""
    → f.guid ≢ "0"
    → (do_add_a3 f).1
      ≡ some record {
        action = "a3/add";
        ip = f.ip;
        pass = f.pass;
        guid = f.guid;
        name = name;
        id = none;
      }
unfolding do_add_a3
saved_args f name named new ip pass guid =
    ground (arith, eq_iff f.ip "", eq_iff f.pass "", eq_iff f.guid "0")

abbrev typed : String → String → State → State
typed ip pass s = record s { form = record s.form { ip = ip; pass = pass } }

abbrev asked : String → String → State
asked ip pass = press_test (typed ip pass (opened none))

abbrev answered : String → String → String → String → State
answered ip pass guid name = record (asked ip pass) {
  form = test_succeeded guid name (asked ip pass).form;
  tests = [];
  passed = (record { ip = ip; pass = pass; name = some "New A3" }, guid) ∷ [];
}

answered_name : (ip pass guid name : String) → (answered ip pass guid name).form.name ≡ some name
unfolding edit_form test_succeeded do_test_a3
answered_name ip pass guid name = ground (arith)

-- A window in which one address was tested, and nothing else, can send another address and
-- another password with the guid of the first.
pub do_add_a3-untested :
    (ip pass guid name other_ip other_pass : String)
    → check_ip (codes ip) ≡ true
    → pass ≢ ""
    → guid ≢ "0"
    → other_ip ≢ ""
    → other_pass ≢ ""
    → (s : State) × Reach (opened none) s
      × (s.passed ≡ (record { ip = ip; pass = pass; name = some "New A3" }, guid) ∷ [])
      × (s.sent
          ≡ record {
            action = "a3/add";
            ip = other_ip;
            pass = other_pass;
            guid = guid;
            name = some name;
            id = none;
          }
            ∷ [])
unfolding edit_form test_succeeded
do_add_a3-untested ip pass guid name other_ip other_pass valid given known other_given pass_given =
    (
      press_save (typed other_ip other_pass (answered ip pass guid name)),
      next
          (next
            (next (next (next here (types (opened none) ip pass)) (tests_it _)) (
              passes (asked ip pass) [] [] record { ip = ip; pass = pass; name = some "New A3" }
                guid name (rw (tested (typed ip pass (opened none)).form valid given) refl)))
            (types _ other_ip other_pass))
          (saves_it _),
      refl,
      ap (λ o. add_some o [])
          (saved_args _ (some name) (answered_name ip pass guid name)
            (kept_new (typed ip pass (opened none)).form) other_given pass_given known),
    )
