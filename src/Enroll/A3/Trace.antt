-- ===== src/Enroll/A3/Trace.antt =====
-- The modal window of an A3 as a step relation: the user types and presses the buttons, and the
-- replies come in any order and at any time. `tests` and `saves` are the requests without a reply
-- yet; `passed` and `sent` record what has been.
use alike.Base.{String, List, [], ◌∷◌, ◌++◌, Option, some, none, ◌≡◌}
use alike.Enroll.A3.{
  A3Args, TestArgs, A3Form, do_test_a3, test_succeeded, test_failed, do_add_a3, add_succeeded,
  add_failed, edit_form,
}

pub record State : Type 0 where
  pub form : A3Form
  pub tests : List TestArgs
  -- the tests that succeeded, with the guid that came back
  pub passed : List (TestArgs × String)
  pub sent : List A3Args

abbrev pub add_some {ℓ} : {A : Type ℓ} → Option A → List A → List A
add_some none l = l
add_some (some a) l = a ∷ l

abbrev pub press_test : State → State
press_test s = record s {
  form = (do_test_a3 s.form).0;
  tests = add_some (do_test_a3 s.form).1 s.tests;
}

abbrev pub press_save : State → State
press_save s = record s { form = (do_add_a3 s.form).0; sent = add_some (do_add_a3 s.form).1 s.sent }

-- a test is answered: `before` and `behind` are the other requests that wait
pub data Step : State → State → Type 0 where
  types :
      (s : State) (ip pass : String)
      → Step s (record s { form = record s.form { ip = ip; pass = pass } })
  tests_it : (s : State) → Step s (press_test s)
  passes :
      (s : State) (before behind : List TestArgs) (t : TestArgs) (guid name : String)
      → s.tests ≡ before ++ t ∷ behind
      → Step s (record s {
        form = test_succeeded guid name s.form;
        tests = before ++ behind;
        passed = (t, guid) ∷ s.passed;
      })
  fails :
      (s : State) (before behind : List TestArgs) (t : TestArgs) (message : String)
      → s.tests ≡ before ++ t ∷ behind
      → Step s (record s { form = test_failed message s.form; tests = before ++ behind })
  saves_it : (s : State) → Step s (press_save s)
  saved : (s : State) → Step s (record s { form = (add_succeeded s.form).0 })
  not_saved :
      (s : State) (message : String) → Step s (record s { form = (add_failed message s.form).0 })

pub data Reach (s : State) : State → Type 0 where
  here : Reach s s
  next : {t u : State} → Reach s t → Step t u → Reach s u

abbrev pub opened : Option (String × String × String) → State
opened a3 = record { form = edit_form a3; tests = []; passed = []; sent = [] }
