-- ===== src/Enroll/A3/Safety.antt =====
-- What is sent for an A3, in every state that the modal window can reach.
use alike.Base.{
  String, List, [], ◌∷◌, ◌++◌, Bool, true, Option, some, none, ◌≡◌, ◌⊎◌, inl, inr, refl, arith, any,
  All, str_eq, eq_iff, codes, Bool-cases,
}
use alike.Net.{check_ip}
use alike.Enroll.A3.{
  A3Args, TestArgs, A3Form, do_test_a3, do_add_a3, test_succeeded, test_failed, add_succeeded,
  add_failed, edit_form,
}
use alike.Enroll.A3.Trace.{
  State, Step, types, tests_it, passes, fails, saves_it, saved, not_saved, Reach, here, next,
  opened, add_some,
}

-- a test that succeeded has returned this guid
abbrev pub vouched : List (TestArgs × String) → String → Bool
vouched passed guid = any (λ p. str_eq p.1 guid) passed

abbrev pub IsVouched : List (TestArgs × String) → A3Args → Type 0
IsVouched passed a = vouched passed a.guid ≡ true

abbrev pub IsValid : TestArgs → Type 0
IsValid t = check_ip (codes t.ip) ≡ true

-- The guid of the form is "0" or comes from a test that succeeded, every guid that was sent comes
-- from one, and every address that was tested is one.
pub record Inv (s : State) : Type 0 where
  pub form_vouched : (s.form.guid ≡ "0") ⊎ (vouched s.passed s.form.guid ≡ true)
  pub sent_vouched : All (IsVouched s.passed) s.sent
  pub tests_valid : All IsValid s.tests
  pub passed_valid : All (λ p. IsValid p.0) s.passed

still-IsVouched :
    (p : TestArgs × String) (passed : List (TestArgs × String)) (sent : List A3Args)
    → All (IsVouched passed) sent
    → All (IsVouched (p ∷ passed)) sent
still-IsVouched p passed [] h = tt
still-IsVouched p passed (a ∷ sent) h = (ground arith, still-IsVouched p passed sent h.1)

do_test_a3-guid : (f : A3Form) → (do_test_a3 f).0.guid ≡ f.guid
unfolding do_test_a3
do_test_a3-guid f = ground arith

do_test_a3-IsValid :
    (f : A3Form) (l : List TestArgs) → All IsValid l → All IsValid (add_some (do_test_a3 f).1 l)
unfolding do_test_a3
do_test_a3-IsValid f l h = elim (Bool-cases (check_ip (codes f.ip))) [
  | inr invalid ↦ rw (invalid, do_test_a3) h
  | inl valid ↦ elim (Bool-cases (str_eq f.pass "")) [
    | inl blank ↦ rw (valid, blank, do_test_a3) h
    | inr given ↦ rw (valid, given, do_test_a3) (valid, h)
  ]
]

do_add_a3-guid : (f : A3Form) → (do_add_a3 f).0.guid ≡ f.guid
unfolding do_add_a3
do_add_a3-guid f = ground arith

do_add_a3-IsVouched :
    (f : A3Form) (passed : List (TestArgs × String)) (l : List A3Args)
    → (f.guid ≡ "0") ⊎ (vouched passed f.guid ≡ true)
    → All (IsVouched passed) l
    → All (IsVouched passed) (add_some (do_add_a3 f).1 l)
unfolding do_add_a3
do_add_a3-IsVouched f passed l v h = elim (Bool-cases (str_eq f.ip "")) [
  | inl blank ↦ rw (blank, do_add_a3) h
  | inr given ↦ elim (Bool-cases (str_eq f.pass "")) [
    | inl open_pass ↦ rw (given, open_pass, do_add_a3) h
    | inr pass ↦ elim (Bool-cases (str_eq f.guid "0")) [
      | inl untested ↦ rw (given, pass, untested, do_add_a3) h
      | inr tested ↦ rw (given, pass, tested, do_add_a3) (ground (arith, eq_iff f.guid "0"), h)
    ]
  ]
]

-- a request taken out of the middle
without_middle :
    (before behind : List TestArgs) (t : TestArgs)
    → All IsValid (before ++ t ∷ behind)
    → IsValid t × All IsValid (before ++ behind)
without_middle [] behind t h = h
without_middle (x ∷ before) behind t (hx, h) =
    let (ht, rest) = without_middle before behind t h in (ht, (hx, rest))

Step-Inv : {s u : State} → Step s u → Inv s → Inv u
unfolding test_succeeded test_failed add_succeeded add_failed
Step-Inv (types s ip pass) i = record {
  form_vouched = i.form_vouched;
  sent_vouched = i.sent_vouched;
  tests_valid = i.tests_valid;
  passed_valid = i.passed_valid;
}
Step-Inv (tests_it s) i = record {
  form_vouched = rw (do_test_a3-guid s.form) i.form_vouched;
  sent_vouched = i.sent_vouched;
  tests_valid = do_test_a3-IsValid s.form s.tests i.tests_valid;
  passed_valid = i.passed_valid;
}
Step-Inv (passes s before behind t guid name e) i =
    let (valid, rest) = without_middle before behind t (rw (← e) i.tests_valid) in
    record {
      form_vouched = inr (ground (arith, eq_iff guid guid));
      sent_vouched = still-IsVouched (t, guid) s.passed s.sent i.sent_vouched;
      tests_valid = rest;
      passed_valid = (valid, i.passed_valid);
    }
Step-Inv (fails s before behind t message e) i = record {
  form_vouched = i.form_vouched;
  sent_vouched = i.sent_vouched;
  tests_valid = (without_middle before behind t (rw (← e) i.tests_valid)).1;
  passed_valid = i.passed_valid;
}
Step-Inv (saves_it s) i = record {
  form_vouched = rw (do_add_a3-guid s.form) i.form_vouched;
  sent_vouched = do_add_a3-IsVouched s.form s.passed s.sent i.form_vouched i.sent_vouched;
  tests_valid = i.tests_valid;
  passed_valid = i.passed_valid;
}
Step-Inv (saved s) i = record {
  form_vouched = i.form_vouched;
  sent_vouched = i.sent_vouched;
  tests_valid = i.tests_valid;
  passed_valid = i.passed_valid;
}
Step-Inv (not_saved s message) i = record {
  form_vouched = i.form_vouched;
  sent_vouched = i.sent_vouched;
  tests_valid = i.tests_valid;
  passed_valid = i.passed_valid;
}

opened-Inv : (a3 : Option (String × String × String)) → Inv (opened a3)
unfolding edit_form
opened-Inv none = record {
  form_vouched = inl refl;
  sent_vouched = tt;
  tests_valid = tt;
  passed_valid = tt;
}
opened-Inv (some a3) = record {
  form_vouched = inl refl;
  sent_vouched = tt;
  tests_valid = tt;
  passed_valid = tt;
}

Reach-Inv : {s u : State} → Reach s u → Inv s → Inv u
Reach-Inv here i = i
Reach-Inv (next r st) i = Step-Inv st (Reach-Inv r i)

-- In every state that the window reaches, whatever is typed and whenever the replies come: each
-- A3 that was sent to be saved has a guid that a successful test returned, and only valid
-- addresses have been tested.
pub Reach-IsVouched :
    (a3 : Option (String × String × String)) (s : State)
    → Reach (opened a3) s
    → All (IsVouched s.passed) s.sent × All (λ p. IsValid p.0) s.passed
Reach-IsVouched a3 s r = let i = Reach-Inv r (opened-Inv a3) in (i.sent_vouched, i.passed_valid)
