-- ===== src/Enroll/Host/Sent.antt =====
-- When a host is sent.
use alike.Base.{
  String, List, [], ◌∷◌, Bool, true, false, ◌&&◌, Option, some, none, ◌≡◌, ◌≢◌, ◌⊎◌, inl, inr, refl,
  arith, str_eq, eq_iff, All, Bool-cases, ◌==◌,
}
use alike.Enroll.Host.{
  HostForm, is_xen, HostArgs, do_test_host, host_test_succeeded, host_test_failed, Save, stops,
  sends, throws, host_args, is_json, do_add_host, host_saved, host_not_saved, host_adds,
}

-- what happens to the window: to edit its fields and the chosen A3s, to click on one of its buttons,
-- and the replies; the text of a test is what is kept of its hosts
pub data Event : Type 0 where
  edits : String → String → String → List String → Event
  tests_it saves_it saved : Event
  passes fails not_saved : String → Event

-- a host that was sent, with the hosts of the last test that had passed then in this window
pub record Sent : Type 0 where
  pub args : HostArgs
  pub tested : Option String

pub record Window : Type 0 where
  pub form : HostForm
  pub tested : Option String
  pub sent : List Sent

unfoldable pub after_save : Window → Save → Window
after_save w (stops f) = record w { form = f }
after_save w throws = w
after_save w (sends f a) = record {
  form = f;
  tested = w.tested;
  sent = record { args = a; tested = w.tested } ∷ w.sent;
}

unfoldable pub step : Window → Event → Window
unfolding after_save
step w (edits ip pass user a3s) = record w {
  form = record w.form { hostip = ip; hostpass = pass; hostuser = user; a3s = a3s };
}
step w tests_it = record w { form = (do_test_host w.form).0 }
step w (passes hosts) = record w { form = host_test_succeeded hosts w.form; tested = some hosts }
step w (fails message) = record w { form = host_test_failed message w.form }
step w saves_it = after_save w (do_add_host w.form)
step w saved = record w { form = (host_saved w.form).0 }
step w (not_saved message) = record w { form = (host_not_saved message w.form).0 }

unfoldable pub run : Window → List Event → Window
unfolding step
run w [] = w
run w (e ∷ es) = run (step w e) es

abbrev pub is_tested : Option String → Bool
is_tested none = false
is_tested (some hosts) = true

-- a Xen host with an empty password
abbrev pub is_open : Bool → Option (String × String) → Bool
is_open xen none = xen
is_open xen (some (user, pass)) = xen && str_eq pass ""

abbrev pub IsTested : Bool → Sent → Type 0
IsTested xen x =
    (is_tested x.tested ≡ true)
    × (x.args.host ≡ x.tested)
    × (x.args.ip ≢ "")
    × (is_open xen x.args.login ≡ false)

-- the hidden field is set only behind a test that passed, and what is kept then is what that test
-- returned, or is the empty text of a save
record Inv (xen : Bool) (w : Window) : Type 0 where
  same_type : is_xen w.form ≡ xen
  passed :
      ((w.form.host_passed == 1) ≡ false)
      ⊎ ((is_tested w.tested ≡ true)
          × ((w.form.tmp_hosts ≡ w.tested) ⊎ (w.form.tmp_hosts ≡ some "")))
  sent_tested : All (IsTested xen) w.sent

-- the parts of the form that the invariant reads
abbrev Kept : HostForm → HostForm → Type 0
Kept f g =
    (g.virt_type ≡ f.virt_type) × (g.host_passed ≡ f.host_passed) × (g.tmp_hosts ≡ f.tmp_hosts)

do_test_host-Kept : (f : HostForm) → Kept f (do_test_host f).0
unfolding do_test_host
do_test_host-Kept f = (ground arith, ground arith, ground arith)

Kept-Inv :
    (xen : Bool) (w : Window) (g : HostForm)
    → Kept w.form g
    → Inv xen w
    → Inv xen (record w { form = g })
Kept-Inv xen w g (type, passed, hosts) i = record {
  same_type = rw type i.same_type;
  passed = rw (passed, hosts) i.passed;
  sent_tested = i.sent_tested;
}

-- a save stops or throws, or sends what has passed all its tests
sends_lem :
    (f : HostForm)
    → ((g : HostForm) × (do_add_host f ≡ stops g) × Kept f g)
      ⊎ ((do_add_host f ≡ throws)
          ⊎ ((do_add_host f ≡ sends (record f { loading = true }) (host_args f))
              × ((f.host_passed == 1) ≡ true)
              × (str_eq f.hostip "" ≡ false)
              × ((is_xen f && str_eq f.hostpass "") ≡ false)
              × (is_json f.tmp_hosts ≡ true)))
unfolding do_add_host
sends_lem f = elim (Bool-cases (f.host_passed == 1)) [
  | inr e ↦ inl (
    host_adds "Please test the connection before saving." f,
    rw (e, do_add_host) refl,
    (refl, refl, refl),
  )
  | inl e ↦ elim (Bool-cases (str_eq f.hostip "")) [
    | inl k ↦
        inl (host_adds "Error: Invalid address" f, rw (e, k, do_add_host) refl, (refl, refl, refl))
    | inr k ↦ elim (Bool-cases (is_xen f && str_eq f.hostpass "")) [
      | inl m ↦ inl (
        host_adds "Error: Password cannot be blank" f,
        rw (e, k, m, do_add_host) refl,
        (refl, refl, refl),
      )
      | inr m ↦ elim (Bool-cases (is_json f.tmp_hosts)) [
        | inr n ↦ inr (inl (rw (e, k, m, n, do_add_host) refl))
        | inl n ↦ inr (inr (rw (e, k, m, n, do_add_host) refl, e, k, m, n))
      ]
    ]
  ]
]

tested_args :
    (xen : Bool) (w : Window)
    → Inv xen w
    → (w.form.host_passed == 1) ≡ true
    → str_eq w.form.hostip "" ≡ false
    → (is_xen w.form && str_eq w.form.hostpass "") ≡ false
    → is_json w.form.tmp_hosts ≡ true
    → IsTested xen (record { args = host_args w.form; tested = w.tested })
tested_args xen w i e k m n = elim i.passed [
  | inl unset ↦ absurd (ground (arith, e, unset))
  | inr (tested, inr blank) ↦ absurd (ground (arith, n, blank))
  | inr (tested, inl same) ↦ (
    tested,
    same,
    λ empty. ground (arith, eq_iff w.form.hostip "", k, empty),
    rw (← i.same_type) (ground (arith, m)),
  )
]

saves-Inv : (xen : Bool) (w : Window) → Inv xen w → Inv xen (step w saves_it)
unfolding step after_save
saves-Inv xen w i = elim (sends_lem w.form) [
  | inl (g, e, kept) ↦ rw (step, e, after_save) (Kept-Inv xen w g kept i)
  | inr (inl e) ↦ rw (step, e, after_save) i
  | inr (inr (e, passed, ip, pass, json)) ↦
      rw (step, e, after_save)
        (record {
          same_type = i.same_type;
          passed = i.passed;
          sent_tested = (tested_args xen w i passed ip pass json, i.sent_tested);
        })
]

saved-Inv : (xen : Bool) (w : Window) → Inv xen w → Inv xen (step w saved)
unfolding step host_saved
saved-Inv xen w i = record {
  same_type = i.same_type;
  passed = elim i.passed [ inl unset ↦ inl unset | inr (tested, h) ↦ inr (tested, inr refl) ];
  sent_tested = i.sent_tested;
}

step-Inv : (xen : Bool) (w : Window) (e : Event) → Inv xen w → Inv xen (step w e)
unfolding step host_test_failed host_not_saved host_test_succeeded
step-Inv xen w (edits ip pass user a3s) i = Kept-Inv xen w _ (refl, refl, refl) i
step-Inv xen w tests_it i = Kept-Inv xen w _ (do_test_host-Kept w.form) i
step-Inv xen w (passes hosts) i = record {
  same_type = i.same_type;
  passed = inr (refl, inl refl);
  sent_tested = i.sent_tested;
}
step-Inv xen w (fails message) i = Kept-Inv xen w _ (refl, refl, refl) i
step-Inv xen w saves_it i = saves-Inv xen w i
step-Inv xen w saved i = saved-Inv xen w i
step-Inv xen w (not_saved message) i = Kept-Inv xen w _ (refl, refl, refl) i

run-Inv : (xen : Bool) (w : Window) (es : List Event) → Inv xen w → Inv xen (run w es)
unfolding run
run-Inv xen w [] i = i
run-Inv xen w (e ∷ es) i = run-Inv xen (step w e) es (step-Inv xen w e i)

abbrev pub opened_host : HostForm → Window
opened_host f = record { form = f; tested = none; sent = [] }

-- In a window of a host in which no test has passed yet, whatever is typed and clicked and whenever the
-- replies come, and whatever another window has left in the storage: each host that is sent is sent
-- behind a test that has passed in this window, with the hosts that the last such test returned, with
-- an address that is not empty and, for a Xen host, with a password that is not empty. The address
-- may have been edited since.
pub do_add_host_lem :
    (f : HostForm) (es : List Event)
    → (f.host_passed == 1) ≡ false
    → All (IsTested (is_xen f)) (run (opened_host f) es).sent
do_add_host_lem f es fresh =
    (run-Inv (is_xen f) (opened_host f) es
      (record { same_type = refl; passed = inl fresh; sent_tested = tt })).sent_tested
