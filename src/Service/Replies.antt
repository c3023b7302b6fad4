-- ===== src/Service/Replies.antt =====
-- The two ways to call the web service handle its answers alike.
use alike.Base.{
  String, List, [], ◌∷◌, not, ◌||◌, Option, some, none, ◌≡◌, refl, str_eq, if◌then◌else◌,
  Bool-cases, inl, inr,
}
use alike.Service.{
  Results, answered, failed, Effect, call_back, is_expired, ws_call, Settled, resolved, rejected,
  rejected_error, pending, ws_promise,
}

-- the answer that a settled promise carries
abbrev pub carried : Settled → Option Results
carried (resolved r) = some r
carried (rejected r) = some r
carried (rejected_error e) = none
carried (pending l) = none

-- the effects of a call with this callback, for a promise that is settled so
abbrev pub effects_of : String → Option String → Settled → List Effect
effects_of f param (resolved r) = call_back f r param ∷ []
effects_of f param (rejected r) = call_back f r param ∷ []
effects_of f param (rejected_error e) = ws_call (some f) param (failed e)
effects_of f param (pending l) = l

-- A call with a callback calls it once, with the answer, exactly if the promise of the same call
-- is settled with the answer: that is if the answer is a success or the session has not expired.
-- In the other case both show the same toast and load the page again, and the promise stays
-- pending.
pub ws_call-ws_promise :
    (f : String) (param : Option String) (r : Results)
    → (ws_call (some f) param (answered r) ≡ effects_of f param (ws_promise (answered r)))
      × (carried (ws_promise (answered r))
          ≡ (if str_eq r.result "success" || not (is_expired r) then some r else none))
unfolding ws_call ws_promise
ws_call-ws_promise f param r = elim (Bool-cases (str_eq r.result "success")) [
  | inl good ↦ rw (good, ws_call, ws_promise) (refl, refl)
  | inr bad ↦ elim (Bool-cases (is_expired r)) [
    | inl e ↦ rw (bad, e, ws_call, ws_promise) (refl, refl)
    | inr e ↦ rw (bad, e, ws_call, ws_promise) (refl, refl)
  ]
]
