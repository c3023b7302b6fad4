-- ===== src/Actions/Licensed.antt =====
-- Whether the box of a license shows what the service has.
use alike.Base.{ℕ, String, List, ◌∷◌, Bool, true, false, not, ◌≡◌, ◌≢◌, refl, ◌==◌, str_eq}
use alike.Actions.{
  Awaited, fulfilled, thrown, unsettled, Step, request, agent_license, host_license,
}

-- what the first request of the steps asks for
abbrev pub asked_agent : Bool → List (Step String) → Bool
asked_agent b (request call guid site ∷ steps) = str_eq call "agent/license"
asked_agent b steps = b

abbrev pub asked_host : Bool → List (Step (String × ℕ)) → Bool
asked_host b (request call (guid, license) site ∷ steps) = license == 1
asked_host b steps = b

-- the license that the service has afterwards: what was asked for, if it answered, or the one before
abbrev pub after : Awaited → Bool → Bool → Bool
after (fulfilled m) asked before = asked
after (thrown m) asked before = before
after unsettled asked before = before

-- A click on the box of a license that shows what the service has asks for the other license. Once
-- the request is settled, the box of an agent and that of a host show what the service has again,
-- if the service changes a license exactly when it answers.
pub license-after :
    (guid : String) (before : Bool) (w : Awaited)
    → w ≢ unsettled
    → ((agent_license guid (not before) w).0
        ≡ after w (asked_agent before (agent_license guid (not before) w).1) before)
      × ((host_license guid (not before) w).0
          ≡ after w (asked_host before (host_license guid (not before) w).1) before)
unfolding agent_license host_license
license-after guid true (fulfilled m) h = (refl, refl)
license-after guid false (fulfilled m) h = (refl, refl)
license-after guid true (thrown m) h = (refl, refl)
license-after guid false (thrown m) h = (refl, refl)
license-after guid before unsettled h = absurd (h refl)
