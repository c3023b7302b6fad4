-- ===== src/Enroll/Agent/Tests.antt =====
-- A window with two A3s, and an agent that is tested, sent, edited and sent again.
use alike.Base.{[], ◌∷◌, List, true}
use alike.Storage.{Storage, a3s}
use alike.Enroll.Agent.{
  AgentForm, agent_form, Event, types, chooses, tests_it, saves_it, passes, replies,
}

abbrev east_and_west : Storage
east_and_west =
    (
      "a3Cache",
      a3s (
          record { id = "1"; guid = "g1"; name = "East" }
          ∷ record { id = "2"; guid = "g2"; name = "West" }
          ∷ []),
    )
    ∷ []

abbrev drawn : AgentForm
unfolding agent_form
drawn =
    agent_form (record { id = "1"; guid = "g1"; name = "East" })
      (record { id = "1"; guid = "g1"; name = "East" }
        ∷ record { id = "2"; guid = "g2"; name = "West" }
        ∷ [])

abbrev clicks : List Event
clicks =
    types "10.0.0.7"
    ∷ chooses "2"
    ∷ saves_it
    ∷ tests_it
    ∷ passes
    ∷ types "nowhere"
    ∷ tests_it
    ∷ saves_it
    ∷ replies true "ok"
    ∷ []
