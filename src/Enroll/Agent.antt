-- ===== src/Enroll/Agent.antt =====
-- webui/js/a3.js, `drawAddAgentModel`, `doTestAgent` and `addAgentCallback`, and the handlers of
-- "#testAgent" and "#add-agent-save" in webui/js/events.js. The window has no "#host-passed", which
-- a test that passes writes to. What the browser does with the form itself is left out.
pub mod Sent
mod Tests
use alike.Base.{
  ℕ, String, List, [], ◌∷◌, ◌++◌, Bool, true, false, not, Option, some, none, str_eq, any,
  if◌then◌else◌, codes,
}
use alike.Storage.{A3, Storage}
use alike.Pools.{a3_cache}
use alike.Net.{check_ip}

pub record AgentForm : Type 0 where
  pub ip : String
  -- the hidden field or the choice
  pub a3id : String
  -- the A3s of the choice; none in a window without it
  pub choices : List A3
  pub error_class : List String
  pub error : String
  pub save_disabled : Bool
  pub is_shown : Bool

unfoldable pub agent_form : A3 → List A3 → AgentForm
agent_form a choices = record {
  ip = "";
  a3id = a.id;
  choices = choices;
  error_class = "modal-error" ∷ [];
  error = "";
  save_disabled = true;
  is_shown = true;
}

-- `none` where it throws; a browser chooses the first of the options
unfoldable pub form_for : List A3 → Option AgentForm
unfolding agent_form
form_for [] = none
form_for (a ∷ []) = some (agent_form a [])
form_for (a ∷ b ∷ rest) = some (agent_form a (a ∷ b ∷ rest))

unfoldable pub draw_add_agent_model : Storage → Option AgentForm
unfolding form_for
draw_add_agent_model s = form_for (a3_cache s)

-- "testAgent" for an A3
pub record AgentTest : Type 0 where
  pub ip : String
  pub virt_type : ℕ
  pub a3 : String

-- "agent-register" for an A3
pub record AgentArgs : Type 0 where
  pub ip : String
  pub a3 : String

unfoldable pub agent_says : List String → String → AgentForm → AgentForm
agent_says classes text f = record f { error_class = classes; error = text }

-- up to the request
unfoldable pub do_test_agent : AgentForm → AgentForm × Option AgentTest
unfolding agent_says
do_test_agent f =
    if not (check_ip (codes f.ip))
    then (agent_says ("modal-error" ∷ []) "Please provide a valid IP address." f, none)
    else (
      agent_says [] "Testing access now..." f,
      some (record { ip = f.ip; virt_type = 10; a3 = f.a3id }),
    )

unfoldable pub agent_test_succeeded : AgentForm → AgentForm
unfolding agent_says
agent_test_succeeded f = record (agent_says ("modal-success" ∷ []) "Authentication succeeded" f) {
  save_disabled = false;
}

unfoldable pub agent_test_failed : String → AgentForm → AgentForm
unfolding agent_says
agent_test_failed message f = agent_says ("modal-error" ∷ []) message f

unfoldable pub add_agent_save : AgentForm → AgentArgs
add_agent_save f = record { ip = f.ip; a3 = f.a3id }

pub data AgentAfter : Type 0 where
  list_agents : AgentAfter
  toast : String → AgentAfter

unfoldable pub add_agent_callback : Bool → String → AgentForm → AgentForm × AgentAfter
unfolding agent_says
add_agent_callback true message f =
    (record (agent_says [] message f) { is_shown = false }, list_agents)
add_agent_callback false message f = (agent_says [] message f, toast message)

-- what can happen to the window: to type an address, to choose an A3, to click on one of the two
-- buttons, and the replies
pub data Event : Type 0 where
  types chooses : String → Event
  tests_it saves_it passes : Event
  fails : String → Event
  replies : Bool → String → Event

pub record Window : Type 0 where
  pub form : AgentForm
  pub tests : List AgentTest
  pub sent : List AgentArgs

unfoldable pub add_test : Option AgentTest → List AgentTest → List AgentTest
add_test none l = l
add_test (some t) l = t ∷ l

unfoldable pub step : Window → Event → Window
unfolding add_test
step w (types ip) = record w { form = record w.form { ip = ip } }
step w (chooses id) =
    if any (λ a. str_eq a.id id) w.form.choices
    then record w { form = record w.form { a3id = id } }
    else w
step w tests_it =
    let r = do_test_agent w.form in record w { form = r.0; tests = add_test r.1 w.tests }
step w saves_it = record w { sent = add_agent_save w.form ∷ w.sent }
step w passes = record w { form = agent_test_succeeded w.form }
step w (fails message) = record w { form = agent_test_failed message w.form }
step w (replies ok message) = record w { form = (add_agent_callback ok message w.form).0 }

unfoldable pub run : Window → List Event → Window
unfolding step
run w [] = w
run w (e ∷ es) = run (step w e) es
