-- ===== src/Enroll/Agent/Sent.antt =====
-- What is tested and what is sent for an agent.
use alike.Base.{
  ℕ, suc, String, List, [], ◌∷◌, Bool, true, false, ◌≡◌, ◌⊎◌, any, All, str_eq, codes,
  if◌then◌else◌,
}
use alike.Storage.{Storage}
use alike.Pools.{a3_cache}
use alike.Net.{check_ip}
use alike.Enroll.Agent.{AgentForm, AgentTest, AgentArgs, Event, saves_it, passes, Window}

abbrev pub is_passed : Event → Bool
is_passed passes = true
is_passed e = false

abbrev pub is_save : Event → Bool
is_save saves_it = true
is_save e = false

-- the clicks that save
abbrev pub saves : List Event → ℕ
saves [] = 0
saves (e ∷ es) = let more = saves es in if is_save e then suc more else more

-- an A3 with this id
abbrev pub is_known : Storage → String → Bool
is_known s id = any (λ a. str_eq a.id id) (a3_cache s)

abbrev pub opened : AgentForm → Window
opened f = record { form = f; tests = []; sent = [] }

abbrev pub IsChecked : Storage → AgentTest → Type 0
IsChecked s t = (check_ip (codes t.ip) ≡ true) × (is_known s t.a3 ≡ true)

abbrev pub IsAssigned : Storage → AgentArgs → Type 0
IsAssigned s a = is_known s a.a3 ≡ true

record Good (s : Storage) (w : Window) : Type 0 where
  form_known : is_known s w.form.a3id ≡ true
  choices : (w.form.choices ≡ []) ⊎ (w.form.choices ≡ a3_cache s)
  tests_checked : All (IsChecked s) w.tests
  sent_assigned : All (IsAssigned s) w.sent
