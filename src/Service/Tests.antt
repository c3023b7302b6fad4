-- ===== src/Service/Tests.antt =====
-- The theorems on the web service at a small storage and a late answer.
use alike.Base.{not, ◌||◌, some, none, ◌≡◌, str_eq, if◌then◌else◌}
use alike.Service.{Results, answered, is_expired, ws_call, ws_promise}
use alike.Service.Replies.{carried, effects_of, ws_call-ws_promise}

abbrev late : Results
late = record { result = "error"; message = "Authentication required" }

ws_call-ws_promise_example :
    (ws_call (some "showVMs") none (answered late)
      ≡ effects_of "showVMs" none (ws_promise (answered late)))
    × (carried (ws_promise (answered late))
        ≡ (if str_eq late.result "success" || not (is_expired late) then some late else none))
ws_call-ws_promise_example = ws_call-ws_promise "showVMs" none late
