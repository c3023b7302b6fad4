-- ===== src/Systems/Tests.antt =====
-- An agent with backups and one without.
use alike.Base.{ℕ, String, List, [], ◌∷◌, map, pos, true, false, Option, some, ◌≡◌, filter}
use alike.Status.Value.{num}
use alike.Actions.{Awaited, fulfilled}
use alike.Systems.{System, AgentRow, table, draw_agents_table, press_forget}
use alike.Systems.Forgotten.{concat, id_of, requests, has_none, draw_agents_table-forgotten}

abbrev kept : System
kept = record {
  type = num (pos 10);
  auth_profile = some "profile";
  host_uuid = some "";
  uuid = "u1";
  guid = "g1";
  pool_id = "";
  a3id = "1";
  a3_name = "East";
  power_state = num (pos 2);
  name = "web";
  last_job_result = 3;
  total_size = 4096;
}

abbrev others : List System
others = record kept { uuid = "u2"; guid = ""; last_job_result = 0; total_size = 0 } ∷ []

abbrev parse : String → Option (String × ℕ)
parse t = some ("7.5", 1715166300)

abbrev done : Awaited
done = fulfilled (some "Agent removed")

draw_agents_table-forgotten_example :
    (rows : List AgentRow) × (draw_agents_table (λ t. t) 1715166360 parse (kept ∷ others)
      ≡ table rows)
    × (map (λ (x : AgentRow). x.guid) rows ≡ map id_of (kept ∷ others))
    × (concat (map (λ (x : AgentRow). requests (press_forget x true done)) rows)
        ≡ map (λ x. ("agent/delete", id_of x, "0")) (filter has_none (kept ∷ others)))
    × ((x : AgentRow) → press_forget x false done ≡ [])
draw_agents_table-forgotten_example =
    draw_agents_table-forgotten (λ t. t) 1715166360 parse kept others done
