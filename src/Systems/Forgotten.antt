-- ===== src/Systems/Forgotten.antt =====
-- Which agents can be forgotten.
use alike.Base.{
  ℕ, String, List, [], ◌∷◌, ◌++◌, map, Bool, true, false, Option, ◌==◌, ◌≡◌, refl, ap, ◌∙◌,
  if◌then◌else◌, filter, str_eq, Bool-cases, Option-cases, inl, inr, arith,
}
use alike.Actions.{
  Awaited, fulfilled, thrown, unsettled, Step, show_line_load, finish_line_load, remove_row,
  request, list_licenses, toast, agent_delete,
}
use alike.Systems.{
  System, AgentRow, table, guid_of, filled, agent_row, draw_agents_table, press_forget,
}

-- the guid, or the uuid where there is none
abbrev pub id_of : System → String
id_of r = if str_eq r.guid "" then r.uuid else r.guid

-- the requests among the steps: the call, the id, and to whom it goes
abbrev pub requests : List (Step String) → List (String × String × String)
requests [] = []
requests (request call guid site ∷ steps) = (call, guid, site) ∷ requests steps
requests (show_line_load ∷ steps) = requests steps
requests (finish_line_load ∷ steps) = requests steps
requests (remove_row ∷ steps) = requests steps
requests (list_licenses ∷ steps) = requests steps
requests (toast m t k ∷ steps) = requests steps

-- one after another
abbrev pub concat {ℓ} : {A : Type ℓ} → List (List A) → List A
concat [] = []
concat (l ∷ ls) = l ++ concat ls

abbrev pub has_none : System → Bool
has_none r = r.last_job_result == 0

unconfirmed : (x : AgentRow) (w : Awaited) → press_forget x false w ≡ []
unfolding press_forget
unconfirmed x w = elim (Option-cases x.forget) [
  | inl e ↦ rw (e, press_forget)
  | inr (g, e) ↦ rw (e, press_forget)
]

module _ (text : String → String) (now : ℕ) (parse : String → Option (String × ℕ)) where
  abbrev row : System → AgentRow
  row = agent_row text now parse

  forget_lem :
      (r : System) (w : Awaited)
      → press_forget (row r) true w ≡ (if has_none r then agent_delete (guid_of r) w else [])
  unfolding press_forget agent_row
  forget_lem r w = ground arith

  delete_lem :
      (r : System) (w : Awaited)
      → requests (agent_delete (guid_of r) w) ≡ ("agent/delete", id_of r, "0") ∷ []
  unfolding agent_delete guid_of
  delete_lem r (fulfilled m) = refl
  delete_lem r (thrown m) = refl
  delete_lem r unsettled = refl

  rows-forgotten :
      (rs : List System) (w : Awaited)
      → concat (map (λ (x : AgentRow). requests (press_forget x true w)) (map row rs))
        ≡ map (λ r. ("agent/delete", id_of r, "0")) (filter has_none rs)
  rows-forgotten [] w = refl
  rows-forgotten (r ∷ rs) w =
      ap
        (λ k.
          requests k
          ++ concat (map (λ (x : AgentRow). requests (press_forget x true w)) (map row rs)))
        (forget_lem r w)
      ∙ (elim (Bool-cases (has_none r)) [
        | inl e ↦
            rw (e, delete_lem r w)
              (ap (λ l. ("agent/delete", id_of r, "0") ∷ l) (rows-forgotten rs w))
        | inr e ↦ rw e (rows-forgotten rs w)
      ])

  -- If there is an agent, the agents are drawn as a table with a row for each. What the icons that
  -- forget them request, all clicked and confirmed, are the deletions of those agents that have no
  -- backups, each by its guid, or its uuid where it has none, of the manager; what is not confirmed
  -- requests nothing.
  pub draw_agents_table-forgotten :
      (r : System) (rs : List System) (w : Awaited)
      → (rows : List AgentRow) × (draw_agents_table text now parse (r ∷ rs) ≡ table rows)
        × (map (λ (x : AgentRow). x.guid) rows ≡ map id_of (r ∷ rs))
        × (concat (map (λ (x : AgentRow). requests (press_forget x true w)) rows)
            ≡ map (λ x. ("agent/delete", id_of x, "0")) (filter has_none (r ∷ rs)))
        × ((x : AgentRow) → press_forget x false w ≡ [])
  unfolding draw_agents_table filled agent_row guid_of
  draw_agents_table-forgotten r rs w =
      (map row (r ∷ rs), refl, guids (r ∷ rs), rows-forgotten (r ∷ rs) w, λ x. unconfirmed x w)
    where
      guids : (l : List System) → map (λ (x : AgentRow). x.guid) (map row l) ≡ map id_of l
      guids [] = refl
      guids (x ∷ l) = ap (λ k. id_of x ∷ k) (guids l)
