-- ===== src/Agents/Tests.antt =====
-- The theorems on agents at a concrete table.
use virexa_backend.Base.{ℕ, ◌≡◌, refl, ◌⊎◌, ◌≢◌, none, some, List, [], ◌∷◌, arith}
use virexa_backend.Base.Text.{codes}
use virexa_backend.Agents.{active, draft, AgentProjection, UpdateAgentInput}
use virexa_backend.Agents.Repository.{AgentRow, get_agent, update_agent}
use virexa_backend.Agents.Repository.Laws.{IsUpdated, update_agent_lem}

abbrev millis : ℕ → ℕ
millis t = t

abbrev row : ℕ → AgentRow
row id = record {
  id = id;
  organization_id = 4;
  created_by_user_id = 1;
  name = codes "triage";
  description = none;
  persona_id = none;
  branch_id = none;
  department_id = none;
  instructions = codes "sort the mail";
  status = draft;
  version = 3;
  created_at = 5;
  updated_at = 5;
}

abbrev rows : List AgentRow
rows = row 2 ∷ row 1 ∷ []

abbrev activation : UpdateAgentInput
activation = record {
  name = none;
  description = none;
  persona_id = none;
  branch_id = none;
  department_id = none;
  instructions = none;
  status = some active;
  expected_version = 3;
}

update_agent_lem_example :
    ((old w : AgentProjection) × (after : List AgentRow) × (update_agent millis 9 4 1 activation
          rows
        ≡ (some w, after))
      × (get_agent millis 4 1 rows ≡ some old)
      × (get_agent millis 4 1 after ≡ some w)
      × IsUpdated millis 9 activation old w
      × (update_agent millis 10 4 1 activation after ≡ (none, after)))
    ⊎ ((update_agent millis 9 4 1 activation rows ≡ (none, rows))
        × ((get_agent millis 4 1 rows ≡ none)
            ⊎ ((old : AgentProjection) × (get_agent millis 4 1 rows ≡ some old)
                × (old.version ≢ 3))))
update_agent_lem_example =
    update_agent_lem millis 4 1 9 10 rows activation activation (ground arith) refl
