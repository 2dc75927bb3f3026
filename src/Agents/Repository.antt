-- ===== src/Agents/Repository.antt =====
-- PostgresAgentRepository of src/agents/repository.ts over the tables `agents` and
-- `agent_idempotency_keys`: creation under a key is that of Keyed, the update that of
-- Keyed/Version, and the list query that of Paging/Query. SHA-256 over the JSON of a payload is
-- the argument `hash`.
pub mod Laws
use virexa_backend.Base.{
  ℕ, ◌+◌, Bool, true, false, ◌&&◌, Option, none, some, List, ◌∷◌, ◌==◌, first, Outcome, ok, ◌>>=◌,
}
use virexa_backend.Base.Text.{Text, trim, is_uuid}
use virexa_backend.Base.Sql.{select}
use virexa_backend.Platform.{Platform}
use virexa_backend.Paging.{Position, Page}
use virexa_backend.Paging.Query.{QueryError, query_page}
use virexa_backend.Paging.Cursor.{encode_cursor, decode_cursor}
use virexa_backend.Keyed.{Columns, Tables, KeyedError, Created, has_id, insert_row, create_keyed}
use virexa_backend.Keyed.Version.{is_at, update_one}
use virexa_backend.Workflows.Repository.{trim_or_null, or_else}
use virexa_backend.Agents.{
  AgentStatus, draft, status_eq, AgentProjection, CreateAgentInput, UpdateAgentInput,
}
use mathlib.Core.Option

pub record AgentRow : Type 0 where
  pub id : ℕ
  pub organization_id : ℕ
  pub created_by_user_id : ℕ
  pub name : Text
  pub description : Option Text
  pub persona_id : Option ℕ
  pub branch_id : Option ℕ
  pub department_id : Option ℕ
  pub instructions : Text
  pub status : AgentStatus
  pub version : ℕ
  pub created_at : ℕ
  pub updated_at : ℕ

abbrev pub map_agent : (ℕ → ℕ) → AgentRow → AgentProjection
map_agent to_date row = record {
  id = row.id;
  name = row.name;
  description = row.description;
  persona_id = row.persona_id;
  branch_id = row.branch_id;
  department_id = row.department_id;
  instructions = row.instructions;
  status = row.status;
  version = row.version;
  created_by_user_id = row.created_by_user_id;
  created_at = to_date row.created_at;
  updated_at = to_date row.updated_at;
}

unfoldable pub normalized_agent_payload : CreateAgentInput → CreateAgentInput
normalized_agent_payload input = record {
  name = trim input.name;
  description = trim_or_null input.description;
  persona_id = input.persona_id;
  branch_id = input.branch_id;
  department_id = input.department_id;
  instructions = trim input.instructions;
}

unfoldable pub agent_hash : (CreateAgentInput → Text) → CreateAgentInput → Text
unfolding normalized_agent_payload
agent_hash hash input = hash (normalized_agent_payload input)

-- The row of INSERT INTO agents, with the defaults of the table.
abbrev pub agent_row : ℕ → ℕ → ℕ → ℕ → CreateAgentInput → AgentRow
agent_row now fresh organization user input = record {
  id = fresh;
  organization_id = organization;
  created_by_user_id = user;
  name = input.name;
  description = input.description;
  persona_id = input.persona_id;
  branch_id = input.branch_id;
  department_id = input.department_id;
  instructions = input.instructions;
  status = draft;
  version = 1;
  created_at = now;
  updated_at = now;
}

-- the columns that the statements of Keyed read
abbrev pub columns : (ℕ → ℕ) → Columns AgentRow AgentProjection
columns to_date = record {
  id = λ a. a.id;
  organization_id = λ a. a.organization_id;
  project = map_agent to_date;
}

-- the SET clause
unfoldable pub assign_agent : ℕ → UpdateAgentInput → AgentRow → AgentRow
assign_agent now input a = record a {
  name = or_else (Option.map trim input.name) a.name;
  description = or_else (Option.map trim_or_null input.description) a.description;
  persona_id = or_else input.persona_id a.persona_id;
  branch_id = or_else input.branch_id a.branch_id;
  department_id = or_else input.department_id a.department_id;
  instructions = or_else (Option.map trim input.instructions) a.instructions;
  status = or_else input.status a.status;
  version = a.version + 1;
  updated_at = now;
}

module _ (hash : CreateAgentInput → Text) (to_date : ℕ → ℕ) where
  unfoldable pub create_agent :
      ℕ
      → ℕ
      → ℕ
      → ℕ
      → CreateAgentInput
      → Tables AgentRow
      → Outcome KeyedError (AgentProjection × Tables AgentRow)
  unfolding insert_row normalized_agent_payload
  create_agent now fresh organization user input t = do
    let row = agent_row now fresh organization user (normalized_agent_payload input)
    t' ← insert_row (columns to_date) row t
    ok (map_agent to_date row, t')

  -- The payload is normalized before it is hashed, and once more for the hash.
  unfoldable pub create_agent_idempotent :
      ℕ
      → ℕ
      → ℕ
      → ℕ
      → CreateAgentInput
      → Text
      → Tables AgentRow
      → Outcome KeyedError (Created AgentProjection × Tables AgentRow)
  unfolding normalized_agent_payload agent_hash create_keyed
  create_agent_idempotent now fresh organization user input key t =
      let normalized = normalized_agent_payload input in
      create_keyed (columns to_date) (agent_row now fresh organization user normalized) key
        (agent_hash hash normalized) t

module _ (to_date : ℕ → ℕ) where
  unfoldable pub get_agent : ℕ → ℕ → List AgentRow → Option AgentProjection
  unfolding select
  get_agent organization id rows =
      Option.map (map_agent to_date)
        (first (select (has_id (columns to_date) organization id) rows))

  unfoldable pub update_agent :
      ℕ → ℕ → ℕ → UpdateAgentInput → List AgentRow → Option AgentProjection × List AgentRow
  unfolding assign_agent update_one
  update_agent now organization id input rows =
      update_one (columns to_date)
        (is_at (columns to_date) (λ a. a.version) organization id input.expected_version
          (λ a. true))
        (assign_agent now input) rows

pub record AgentListQuery : Type 0 where
  pub limit : ℕ
  pub status : Option AgentStatus
  pub cursor : Option Text

abbrev pub position : AgentRow → Position
position a = record { stamp = a.created_at; id = a.id }

abbrev pub in_scope : ℕ → Option AgentStatus → AgentRow → Bool
in_scope organization none a = a.organization_id == organization
in_scope organization (some s) a = a.organization_id == organization && status_eq a.status s

module _ (p : Platform) where
  unfoldable pub encode_agent_cursor : AgentProjection → Text
  unfolding encode_cursor
  encode_agent_cursor a = encode_cursor p a.created_at a.id

  unfoldable pub decode_agent_cursor : Text → Option (Text × Text)
  unfolding decode_cursor is_uuid
  decode_agent_cursor = decode_cursor p is_uuid

  unfoldable pub list_agents :
      ℕ → AgentListQuery → List AgentRow → Outcome QueryError (Page AgentProjection)
  unfolding query_page encode_agent_cursor decode_agent_cursor
  list_agents organization query rows =
      query_page p position (map_agent p.to_date) encode_agent_cursor decode_agent_cursor
        (in_scope organization query.status) query.limit query.cursor rows
