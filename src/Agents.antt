-- ===== src/Agents.antt =====
-- The data of src/agents/contracts.ts and the mutation policy of src/agents/policy.ts.
pub mod Policy
pub mod Repository
mod Tests
use virexa_backend.Base.{
  ℕ, Bool, true, false, ◌&&◌, ◌||◌, Option, List, [], ◌∷◌, ◌==◌, any, if◌then◌else◌,
}
use virexa_backend.Base.Text.{Text}
use virexa_backend.Auth.{AuthenticatedContext, includes, agent_manage, agent_create}

pub data AgentStatus : Type 0 where
  draft active paused archived : AgentStatus

abbrev pub status_code : AgentStatus → ℕ
status_code draft = 0
status_code active = 1
status_code paused = 2
status_code archived = 3

abbrev pub status_eq : AgentStatus → AgentStatus → Bool
status_eq s t = status_code s == status_code t

-- The API projection, which has no organization: a date is the number of milliseconds that its ISO
-- text stands for.
pub record AgentProjection : Type 0 where
  pub id : ℕ
  pub name : Text
  pub description : Option Text
  pub persona_id : Option ℕ
  pub branch_id : Option ℕ
  pub department_id : Option ℕ
  pub instructions : Text
  pub status : AgentStatus
  pub version : ℕ
  pub created_by_user_id : ℕ
  pub created_at : ℕ
  pub updated_at : ℕ

-- null and a missing field are one: the repository reads both by `?? null` or `|| null`
pub record CreateAgentInput : Type 0 where
  pub name : Text
  pub description : Option Text
  pub persona_id : Option ℕ
  pub branch_id : Option ℕ
  pub department_id : Option ℕ
  pub instructions : Text

-- A missing field is none; a nullable field that is given may be null.
pub record UpdateAgentInput : Type 0 where
  pub name : Option Text
  pub description : Option (Option Text)
  pub persona_id : Option (Option ℕ)
  pub branch_id : Option (Option ℕ)
  pub department_id : Option (Option ℕ)
  pub instructions : Option Text
  pub status : Option AgentStatus
  pub expected_version : ℕ

unfoldable pub can_manage_agent : AuthenticatedContext → AgentProjection → Bool
unfolding includes
can_manage_agent context agent =
    if includes context.permissions agent_manage
    then true
    else includes context.permissions agent_create && agent.created_by_user_id == context.user.id

-- ALLOWED_STATUS_TRANSITIONS
abbrev pub allowed_agent_transitions : AgentStatus → List AgentStatus
allowed_agent_transitions draft = active ∷ []
allowed_agent_transitions active = paused ∷ archived ∷ []
allowed_agent_transitions paused = active ∷ archived ∷ []
allowed_agent_transitions archived = []

unfoldable pub can_transition_agent_status : AgentStatus → AgentStatus → Bool
can_transition_agent_status current next =
    status_eq current next || any (status_eq next) (allowed_agent_transitions current)
