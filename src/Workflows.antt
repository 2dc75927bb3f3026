-- ===== src/Workflows.antt =====
-- The data of src/contracts/workflows.ts and the mutation policy of src/workflows/policy.ts.
pub mod Policy
pub mod Repository
pub mod Routes
mod Tests
use virexa_backend.Base.{
  ℕ, Bool, true, false, ◌&&◌, ◌||◌, not, Option, none, some, List, [], ◌∷◌, ◌==◌, any,
  if◌then◌else◌,
}
use virexa_backend.Base.Text.{Text}
use virexa_backend.Auth.{AuthenticatedContext, includes, workflow_manage, workflow_create}

pub data WorkflowStatus : Type 0 where
  draft active paused archived : WorkflowStatus

abbrev pub status_code : WorkflowStatus → ℕ
status_code draft = 0
status_code active = 1
status_code paused = 2
status_code archived = 3

abbrev pub status_eq : WorkflowStatus → WorkflowStatus → Bool
status_eq s t = status_code s == status_code t

-- The API projection: a date is the number of milliseconds that its ISO text stands for.
pub record Workflow : Type 0 where
  pub id : ℕ
  pub organization_id : ℕ
  pub created_by_user_id : ℕ
  pub name : Text
  pub description : Option Text
  pub status : WorkflowStatus
  pub version : ℕ
  pub created_at : ℕ
  pub updated_at : ℕ

-- null and a missing description are one: the repository reads both by `?.trim() || null`
pub record CreateWorkflowRequest : Type 0 where
  pub name : Text
  pub description : Option Text

-- A missing field is none; a description that is given may be null.
pub record UpdateWorkflowRequest : Type 0 where
  pub expected_version : ℕ
  pub name : Option Text
  pub description : Option (Option Text)
  pub status : Option WorkflowStatus

unfoldable pub can_manage_workflow : AuthenticatedContext → Workflow → Bool
unfolding includes
can_manage_workflow context workflow =
    if not (workflow.organization_id == context.user.organization_id)
    then false
    else if includes context.permissions workflow_manage
    then true
    else includes context.permissions workflow_create
      && workflow.created_by_user_id == context.user.id

-- ALLOWED_STATUS_TRANSITIONS
abbrev pub allowed_status_transitions : WorkflowStatus → List WorkflowStatus
allowed_status_transitions draft = active ∷ []
allowed_status_transitions active = paused ∷ archived ∷ []
allowed_status_transitions paused = active ∷ archived ∷ []
allowed_status_transitions archived = []

unfoldable pub can_transition_workflow_status : WorkflowStatus → WorkflowStatus → Bool
can_transition_workflow_status current next =
    status_eq current next || any (status_eq next) (allowed_status_transitions current)
