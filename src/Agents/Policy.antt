-- ===== src/Agents/Policy.antt =====
-- The policy of agents beside that of workflows.
use virexa_backend.Base.{◌≡◌, arith}
use virexa_backend.Workflows
use virexa_backend.Workflows.{WorkflowStatus, can_transition_workflow_status}
use virexa_backend.Agents.{
  AgentStatus, draft, active, paused, archived, can_transition_agent_status,
}

-- the status of a workflow that has the name of an agent's
abbrev pub as_workflow_status : AgentStatus → WorkflowStatus
as_workflow_status draft = Workflows.draft
as_workflow_status active = Workflows.active
as_workflow_status paused = Workflows.paused
as_workflow_status archived = Workflows.archived

-- Agents and workflows have one lifecycle.
pub can_transition_agent_status-workflow :
    (s t : AgentStatus)
    → can_transition_agent_status s t
      ≡ can_transition_workflow_status (as_workflow_status s) (as_workflow_status t)
unfolding can_transition_agent_status can_transition_workflow_status
can_transition_agent_status-workflow draft t = ground arith
can_transition_agent_status-workflow active t = ground arith
can_transition_agent_status-workflow paused t = ground arith
can_transition_agent_status-workflow archived t = ground arith
