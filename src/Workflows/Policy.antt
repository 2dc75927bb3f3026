-- ===== src/Workflows/Policy.antt =====
-- The lifecycle that src/workflows/policy.ts allows, as a relation.
use virexa_backend.Base.{◌≡◌, refl, ◌↔◌, ◌⊎◌, inl, inr, true, arith}
use virexa_backend.Auth.{AuthenticatedContext, includes, workflow_manage, workflow_create}
use virexa_backend.Workflows.{
  WorkflowStatus, draft, active, paused, archived, status_eq, Workflow, can_manage_workflow,
  can_transition_workflow_status,
}

-- The lifecycle: a draft is activated, then paused and resumed at will, and archived for good.
pub data Step : WorkflowStatus → WorkflowStatus → Type 0 where
  activate : Step draft active
  pause : Step active paused
  resume : Step paused active
  archive_active : Step active archived
  archive_paused : Step paused archived

pub data Lifecycle (s : WorkflowStatus) : WorkflowStatus → Type 0 where
  here : Lifecycle s s
  next : {t u : WorkflowStatus} → Lifecycle s t → Step t u → Lifecycle s u

Step-allowed : {s t : WorkflowStatus} → Step s t → can_transition_workflow_status s t ≡ true
unfolding can_transition_workflow_status
Step-allowed activate = refl
Step-allowed pause = refl
Step-allowed resume = refl
Step-allowed archive_active = refl
Step-allowed archive_paused = refl

allowed-Step :
    (s t : WorkflowStatus) → can_transition_workflow_status s t ≡ true → (s ≡ t) ⊎ Step s t
unfolding can_transition_workflow_status
allowed-Step draft draft h = inl refl
allowed-Step draft active h = inr activate
allowed-Step active active h = inl refl
allowed-Step active paused h = inr pause
allowed-Step active archived h = inr archive_active
allowed-Step paused paused h = inl refl
allowed-Step paused active h = inr resume
allowed-Step paused archived h = inr archive_paused
allowed-Step archived archived h = inl refl
allowed-Step draft paused h = absurd (ground arith)
allowed-Step draft archived h = absurd (ground arith)
allowed-Step active draft h = absurd (ground arith)
allowed-Step paused draft h = absurd (ground arith)
allowed-Step archived draft h = absurd (ground arith)
allowed-Step archived active h = absurd (ground arith)
allowed-Step archived paused h = absurd (ground arith)

pub status_eq_iff : (s t : WorkflowStatus) → (status_eq s t ≡ true) ↔ (s ≡ t)
status_eq_iff s t = ground arith

pub allowed_self : (s : WorkflowStatus) → can_transition_workflow_status s s ≡ true
unfolding can_transition_workflow_status
allowed_self s = ground arith

-- The policy's test accepts exactly a status that stays or takes one step of the lifecycle.
pub can_transition_workflow_status_iff :
    (s t : WorkflowStatus) → (can_transition_workflow_status s t ≡ true) ↔ ((s ≡ t) ⊎ Step s t)
can_transition_workflow_status_iff s t = (allowed-Step s t, back)
  where
    back : (s ≡ t) ⊎ Step s t → can_transition_workflow_status s t ≡ true
    back (inl e) = rw (e) (allowed_self t)
    back (inr st) = Step-allowed st

-- An archived workflow stays archived.
pub archived-final : {s t : WorkflowStatus} → Lifecycle s t → s ≡ archived → t ≡ archived
archived-final here e = e
archived-final (next r activate) e = absurd (cc (archived-final r e))
archived-final (next r pause) e = absurd (cc (archived-final r e))
archived-final (next r resume) e = absurd (cc (archived-final r e))
archived-final (next r archive_active) e = refl
archived-final (next r archive_paused) e = refl

-- No workflow becomes a draft again.
pub draft-initial : {s t : WorkflowStatus} → Lifecycle s t → t ≡ draft → s ≡ draft
draft-initial here e = e
draft-initial (next r activate) e = cc
draft-initial (next r pause) e = cc
draft-initial (next r resume) e = cc
draft-initial (next r archive_active) e = cc
draft-initial (next r archive_paused) e = cc

-- A user manages a workflow exactly if it is of the user's organization, and the user may manage
-- all of them or created this one with the permission to create.
pub can_manage_workflow_iff :
    (context : AuthenticatedContext) (workflow : Workflow)
    → (can_manage_workflow context workflow ≡ true) ↔ (
        (workflow.organization_id ≡ context.user.organization_id)
        × ((includes context.permissions workflow_manage ≡ true)
            ⊎ ((includes context.permissions workflow_create ≡ true)
                × (workflow.created_by_user_id ≡ context.user.id))))
unfolding can_manage_workflow
can_manage_workflow_iff context workflow = ground arith
