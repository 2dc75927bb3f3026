-- ===== src/Workflows/Routes.antt =====
-- The workflow routes of src/app.ts. Results of the schemas' `safeParse` are arguments, null for a
-- refused input. A handler that reads and writes at two times has the tables of both: what other
-- requests did in between is any change at all.
pub mod Patch
use virexa_backend.Base.{
  ℕ, Bool, true, false, ◌&&◌, not, Option, none, some, List, [], ◌∷◌, ◌==◌, if◌then◌else◌, Outcome,
  ok, throws, ◌>>=◌, ◌>>◌,
}
use virexa_backend.Base.Text.{Text, codes}
use virexa_backend.Auth.{
  AuthenticatedContext, require_authenticated, require_permission, require_any_permission,
  assert_trusted_origin, workflow_create, workflow_manage, workflow_read,
}
use virexa_backend.Http.{
  Incoming, Failure, Reply, fail, guarded, parsed, found, check, validation_error, not_permitted,
  workflow_conflict, invalid_state_transition, key_reused, internal_error, invalid_cursor,
}
use virexa_backend.Audit.{AuditEventInput, text, number, record_event}
use virexa_backend.Workflows.{
  WorkflowStatus, draft, active, paused, archived, Workflow, CreateWorkflowRequest,
  UpdateWorkflowRequest, can_manage_workflow, can_transition_workflow_status,
}
use virexa_backend.Keyed.{Tables, KeyedError, idempotency_key_reused, Created}
use virexa_backend.Platform.{Platform}
use virexa_backend.Paging.{Page}
use virexa_backend.Paging.Query.{QueryError}
use virexa_backend.Workflows.Repository.{ListQuery, list_page}
use virexa_backend.Workflows.Repository.{WorkflowRow, create_idempotent, get_by_id, update_workflow}

pub record World : Type 0 where
  pub tables : Tables WorkflowRow
  pub audit : List AuditEventInput

abbrev pub status_text : WorkflowStatus → Text
status_text draft = codes "draft"
status_text active = codes "active"
status_text paused = codes "paused"
status_text archived = codes "archived"

-- the error handler, for the errors of the repository
abbrev pub repository_failure : KeyedError → Failure
repository_failure idempotency_key_reused = record { status = 409; error = key_reused }
repository_failure _ = record { status = 500; error = internal_error }

-- a value of `status` that is given
abbrev pub transition_allowed : WorkflowStatus → Option WorkflowStatus → Bool
transition_allowed current none = true
transition_allowed current (some next) = can_transition_workflow_status current next

abbrev pub expected_status : WorkflowStatus → Option WorkflowStatus → Option WorkflowStatus
expected_status current none = none
expected_status current (some next) = some current

module _ (to_date : ℕ → ℕ) (incoming : Incoming) where
  -- the guards of a route that needs one permission
  abbrev reader : Outcome Failure AuthenticatedContext
  reader = do
    context ← guarded (require_authenticated incoming.get_session incoming.request)
    guarded (require_permission context workflow_read)

  unfoldable pub get_workflow : Option ℕ → World → Outcome Failure (Reply Workflow)
  get_workflow parsed_id w = do
    context ← reader
    id ← parsed parsed_id
    workflow ← found (get_by_id to_date context.user.organization_id id w.tables.rows)
    ok (record { status = 200; body = workflow })

  abbrev pub created_event : AuthenticatedContext → Workflow → AuditEventInput
  created_event context w = record {
    organization_id = context.user.organization_id;
    actor_user_id = some context.user.id;
    action = codes "workflow.created";
    resource_type = codes "workflow";
    resource_id = some w.id;
    request_id = incoming.request_id;
    metadata = [];
  }

  created_reply :
      AuthenticatedContext
      → World
      → Outcome KeyedError (Created Workflow × Tables WorkflowRow)
      → Outcome Failure (Reply Workflow) × World
  created_reply context w (throws e) = (throws (repository_failure e), w)
  created_reply context w (ok (r, tables)) = (
    ok (record { status = if r.replayed then 200 else 201; body = r.item }),
    record {
      tables = tables;
      audit =
          if not r.replayed then record_event (created_event context r.item) w.audit else w.audit;
    },
  )

  creator :
      Option CreateWorkflowRequest
      → Option Text
      → Outcome Failure (AuthenticatedContext × CreateWorkflowRequest × Text)
  creator body key = do
    guarded (assert_trusted_origin incoming.configured_origin incoming.request)
    context ← guarded (require_authenticated incoming.get_session incoming.request)
    guarded (require_permission context workflow_create)
    input ← parsed body
    parsed_key ← parsed key
    ok (context, input, parsed_key)

  unfoldable pub post_workflow :
      (CreateWorkflowRequest → Text)
      → ℕ
      → ℕ
      → Option CreateWorkflowRequest
      → Option Text
      → World
      → Outcome Failure (Reply Workflow) × World
  unfolding creator created_reply
  post_workflow hash now fresh body key w = elim (creator body key) [
    | throws failure ↦ (throws failure, w)
    | ok (context, input, parsed_key) ↦ created_reply context w (
        create_idempotent hash to_date now fresh context.user.organization_id context.user.id input
          parsed_key w.tables)
  ]

  -- everything up to the write: the context, the input and the workflow as it was read
  pub patch_checks :
      Option ℕ
      → Option UpdateWorkflowRequest
      → World
      → Outcome Failure (AuthenticatedContext × UpdateWorkflowRequest × Workflow)
  patch_checks parsed_id body w = do
    guarded (assert_trusted_origin incoming.configured_origin incoming.request)
    context ← guarded (require_authenticated incoming.get_session incoming.request)
    guarded (require_any_permission context (workflow_create ∷ workflow_manage ∷ []))
    id ← parsed parsed_id
    input ← parsed body
    existing ← found (get_by_id to_date context.user.organization_id id w.tables.rows)
    check (can_manage_workflow context existing) 403 not_permitted
    check (input.expected_version == existing.version) 409 workflow_conflict
    check (transition_allowed existing.status input.status) 409 invalid_state_transition
    ok (context, input, existing)

  abbrev pub updated_event : AuthenticatedContext → Workflow → AuditEventInput
  updated_event context w = record {
    organization_id = context.user.organization_id;
    actor_user_id = some context.user.id;
    action = codes "workflow.updated";
    resource_type = codes "workflow";
    resource_id = some w.id;
    request_id = incoming.request_id;
    metadata =
        (codes "status", text (status_text w.status)) ∷ (codes "version", number w.version) ∷ [];
  }

  pub patched :
      AuthenticatedContext
      → World
      → Option Workflow × List WorkflowRow
      → Outcome Failure (Reply Workflow) × World
  patched context w (none, rows) =
      (fail 409 workflow_conflict, record w { tables = record w.tables { rows = rows } })
  patched context w (some workflow, rows) = (
    ok (record { status = 200; body = workflow }),
    record {
      tables = record w.tables { rows = rows };
      audit = record_event (updated_event context workflow) w.audit;
    },
  )

  -- `w` at the read and `w'` at the write
  unfoldable pub patch_workflow :
      ℕ
      → Option ℕ
      → Option UpdateWorkflowRequest
      → World
      → World
      → Outcome Failure (Reply Workflow) × World
  unfolding patch_checks patched
  patch_workflow now parsed_id body w w' = elim (patch_checks parsed_id body w) [
    | throws failure ↦ (throws failure, w')
    | ok (context, input, existing) ↦ patched context w' (
        update_workflow to_date now context.user.organization_id existing.id input
          (expected_status existing.status input.status) w'.tables.rows)
  ]

-- GET /api/v1/workflows
abbrev list_failure : QueryError → Failure
list_failure QueryError.invalid_cursor = record { status = 400; error = invalid_cursor }
list_failure _ = record { status = 500; error = internal_error }

unfoldable pub get_workflows :
    Platform
    → Incoming
    → Option ListQuery
    → List WorkflowRow
    → Outcome Failure (Reply (Page Workflow))
get_workflows p incoming query rows = do
  context ← reader p.to_date incoming
  q ← parsed query
  elim (list_page p context.user.organization_id q rows) [
    | throws e ↦ throws (list_failure e)
    | ok page ↦ ok (record { status = 200; body = page })
  ]
