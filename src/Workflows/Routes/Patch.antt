-- ===== src/Workflows/Routes/Patch.antt =====
-- What PATCH /api/v1/workflows/:workflowId guarantees, whatever other requests do between its read
-- and its write.
use virexa_backend.Base.{
  ℕ, ◌+◌, ◌≡◌, subst, true, Option, some, [], ◌∷◌, arith, Option-cases, Outcome-cases, inl, inr, ok,
  ◌⊎◌, first,
}
use virexa_backend.Base.Sql.{select, IsKeyed}
use virexa_backend.Auth.{
  AuthenticatedContext, require_authenticated, require_any_permission, assert_trusted_origin,
  workflow_create, workflow_manage,
}
use mathlib.Core.Option.{some-injective}
use virexa_backend.Http.{Incoming, Reply}
use virexa_backend.Workflows.{
  Workflow, UpdateWorkflowRequest, can_manage_workflow, can_transition_workflow_status,
}
use virexa_backend.Workflows.Policy.{
  Step, allowed_self, status_eq_iff, can_transition_workflow_status_iff,
}
use virexa_backend.Keyed.{has_id}
use virexa_backend.Workflows.Repository.{
  WorkflowRow, columns, has_fields, status_is, assign, get_by_id, update_workflow,
}
use virexa_backend.Workflows.Repository.Updates.{update_workflow_lem}
use virexa_backend.Workflows.Routes.{
  World, patch_checks, patched, patch_workflow, expected_status, transition_allowed, updated_event,
}

module _ (to_date : ℕ → ℕ) (incoming : Incoming) where
  -- what the checks before the write establish
  pub record Checked (parsed_id : Option ℕ) (body : Option UpdateWorkflowRequest) (w : World)
      (context : AuthenticatedContext) (input : UpdateWorkflowRequest) (existing : Workflow)
      : Type 0 where
    pub id : ℕ
    pub named : parsed_id ≡ some id
    pub read : get_by_id to_date context.user.organization_id id w.tables.rows ≡ some existing
    pub version_read : input.expected_version ≡ existing.version
    pub known : require_authenticated incoming.get_session incoming.request ≡ ok context
    pub given : body ≡ some input
    pub managed : can_manage_workflow context existing ≡ true
    pub allowed : transition_allowed existing.status input.status ≡ true

  patch_checks_sound :
      (parsed_id : Option ℕ) (body : Option UpdateWorkflowRequest) (w : World)
      (context : AuthenticatedContext) (input : UpdateWorkflowRequest) (existing : Workflow)
      → patch_checks to_date incoming parsed_id body w ≡ ok (context, input, existing)
      → Checked parsed_id body w context input existing
  unfolding patch_checks
  patch_checks_sound parsed_id body w context input existing h =
      elim (Outcome-cases (assert_trusted_origin incoming.configured_origin incoming.request)) [
        | inr (e, untrusted) ↦ absurd (ground (arith, untrusted))
        | inl (u, trusted) ↦
            elim (Outcome-cases (require_authenticated incoming.get_session incoming.request)) [
              | inr (e, unknown) ↦ absurd (ground (arith, trusted, unknown))
              | inl (c, known) ↦
                  elim (Outcome-cases
                    (require_any_permission c (workflow_create ∷ workflow_manage ∷ []))) [
                      | inr (e, denied) ↦ absurd (ground (arith, trusted, known, denied))
                      | inl (c', permitted) ↦ elim (Option-cases parsed_id) [
                        | inl malformed ↦ absurd (ground (arith, trusted, known, permitted))
                        | inr (id, named) ↦ record {
                          id = id;
                          named = named;
                          read = ground (arith, trusted, known, permitted);
                          version_read = ground (arith, trusted, known, permitted);
                          known = ground (arith, trusted, known, permitted);
                          given = ground (arith, trusted, known, permitted);
                          managed = ground (arith, trusted, known, permitted);
                          allowed = ground (arith, trusted, known, permitted);
                        }
                      ]
                    ]
            ]
      ]

  -- a successful PATCH: the row that it changed, as it was at the write
  pub record Patches (parsed_id : Option ℕ) (body : Option UpdateWorkflowRequest) (w w' : World)
      (reply : Workflow) (after : World) : Type 0 where
    pub context : AuthenticatedContext
    pub input : UpdateWorkflowRequest
    pub existing : Workflow
    pub checked : Checked parsed_id body w context input existing
    pub row : WorkflowRow
    pub at_write :
        first (
          select (has_id (columns to_date) context.user.organization_id existing.id) w'.tables.rows)
        ≡ some row
    pub version_at_write : row.version ≡ input.expected_version
    pub version_grows : reply.version ≡ row.version + 1
    pub lifecycle : (row.status ≡ reply.status) ⊎ Step row.status reply.status
    pub stored :
        get_by_id to_date context.user.organization_id existing.id after.tables.rows ≡ some reply
    pub audited : after.audit ≡ updated_event to_date incoming context reply ∷ w'.audit

  status_step :
      (row : WorkflowRow) (existing : Workflow) (input : UpdateWorkflowRequest) (now : ℕ)
      → transition_allowed existing.status input.status ≡ true
      → status_is (expected_status existing.status input.status) row ≡ true
      → can_transition_workflow_status row.status (assign now input row).status ≡ true
  unfolding assign
  status_step row existing input now allowed same = elim (Option-cases input.status) [
    | inl kept ↦ ground (arith, kept, allowed_self row.status)
    | inr (next, given) ↦ ground (arith, given, status_eq_iff row.status existing.status)
  ]

  patch_written :
      (now : ℕ) (parsed_id : Option ℕ) (body : UpdateWorkflowRequest) (w w' after : World)
      (reply : Reply Workflow) (context : AuthenticatedContext) (input : UpdateWorkflowRequest)
      (existing : Workflow)
      → IsKeyed (λ r. r.id) w'.tables.rows
      → has_fields body ≡ true
      → patch_checks to_date incoming parsed_id (some body) w ≡ ok (context, input, existing)
      → patched to_date incoming context w' (
          update_workflow to_date now context.user.organization_id existing.id input
            (expected_status existing.status input.status)
            w'.tables.rows)
        ≡ (ok reply, after)
      → Patches parsed_id (some body) w w' reply.body after
  unfolding patched
  patch_written now parsed_id body w w' after reply context input existing keyed changes passed h =
      let checked = patch_checks_sound parsed_id (some body) w context input existing passed in
      let same : body ≡ input = some-injective _ _ checked.given in
      let expected = expected_status existing.status input.status in
      elim (update_workflow_lem to_date context.user.organization_id existing.id w'.tables.rows now
        input expected keyed (subst (λ i. has_fields i ≡ true) same changes)) [
          | inr stale ↦ absurd (ground (arith, stale))
          | inl (workflow, rows, e, u) ↦
              let told : reply.body ≡ workflow = ground (arith, e) in
              let kept : after.tables.rows ≡ rows = ground (arith, e) in
              record {
                context = context;
                input = input;
                existing = existing;
                checked = checked;
                row = u.row;
                at_write = u.read;
                version_at_write = u.version_matches;
                version_grows = rw told u.version_grows;
                lifecycle =
                    rw (told, u.result)
                      ((can_transition_workflow_status_iff u.row.status
                          (assign now input u.row).status).0
                        (status_step u.row existing input now checked.allowed u.status_matches));
                stored = rw (told, kept) u.stored;
                audited = ground (arith, e);
              }
        ]

  -- On a table with distinct identifiers at the write, when a PATCH that gives a field succeeds,
  -- the caller's session may manage the workflow that was read, the row at the write still has the
  -- expected version, its status stays or takes one step of the lifecycle, its version grows by
  -- one, the reply is what is stored, and one event is recorded.
  pub patch_workflow_sound :
      (now : ℕ) (parsed_id : Option ℕ) (body : UpdateWorkflowRequest) (w w' after : World)
      (reply : Reply Workflow)
      → IsKeyed (λ r. r.id) w'.tables.rows
      → has_fields body ≡ true
      → patch_workflow to_date incoming now parsed_id (some body) w w' ≡ (ok reply, after)
      → Patches parsed_id (some body) w w' reply.body after
  unfolding patch_workflow
  patch_workflow_sound now parsed_id body w w' after reply keyed changes h =
      elim (Outcome-cases (patch_checks to_date incoming parsed_id (some body) w)) [
        | inr (failure, refused) ↦ absurd (ground (arith, refused))
        | inl ((context, input, existing), passed) ↦
            patch_written now parsed_id body w w' after reply context input existing keyed changes
              passed (ground (arith, passed))
      ]
