-- ===== src/Workflows/Tests.antt =====
-- The theorems on workflows at concrete tables and requests.
use virexa_backend.Base.{
  ℕ, ◌≡◌, refl, ◌≢◌, ◌⊎◌, ◌↔◌, true, false, none, some, List, [], ◌∷◌, arith, ok, throws, map, All,
  if◌then◌else◌,
}
use virexa_backend.Base.Text.{Text, codes, text_eq, trim, is_uuid}
use virexa_backend.Base.Sql.{select, update, returning}
use virexa_backend.Platform.Concrete.{platform, platform-Laws}
use virexa_backend.Paging.{before, order_desc, insert_desc}
use virexa_backend.Paging.Walk.{follow}
use virexa_backend.Auth.{
  operator, workflow_create, workflow_manage, includes, role_permissions, AuthSession,
  AuthenticatedContext, require_authenticated, require_permission, require_any_permission,
  is_safe_method, assert_trusted_origin,
}
use virexa_backend.Http.{Incoming, Reply}
use virexa_backend.Workflows.{
  draft, active, paused, archived, Workflow, CreateWorkflowRequest, UpdateWorkflowRequest,
  can_manage_workflow, can_transition_workflow_status,
}
use virexa_backend.Workflows.Policy.{
  Step, can_transition_workflow_status_iff, can_manage_workflow_iff,
}
use virexa_backend.Keyed.{Tables, idempotency_key_reused}
use virexa_backend.Workflows.Repository.{
  WorkflowRow, map_workflow, normalized_create_payload, request_hash, create_idempotent, has_fields,
  assign, get_by_id, update_workflow,
}
use virexa_backend.Workflows.Repository.Idempotency.{
  create_idempotent-replay, create_idempotent-reuse,
}
use virexa_backend.Workflows.Repository.Updates.{
  Updates, update_workflow_lem, update_workflow_stale, get_by_id-update_workflow_other,
}
use virexa_backend.Workflows.Repository.Listing.{
  IsReadable, fetch, listing, list_page-follow, list_page-skips,
}
use virexa_backend.Workflows.Routes.{World, patch_workflow, patched, patch_checks}
use virexa_backend.Workflows.Routes.Patch.{Patches, patch_workflow_sound}

computed : Unit {0}
unfolding select update returning before order_desc insert_desc text_eq trim is_uuid includes
    role_permissions require_authenticated require_permission require_any_permission is_safe_method
    assert_trusted_origin can_manage_workflow can_transition_workflow_status
    normalized_create_payload request_hash create_idempotent assign get_by_id update_workflow
    patch_workflow
computed = tt

abbrev millis : ℕ → ℕ
millis t = t

-- a payload is hashed to its name: two names, two hashes
abbrev hash : CreateWorkflowRequest → Text
hash input = input.name

abbrev workflow_row : ℕ → ℕ → WorkflowRow
workflow_row id created_at = record {
  id = id;
  organization_id = 4;
  created_by_user_id = 1;
  name = codes "Invoices";
  description = none;
  status = draft;
  version = 1;
  created_at = created_at;
  updated_at = created_at;
}

abbrev rows : List WorkflowRow
rows = workflow_row 1 1000 ∷ workflow_row 2 3000 ∷ workflow_row 3 2000 ∷ []

abbrev activation : UpdateWorkflowRequest
activation = record { expected_version = 1; name = none; description = none; status = some active }

abbrev renaming : UpdateWorkflowRequest
renaming = record {
  expected_version = 1;
  name = some (codes " Bills ");
  description = some none;
  status = none;
}

abbrev activated_row : WorkflowRow
activated_row = record (workflow_row 2 3000) { status = active; version = 2; updated_at = 9 }

abbrev activated : List WorkflowRow
activated = workflow_row 1 1000 ∷ activated_row ∷ workflow_row 3 2000 ∷ []

changes : has_fields activation ≡ true
unfolding has_fields
changes = refl

changes_name : has_fields renaming ≡ true
unfolding has_fields
changes_name = refl

update_workflow_test :
    update_workflow millis 9 4 2 activation (some draft) rows
    ≡ (some (map_workflow millis activated_row), activated)
unfolding computed
update_workflow_test = refl

update_workflow_refused :
    (update_workflow millis 9 5 2 activation (some draft) rows ≡ (none, rows))
    × (update_workflow millis 9 4 2 activation (some paused) rows ≡ (none, rows))
unfolding computed
update_workflow_refused = (refl, refl)

update_workflow_lem_example :
    ((w : Workflow) × (after : List WorkflowRow) × (update_workflow millis 9 4 2 activation
          (some draft)
          rows
        ≡ (some w, after))
      × Updates millis 4 2 rows 9 activation (some draft) w after)
    ⊎ (update_workflow millis 9 4 2 activation (some draft) rows ≡ (none, rows))
update_workflow_lem_example =
    update_workflow_lem millis 4 2 rows 9 activation (some draft) (ground arith) changes

update_workflow_stale_example :
    update_workflow millis 10 4 2 renaming none activated ≡ (none, activated)
update_workflow_stale_example =
    update_workflow_stale millis 4 2 rows activated 9 10 activation renaming (some draft) none
      (map_workflow millis activated_row) (ground arith) changes changes_name refl
      update_workflow_test

get_by_id-update_workflow_other_applied :
    get_by_id millis 4 3 (update_workflow millis 9 4 2 activation (some draft) rows).1
    ≡ get_by_id millis 4 3 rows
get_by_id-update_workflow_other_applied =
    get_by_id-update_workflow_other millis 4 2 rows 9 activation (some draft) 4 3 (ground arith)

can_transition_workflow_status_iff_example :
    (can_transition_workflow_status active archived ≡ true)
    ↔ ((active ≡ archived) ⊎ Step active archived)
can_transition_workflow_status_iff_example = can_transition_workflow_status_iff active archived

-- a session of user 1, an operator of organization 4
abbrev session : AuthSession
session = record {
  user = record {
    id = 1;
    email = codes "ann@example.com";
    display_name = codes "Ann";
    role = operator;
    organization_id = 4;
    organization_name = codes "Works";
  };
  expires_at = 100;
}

abbrev context : AuthenticatedContext
context = record { session = session; permissions = role_permissions operator }

can_manage_workflow_iff_applied :
    (can_manage_workflow context (map_workflow millis (workflow_row 2 3000)) ≡ true) ↔ (
      (4 ≡ context.user.organization_id)
      × ((includes context.permissions workflow_manage ≡ true)
          ⊎ ((includes context.permissions workflow_create ≡ true) × (1 ≡ context.user.id))))
can_manage_workflow_iff_applied =
    can_manage_workflow_iff context (map_workflow millis (workflow_row 2 3000))

abbrev payload : CreateWorkflowRequest
payload = record { name = codes "Invoices "; description = none }

abbrev other_payload : CreateWorkflowRequest
other_payload = record { name = codes "Receipts"; description = none }

abbrev empty_tables : Tables WorkflowRow
empty_tables = record { rows = []; keys = [] }

abbrev created_tables : Tables WorkflowRow
created_tables = record {
  rows = workflow_row 7 9 ∷ [];
  keys =
      record {
        organization_id = 4;
        idempotency_key = codes "key-1";
        request_hash = codes "Invoices";
        resource_id = some 7;
      }
      ∷ [];
}

create_idempotent_test :
    create_idempotent hash millis 9 7 4 1 payload (codes "key-1") empty_tables
    ≡ ok
        (record { item = map_workflow millis (workflow_row 7 9); replayed = false }, created_tables)
unfolding computed
create_idempotent_test = refl

create_idempotent-replay_example :
    create_idempotent hash millis 20 8 4 2 payload (codes "key-1") created_tables
    ≡ ok (record { item = map_workflow millis (workflow_row 7 9); replayed = true }, created_tables)
create_idempotent-replay_example =
    create_idempotent-replay hash millis 4 (codes "key-1") 9 7 1 payload empty_tables created_tables
      (record { item = map_workflow millis (workflow_row 7 9); replayed = false }) 20 8 2
      create_idempotent_test

hashes_differ : request_hash hash payload ≢ request_hash hash other_payload
unfolding computed
hashes_differ h = absurd (ground arith)

create_idempotent-reuse_example :
    create_idempotent hash millis 20 8 4 2 other_payload (codes "key-1") created_tables
    ≡ throws idempotency_key_reused
create_idempotent-reuse_example =
    create_idempotent-reuse hash millis 4 (codes "key-1") 9 7 1 payload empty_tables created_tables
      (record { item = map_workflow millis (workflow_row 7 9); replayed = false }) 20 8 2
      other_payload create_idempotent_test hashes_differ

abbrev posted : Incoming
posted = record {
  request = record {
    method = codes "PATCH";
    session_cookie = some (codes "token");
    origin = some (codes "https://app.example.com");
  };
  request_id = codes "request-1";
  configured_origin = some (codes "https://app.example.com");
  get_session = λ token. if text_eq token (codes "token") then some session else none;
}

abbrev world : World
world = record { tables = record { rows = rows; keys = [] }; audit = [] }

abbrev patched_world : World
patched_world = record {
  tables = record { rows = activated; keys = [] };
  audit =
      virexa_backend.Workflows.Routes.updated_event millis posted context
        (map_workflow millis activated_row)
      ∷ [];
}

abbrev patched_reply : Reply Workflow
patched_reply = record { status = 200; body = map_workflow millis activated_row }

patch_workflow_test :
    patch_workflow millis posted 9 (some 2) (some activation) world world
    ≡ (ok patched_reply, patched_world)
unfolding computed
patch_workflow_test = refl

patch_workflow_sound_example :
    Patches millis posted (some 2) (some activation) world world patched_reply.body patched_world
patch_workflow_sound_example =
    patch_workflow_sound millis posted 9 (some 2) activation world world patched_world patched_reply
      (ground arith) changes patch_workflow_test

rows-IsReadable : All (IsReadable platform) rows
unfolding computed
rows-IsReadable = ((1, refl, refl), ((3, refl, refl), ((2, refl, refl), tt)))

list_page-follow_example :
    follow (fetch platform 4 0 none rows) 4 none
    ≡ some (map (map_workflow platform.to_date) (listing platform 4 0 none rows))
unfolding computed
list_page-follow_example =
    list_page-follow platform 4 0 none rows 4 platform-Laws rows-IsReadable (ground arith)
      (ground arith)

list_page-skips_example :
    follow (fetch platform 4 0 none (workflow_row 2 5700 ∷ workflow_row 1 5300 ∷ [])) 2 none
    ≡ some (map_workflow platform.to_date (workflow_row 2 5700) ∷ [])
unfolding computed
list_page-skips_example =
    list_page-skips platform 4 (workflow_row 2 5700) (workflow_row 1 5300) platform-Laws refl refl
      refl refl refl refl (ground arith)
