-- ===== src/Workflows/Repository.antt =====
-- PostgresWorkflowRepository of src/workflows/repository.ts over the tables `workflows` and
-- `workflow_idempotency_keys`: creation under a key is that of Keyed, and the list query that of
-- Paging/Query. SHA-256 over the JSON of a payload is the argument `hash`; `now` is the database
-- clock of the statement, and `fresh` the identifier that the database generates.
pub mod Idempotency
pub mod Fields
pub mod Updates
pub mod Listing
use virexa_backend.Base.{
  ℕ, ◌+◌, Bool, true, false, ◌&&◌, ◌||◌, not, Option, none, some, List, ◌∷◌, ◌==◌, first, is_some,
  if◌then◌else◌, Outcome, ok, ◌>>=◌,
}
use virexa_backend.Base.Text.{Text, trim, is_empty, is_uuid}
use virexa_backend.Base.Sql.{select}
use virexa_backend.Platform.{Platform}
use virexa_backend.Paging.{Position, Page}
use virexa_backend.Paging.Query.{QueryError, query_page}
use virexa_backend.Paging.Cursor.{encode_cursor, decode_cursor}
use virexa_backend.Keyed.{Columns, Tables, KeyedError, Created, has_id, insert_row, create_keyed}
use virexa_backend.Keyed.Version.{is_at, update_one}
use virexa_backend.Workflows.{
  WorkflowStatus, draft, status_eq, Workflow, CreateWorkflowRequest, UpdateWorkflowRequest,
}
use mathlib.Core.Option

pub record WorkflowRow : Type 0 where
  pub id : ℕ
  pub organization_id : ℕ
  pub created_by_user_id : ℕ
  pub name : Text
  pub description : Option Text
  pub status : WorkflowStatus
  pub version : ℕ
  pub created_at : ℕ
  pub updated_at : ℕ

abbrev pub map_workflow : (ℕ → ℕ) → WorkflowRow → Workflow
map_workflow to_date row = record {
  id = row.id;
  organization_id = row.organization_id;
  created_by_user_id = row.created_by_user_id;
  name = row.name;
  description = row.description;
  status = row.status;
  version = row.version;
  created_at = to_date row.created_at;
  updated_at = to_date row.updated_at;
}

-- `description?.trim() || null`
abbrev pub trim_or_null : Option Text → Option Text
trim_or_null none = none
trim_or_null (some s) = if is_empty (trim s) then none else some (trim s)

unfoldable pub normalized_create_payload : CreateWorkflowRequest → CreateWorkflowRequest
normalized_create_payload input = record {
  name = trim input.name;
  description = trim_or_null input.description;
}

unfoldable pub request_hash : (CreateWorkflowRequest → Text) → CreateWorkflowRequest → Text
unfolding normalized_create_payload
request_hash hash input = hash (normalized_create_payload input)

-- The row of INSERT INTO workflows, with the defaults of the table.
abbrev pub workflow_row : ℕ → ℕ → ℕ → ℕ → CreateWorkflowRequest → WorkflowRow
workflow_row now fresh organization user input = record {
  id = fresh;
  organization_id = organization;
  created_by_user_id = user;
  name = input.name;
  description = input.description;
  status = draft;
  version = 1;
  created_at = now;
  updated_at = now;
}

-- the columns that the statements of Keyed read
abbrev pub columns : (ℕ → ℕ) → Columns WorkflowRow Workflow
columns to_date = record {
  id = λ w. w.id;
  organization_id = λ w. w.organization_id;
  project = map_workflow to_date;
}

unfoldable pub has_fields : UpdateWorkflowRequest → Bool
has_fields input = is_some input.name || is_some input.description || is_some input.status

-- the SET clause
abbrev pub or_else : {A : Type 0} → Option A → A → A
or_else none a = a
or_else (some b) a = b

unfoldable pub assign : ℕ → UpdateWorkflowRequest → WorkflowRow → WorkflowRow
assign now input w = record w {
  name = or_else (Option.map trim input.name) w.name;
  description = or_else (Option.map trim_or_null input.description) w.description;
  status = or_else input.status w.status;
  version = w.version + 1;
  updated_at = now;
}

abbrev pub status_is : Option WorkflowStatus → WorkflowRow → Bool
status_is none w = true
status_is (some s) w = status_eq w.status s

-- the WHERE clause
abbrev pub is_expected : ℕ → ℕ → ℕ → Option WorkflowStatus → WorkflowRow → Bool
is_expected organization id version status =
    is_at (columns (λ t. t)) (λ w. w.version) organization id version (status_is status)

module _ (hash : CreateWorkflowRequest → Text) (to_date : ℕ → ℕ) where
  unfoldable pub create :
      ℕ
      → ℕ
      → ℕ
      → ℕ
      → CreateWorkflowRequest
      → Tables WorkflowRow
      → Outcome KeyedError (Workflow × Tables WorkflowRow)
  unfolding insert_row normalized_create_payload
  create now fresh organization user input t = do
    let row = workflow_row now fresh organization user (normalized_create_payload input)
    t' ← insert_row (columns to_date) row t
    ok (map_workflow to_date row, t')

  -- The payload is normalized before it is hashed, and once more for the hash.
  unfoldable pub create_idempotent :
      ℕ
      → ℕ
      → ℕ
      → ℕ
      → CreateWorkflowRequest
      → Text
      → Tables WorkflowRow
      → Outcome KeyedError (Created Workflow × Tables WorkflowRow)
  unfolding normalized_create_payload request_hash create_keyed
  create_idempotent now fresh organization user input key t =
      let normalized = normalized_create_payload input in
      create_keyed (columns to_date) (workflow_row now fresh organization user normalized) key
        (request_hash hash normalized) t

module _ (to_date : ℕ → ℕ) where
  unfoldable pub get_by_id : ℕ → ℕ → List WorkflowRow → Option Workflow
  unfolding select
  get_by_id organization id rows =
      Option.map (map_workflow to_date)
        (first (select (has_id (columns to_date) organization id) rows))

  unfoldable pub update_workflow :
      ℕ
      → ℕ
      → ℕ
      → UpdateWorkflowRequest
      → Option WorkflowStatus
      → List WorkflowRow
      → Option Workflow × List WorkflowRow
  unfolding has_fields assign update_one get_by_id
  update_workflow now organization id input expected rows =
      if not (has_fields input)
      then (get_by_id organization id rows, rows)
      else update_one (columns to_date)
          (is_expected organization id input.expected_version expected) (assign now input) rows

pub record ListQuery : Type 0 where
  pub limit : ℕ
  pub status : Option WorkflowStatus
  pub cursor : Option Text

abbrev pub position : WorkflowRow → Position
position w = record { stamp = w.created_at; id = w.id }

abbrev pub in_scope : ℕ → Option WorkflowStatus → WorkflowRow → Bool
in_scope organization none w = w.organization_id == organization
in_scope organization (some s) w = w.organization_id == organization && status_eq w.status s

module _ (p : Platform) where
  unfoldable pub encode_workflow_cursor : Workflow → Text
  unfolding encode_cursor
  encode_workflow_cursor w = encode_cursor p w.created_at w.id

  unfoldable pub decode_workflow_cursor : Text → Option (Text × Text)
  unfolding decode_cursor is_uuid
  decode_workflow_cursor = decode_cursor p is_uuid

  unfoldable pub list_page : ℕ → ListQuery → List WorkflowRow → Outcome QueryError (Page Workflow)
  unfolding query_page encode_workflow_cursor decode_workflow_cursor
  list_page organization query rows =
      query_page p position (map_workflow p.to_date) encode_workflow_cursor decode_workflow_cursor
        (in_scope organization query.status) query.limit query.cursor rows
