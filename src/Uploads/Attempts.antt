-- ===== src/Uploads/Attempts.antt =====
-- PostgresDocumentUploadAttemptRepository of src/documents/upload-attempt-repository.ts over the
-- table of migrations/009_document_upload_attempts.sql. Foreign keys and the CHECKs on the
-- lengths of texts are not modelled.
pub mod Laws
pub mod History
use virexa_backend.Base.{
  ℕ, Bool, true, false, ◌&&◌, ◌||◌, not, Option, none, some, List, [], ◌∷◌, ◌==◌, any, first,
  if◌then◌else◌, Outcome, ok, throws,
}
use virexa_backend.Base.Text.{Text, text_eq, trim}
use virexa_backend.Base.Sql.{select, update, returning}
use virexa_backend.Uploads.{UploadError, key_conflict, unique_violation}
use mathlib.Core.Option

pub data AttemptStatus : Type 0 where
  initiated completed failed : AttemptStatus

abbrev pub is_initiated : AttemptStatus → Bool
is_initiated initiated = true
is_initiated _ = false

-- A row, and `DocumentUploadAttempt` with its dates as the database has them.
pub record Attempt : Type 0 where
  pub id : ℕ
  pub organization_id : ℕ
  pub document_id : ℕ
  pub idempotency_key : Text
  pub object_key : Text
  pub status : AttemptStatus
  pub failure_code : Option Text
  pub created_at : ℕ
  pub completed_at : Option ℕ
  pub updated_at : ℕ

pub record CreateAttempt : Type 0 where
  pub document_id : ℕ
  pub idempotency_key : Text
  pub object_key : Text

abbrev pub has_id : ℕ → ℕ → Attempt → Bool
has_id organization id a = a.organization_id == organization && a.id == id

-- the argument is trimmed in the query
abbrev pub has_key : ℕ → Text → Attempt → Bool
has_key organization key a =
    a.organization_id == organization && text_eq a.idempotency_key (trim key)

abbrev pub attempt_row : ℕ → ℕ → ℕ → CreateAttempt → Attempt
attempt_row now fresh organization input = record {
  id = fresh;
  organization_id = organization;
  document_id = input.document_id;
  idempotency_key = trim input.idempotency_key;
  object_key = input.object_key;
  status = initiated;
  failure_code = none;
  created_at = now;
  completed_at = none;
  updated_at = now;
}

-- PRIMARY KEY (id), and UNIQUE (organization_id, object_key) WHERE status = 'initiated'
abbrev pub clashes : Attempt → Attempt → Bool
clashes a b =
    a.id == b.id
    || (a.organization_id == b.organization_id
        && text_eq a.object_key b.object_key
        && is_initiated b.status)

same_request : CreateAttempt → Option Attempt → Outcome UploadError Attempt
same_request input none = throws key_conflict
same_request input (some a) =
    if not (a.document_id == input.document_id) || not (text_eq a.object_key input.object_key)
    then throws key_conflict
    else ok a

-- INSERT … ON CONFLICT (organization_id, idempotency_key) DO NOTHING, else SELECT … FOR UPDATE. A
-- throw rolls back; the conflict writes nothing.
unfoldable pub create_or_get :
    ℕ → ℕ → ℕ → CreateAttempt → List Attempt → Outcome UploadError Attempt × List Attempt
unfolding select same_request
create_or_get now fresh organization input rows =
    let row = attempt_row now fresh organization input in
    if any (has_key organization input.idempotency_key) rows
    then (
      same_request input (first (select (has_key organization input.idempotency_key) rows)),
      rows,
    )
    else if any (clashes row) rows
    then (throws unique_violation, rows)
    else (ok row, row ∷ rows)

unfoldable pub get_by_id : ℕ → ℕ → List Attempt → Option Attempt
unfolding select
get_by_id organization id rows = first (select (has_id organization id) rows)

unfoldable pub get_by_idempotency_key : ℕ → Text → List Attempt → Option Attempt
unfolding select
get_by_idempotency_key organization key rows = first (select (has_key organization key) rows)

-- `status = 'initiated'` in the WHERE clauses
abbrev pub is_open : ℕ → ℕ → Attempt → Bool
is_open organization id a = has_id organization id a && is_initiated a.status

abbrev pub to_completed : ℕ → Attempt → Attempt
to_completed now a = record a {
  status = completed;
  completed_at = some now;
  failure_code = none;
  updated_at = now;
}

abbrev pub to_failed : ℕ → Text → Attempt → Attempt
to_failed now code a = record a {
  status = failed;
  completed_at = none;
  failure_code = some code;
  updated_at = now;
}

-- the returned row, or the row as it is
or_current : ℕ → ℕ → Option Attempt → List Attempt → Option Attempt
unfolding get_by_id
or_current organization id (some a) rows = some a
or_current organization id none rows = get_by_id organization id rows

unfoldable pub complete : ℕ → ℕ → ℕ → List Attempt → Option Attempt × List Attempt
unfolding update returning or_current
complete now organization id rows =
    let after = update (is_open organization id) (to_completed now) rows in
    (
      or_current organization id
          (first (returning (is_open organization id) (to_completed now) rows)) after,
      after,
    )

unfoldable pub fail : ℕ → ℕ → ℕ → Text → List Attempt → Option Attempt × List Attempt
unfolding update returning or_current
fail now organization id code rows =
    let after = update (is_open organization id) (to_failed now code) rows in
    (
      or_current organization id
          (first (returning (is_open organization id) (to_failed now code) rows)) after,
      after,
    )
