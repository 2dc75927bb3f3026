-- ===== src/Documents.antt =====
-- PostgresDocumentRepository of src/documents/repository.ts over the table of the migration for
-- documents, with the data of src/contracts/documents.ts. Foreign keys and the CHECK
-- constraints, which the schema of the request repeats, are not modelled.
pub mod Unique
pub mod Listing
pub mod Routes
mod Tests
use virexa_backend.Base.{
  ℕ, Bool, true, false, ◌&&◌, ◌||◌, not, Option, none, some, List, [], ◌∷◌, ◌==◌, any, first,
  if◌then◌else◌, Outcome, ok, throws,
}
use virexa_backend.Base.Text.{Text, text_eq, trim}
use virexa_backend.Base.Sql.{select}
use mathlib.Core.Option

pub data DocumentStatus : Type 0 where
  received processing review_required completed failed : DocumentStatus

abbrev pub status_code : DocumentStatus → ℕ
status_code received = 0
status_code processing = 1
status_code review_required = 2
status_code completed = 3
status_code failed = 4

abbrev pub status_eq : DocumentStatus → DocumentStatus → Bool
status_eq s t = status_code s == status_code t

pub data DocumentSource : Type 0 where
  upload email api integration : DocumentSource

abbrev pub source_code : DocumentSource → ℕ
source_code upload = 0
source_code email = 1
source_code api = 2
source_code integration = 3

-- A row, and `DocumentRecord` with its dates as the database has them.
pub record Document : Type 0 where
  pub id : ℕ
  pub organization_id : ℕ
  pub branch_id : Option ℕ
  pub department_id : Option ℕ
  pub source : DocumentSource
  pub external_reference : Option Text
  pub original_file_name : Text
  pub media_type : Text
  pub size_bytes : ℕ
  pub checksum_sha256 : Text
  pub status : DocumentStatus
  pub failure_code : Option Text
  pub received_at : ℕ
  pub updated_at : ℕ

pub record CreateDocumentRequest : Type 0 where
  pub branch_id : Option ℕ
  pub department_id : Option ℕ
  pub source : DocumentSource
  pub external_reference : Option Text
  pub original_file_name : Text
  pub media_type : Text
  pub size_bytes : ℕ
  pub checksum_sha256 : Text

pub data DuplicateDocumentReason : Type 0 where
  checksum external_reference_taken : DuplicateDocumentReason

-- the unique constraints: the name that comes with the error 23505
pub data Constraint : Type 0 where
  documents_pkey documents_org_checksum_uq documents_org_source_external_reference_uq : Constraint

pub data DocumentError : Type 0 where
  duplicate_document : DuplicateDocumentReason → DocumentError
  unique_violation : Constraint → DocumentError

-- `mapCreateError`, for an error 23505
unfoldable pub map_create_error : Constraint → DocumentError
map_create_error documents_pkey = unique_violation documents_pkey
map_create_error documents_org_checksum_uq = duplicate_document checksum
map_create_error documents_org_source_external_reference_uq =
    duplicate_document external_reference_taken

-- the row of the INSERT, with the defaults of the table
abbrev pub document_row : ℕ → ℕ → ℕ → CreateDocumentRequest → Document
document_row now fresh organization input = record {
  id = fresh;
  organization_id = organization;
  branch_id = input.branch_id;
  department_id = input.department_id;
  source = input.source;
  external_reference = input.external_reference;
  original_file_name = trim input.original_file_name;
  media_type = trim input.media_type;
  size_bytes = input.size_bytes;
  checksum_sha256 = input.checksum_sha256;
  status = received;
  failure_code = none;
  received_at = now;
  updated_at = now;
}

abbrev pub same_checksum : Document → Document → Bool
same_checksum a b =
    a.organization_id == b.organization_id && text_eq a.checksum_sha256 b.checksum_sha256

-- null is not equal to null
abbrev pub same_text : Option Text → Option Text → Bool
same_text (some s) (some t) = text_eq s t
same_text _ _ = false

abbrev pub same_reference : Document → Document → Bool
same_reference a b =
    a.organization_id == b.organization_id
    && source_code a.source == source_code b.source
    && same_text a.external_reference b.external_reference

-- The constraint that an insertion violates, if any. The documentation does not say which one is
-- named when there are two: `checksum_first` decides.
unfoldable pub violated : Bool → Document → List Document → Option Constraint
violated checksum_first row rows =
    let by_checksum = any (same_checksum row) rows in
    let by_reference = any (same_reference row) rows in
    if any (λ d. row.id == d.id) rows
    then some documents_pkey
    else if by_checksum && (checksum_first || not by_reference)
    then some documents_org_checksum_uq
    else if by_reference
    then some documents_org_source_external_reference_uq
    else none

unfoldable pub create :
    Bool
    → ℕ
    → ℕ
    → ℕ
    → CreateDocumentRequest
    → List Document
    → Outcome DocumentError Document × List Document
unfolding violated map_create_error
create checksum_first now fresh organization input rows =
    let row = document_row now fresh organization input in
    elim (violated checksum_first row rows) [
      | some constraint ↦ (throws (map_create_error constraint), rows)
      | none ↦ (ok row, row ∷ rows)
    ]

abbrev pub has_id : ℕ → ℕ → Document → Bool
has_id organization id d = d.organization_id == organization && d.id == id

unfoldable pub get_by_id : ℕ → ℕ → List Document → Option Document
unfolding select
get_by_id organization id rows = first (select (has_id organization id) rows)
