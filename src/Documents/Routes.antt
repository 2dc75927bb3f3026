-- ===== src/Documents/Routes.antt =====
-- The handlers of src/documents/routes.ts but for the uploads, which are the child's. Results of the
-- schemas' `safeParse` are arguments, null for a refused input.
pub mod Uploads
pub mod Laws
use virexa_backend.Base.{
  ℕ, Bool, true, Option, none, some, List, [], ◌∷◌, Outcome, ok, throws, ◌>>=◌, ◌>>◌,
}
use virexa_backend.Base.Text.{Text, codes}
use virexa_backend.Platform.{Platform}
use virexa_backend.Auth.{AuthenticatedContext, document_read, document_create}
use virexa_backend.Audit.{AuditEventInput, text, identifier}
use virexa_backend.Http.{
  Incoming, Failure, Reply, World, parsed, found, reader, writer, mutate, invalid_cursor,
  internal_error, document_checksum_conflict, document_external_reference_conflict,
}
use virexa_backend.Paging.{Page}
use virexa_backend.Paging.Query.{QueryError}
use virexa_backend.Documents.{
  DocumentSource, upload, email, api, integration, Document, CreateDocumentRequest, DocumentError,
  duplicate_document, checksum, external_reference_taken, unique_violation, create, get_by_id,
}
use virexa_backend.Documents.Listing.{DocumentListQuery, list_documents}

unfoldable pub list_failure : QueryError → Failure
list_failure QueryError.invalid_cursor = record { status = 400; error = invalid_cursor }
list_failure _ = record { status = 500; error = internal_error }

unfoldable pub document_failure : DocumentError → Failure
document_failure (duplicate_document checksum) = record {
  status = 409;
  error = document_checksum_conflict;
}
document_failure (duplicate_document external_reference_taken) = record {
  status = 409;
  error = document_external_reference_conflict;
}
document_failure (unique_violation _) = record { status = 500; error = internal_error }

abbrev pub source_text : DocumentSource → Text
source_text upload = codes "upload"
source_text email = codes "email"
source_text api = codes "api"
source_text integration = codes "integration"

module _ (incoming : Incoming) where
  unfoldable pub get_documents :
      Platform → Option DocumentListQuery → List Document → Outcome Failure (Reply (Page Document))
  unfolding list_failure
  get_documents p query rows = do
    context ← reader incoming document_read
    q ← parsed query
    elim (list_documents p context.user.organization_id q rows) [
      | throws e ↦ throws (list_failure e)
      | ok page ↦ ok (record { status = 200; body = page })
    ]

  unfoldable pub get_document : Option ℕ → List Document → Outcome Failure (Reply Document)
  get_document parsed_id rows = do
    context ← reader incoming document_read
    id ← parsed parsed_id
    document ← found (get_by_id context.user.organization_id id rows)
    ok (record { status = 200; body = document })

  unfoldable pub received_event : AuthenticatedContext → Document → AuditEventInput
  received_event context d = record {
    organization_id = context.user.organization_id;
    actor_user_id = some context.user.id;
    action = codes "document.received";
    resource_type = codes "document";
    resource_id = some d.id;
    request_id = incoming.request_id;
    metadata =
        (codes "source", text (source_text d.source))
        ∷ (codes "branchId", identifier d.branch_id)
        ∷ (codes "departmentId", identifier d.department_id)
        ∷ [];
  }

  unfoldable pub create_checks :
      Option CreateDocumentRequest → Outcome Failure (AuthenticatedContext × CreateDocumentRequest)
  create_checks body = do
    context ← writer incoming document_create
    input ← parsed body
    ok (context, input)

  unfoldable pub post_document :
      Bool
      → ℕ
      → ℕ
      → Option CreateDocumentRequest
      → World (List Document)
      → Outcome Failure (Reply Document) × World (List Document)
  unfolding create_checks
  post_document checksum_first now fresh body w =
      mutate (create_checks body)
        (λ (context, input).
          create checksum_first now fresh context.user.organization_id input w.tables)
        document_failure 201 (λ (context, _). received_event context) w
