-- ===== src/Extractions/Routes.antt =====
-- The handlers of src/extractions/routes.ts. Results of the schemas' `safeParse` are arguments,
-- null for a refused input. A method of the repository with two statements has the table at both.
pub mod Laws
pub mod Isolation
use virexa_backend.Base.{
  ℕ, Option, none, some, List, [], ◌∷◌, map, Outcome, ok, throws, ◌>>=◌, ◌>>◌, Bool,
}
use virexa_backend.Base.Text.{Text, codes}
use virexa_backend.Platform.{Platform}
use virexa_backend.Auth.{AuthenticatedContext, document_read, document_manage}
use virexa_backend.Audit.{AuditEventInput, Value, text, identifier, texts}
use virexa_backend.Http.{
  Incoming, Failure, Reply, World, parsed, reader, writer, mutate, not_found, invalid_cursor,
  internal_error, extraction_review_field_not_found, extraction_review_conflict,
  extraction_completion_invalid_state, extraction_completion_conflict,
}
use virexa_backend.Paging.{Page}
use virexa_backend.Paging.Query.{QueryError}
use virexa_backend.Extractions.{
  ReviewField, ExtractionRow, DocumentExtraction, ExtractionError, ExtractionStatus,
  document_not_found, extraction_not_found, review_field_not_found, review_conflict,
  completion_invalid_state, completion_conflict, create_or_replay, review, complete,
}
use virexa_backend.Extractions.Listing.{list_extractions}

-- the parsed query string
pub record ExtractionQuery : Type 0 where
  pub limit : ℕ
  pub status : Option ExtractionStatus
  pub cursor : Option Text

-- the parsed body of a review
pub record ReviewRequest : Type 0 where
  pub expected_updated_at : Text
  pub fields : List ReviewField

unfoldable pub list_failure : QueryError → Failure
list_failure QueryError.invalid_cursor = record { status = 400; error = invalid_cursor }
list_failure _ = record { status = 500; error = internal_error }

-- What each handler answers to an error of the repository.
unfoldable pub create_failure : ExtractionError → Failure
create_failure document_not_found = record { status = 404; error = not_found }
create_failure _ = record { status = 500; error = internal_error }

unfoldable pub review_failure : ExtractionError → Failure
review_failure extraction_not_found = record { status = 404; error = not_found }
review_failure review_field_not_found = record {
  status = 409;
  error = extraction_review_field_not_found;
}
review_failure review_conflict = record { status = 409; error = extraction_review_conflict }
review_failure _ = record { status = 500; error = internal_error }

unfoldable pub complete_failure : ExtractionError → Failure
complete_failure extraction_not_found = record { status = 404; error = not_found }
complete_failure completion_invalid_state = record {
  status = 409;
  error = extraction_completion_invalid_state;
}
complete_failure completion_conflict = record {
  status = 409;
  error = extraction_completion_conflict;
}
complete_failure _ = record { status = 500; error = internal_error }

module _ (p : Platform) (incoming : Incoming) where
  unfoldable pub get_extractions :
      Option ℕ
      → Option ExtractionQuery
      → List ExtractionRow
      → Outcome Failure (Reply (Page DocumentExtraction))
  unfolding list_failure
  get_extractions document query rows = do
    context ← reader incoming document_read
    document_id ← parsed document
    q ← parsed query
    elim (list_extractions p
        (record {
          organization_id = context.user.organization_id;
          document_id = document_id;
          limit = q.limit;
          status = q.status;
          cursor = q.cursor;
        })
        rows) [
          | throws e ↦ throws (list_failure e)
          | ok page ↦ ok (record { status = 200; body = page })
        ]

  unfoldable pub extraction_event :
      AuthenticatedContext → Text → DocumentExtraction → List (Text × Value) → AuditEventInput
  extraction_event context action e metadata = record {
    organization_id = context.user.organization_id;
    actor_user_id = some context.user.id;
    action = action;
    resource_type = codes "document_extraction";
    resource_id = some e.id;
    request_id = incoming.request_id;
    metadata = (codes "documentId", identifier (some e.document_id)) ∷ metadata;
  }

  -- what a handler that changes state checks: the guards, then the three parsed arguments
  unfoldable pub write_checks :
      {B C : Type 0}
      → Option ℕ
      → Option B
      → Option C
      → Outcome Failure (AuthenticatedContext × ℕ × B × C)
  write_checks document b c = do
    context ← writer incoming document_manage
    document_id ← parsed document
    x ← parsed b
    y ← parsed c
    ok (context, document_id, x, y)

  -- `earlier` at the lookup, and the world at the insertion
  unfoldable pub post_extraction :
      ℕ
      → ℕ
      → (ℕ → ℕ → Bool)
      → Option ℕ
      → Option Text
      → Option Text
      → List ExtractionRow
      → World (List ExtractionRow)
      → Outcome Failure (Reply DocumentExtraction) × World (List ExtractionRow)
  post_extraction now fresh exists document schema_version key earlier w =
      mutate (write_checks document schema_version key)
        (λ (context, document_id, version, idempotency_key).
          create_or_replay p.to_date now fresh exists
            (record {
              organization_id = context.user.organization_id;
              document_id = document_id;
              schema_version = version;
              idempotency_key = idempotency_key;
            })
            earlier w.tables)
        create_failure 202
        (λ (context, _, _, _) e.
          extraction_event context (codes "document.extraction_requested") e
            ((codes "schemaVersion", text e.schema_version) ∷ []))
        w

  -- `later` is read where the UPDATE found no row
  unfoldable pub patch_review :
      ℕ
      → Option ℕ
      → Option ℕ
      → Option ReviewRequest
      → List ExtractionRow
      → World (List ExtractionRow)
      → Outcome Failure (Reply DocumentExtraction) × World (List ExtractionRow)
  patch_review now document extraction body later w =
      mutate (write_checks document extraction body)
        (λ (context, document_id, extraction_id, request).
          review p now
            (record {
              organization_id = context.user.organization_id;
              document_id = document_id;
              extraction_id = extraction_id;
              expected_updated_at = request.expected_updated_at;
            })
            request.fields w.tables later)
        review_failure 200
        (λ (context, _, _, request) e.
          extraction_event context (codes "document.extraction_reviewed") e
            ((codes "reviewedFieldKeys", texts (map (λ q. q.key) request.fields)) ∷ []))
        w

  -- the body of a completion is its token
  unfoldable pub post_complete :
      ℕ
      → Option ℕ
      → Option ℕ
      → Option Text
      → List ExtractionRow
      → World (List ExtractionRow)
      → Outcome Failure (Reply DocumentExtraction) × World (List ExtractionRow)
  post_complete now document extraction body later w =
      mutate (write_checks document extraction body)
        (λ (context, document_id, extraction_id, token).
          complete p now
            (record {
              organization_id = context.user.organization_id;
              document_id = document_id;
              extraction_id = extraction_id;
              expected_updated_at = token;
            })
            w.tables later)
        complete_failure 200
        (λ (context, _, _, _) e.
          extraction_event context (codes "document.extraction_completed") e [])
        w
