-- ===== src/Documents/Routes/Uploads.antt =====
-- The upload handlers of src/documents/routes.ts. `available` says whether the server has an upload
-- service; the service's repository is always configured there. The documents are read once, the
-- attempts when the service looks them up and when it writes them.
pub mod Laws
use virexa_backend.Base.{
  ℕ, Bool, true, Option, none, some, List, [], ◌∷◌, Outcome, ok, throws, ◌>>=◌, ◌>>◌,
}
use virexa_backend.Base.Text.{Text, codes}
use virexa_backend.Auth.{AuthenticatedContext, document_create}
use virexa_backend.Audit.{AuditEventInput, flag, identifier}
use virexa_backend.Http.{
  Incoming, Failure, Reply, World, parsed, found, check, writer, mutate, internal_error,
  document_storage_unavailable, document_upload_conflict, document_upload_not_found,
}
use virexa_backend.Documents.{Document, get_by_id}
use virexa_backend.Uploads.{
  Descriptor, UploadError, key_required, key_bound, key_conflict, already_completed, already_failed,
  attempt_not_found, attempt_failed, state_changed, Web, Storage,
}
use virexa_backend.Uploads.Attempts.{AttemptStatus, Attempt}
use virexa_backend.Uploads.Service.{
  PersistedDocumentUpload, CompletedDocumentUpload, initiate_persisted, complete_persisted,
}

abbrev pub upload_descriptor : ℕ → Document → Descriptor
upload_descriptor organization d = record {
  organization_id = organization;
  document_id = d.id;
  original_file_name = d.original_file_name;
  media_type = d.media_type;
  size_bytes = d.size_bytes;
  checksum = d.checksum_sha256;
}

-- DocumentUploadAttemptResponse
pub record PublicAttempt : Type 0 where
  pub id : ℕ
  pub document_id : ℕ
  pub status : AttemptStatus
  pub created_at : ℕ
  pub completed_at : Option ℕ
  pub updated_at : ℕ
  pub failure_code : Option Text

abbrev pub public_attempt : Attempt → PublicAttempt
public_attempt a = record {
  id = a.id;
  document_id = a.document_id;
  status = a.status;
  created_at = a.created_at;
  completed_at = a.completed_at;
  updated_at = a.updated_at;
  failure_code = a.failure_code;
}

-- the body of the reply to an initiation
pub record InitiatedUpload : Type 0 where
  pub attempt : PublicAttempt
  pub upload_url : Text
  pub expires_at : Text
  pub required_headers : List (Text × Text)
  pub replayed : Bool

-- the body of the reply to a completion
pub record CompletedUpload : Type 0 where
  pub attempt : PublicAttempt
  pub replayed : Bool

abbrev initiated_upload : PersistedDocumentUpload → InitiatedUpload
initiated_upload u = record {
  attempt = public_attempt u.attempt;
  upload_url = u.target.upload_url;
  expires_at = u.target.expires_at;
  required_headers = u.target.required_headers;
  replayed = u.replayed;
}

abbrev completed_upload : CompletedDocumentUpload → CompletedUpload
completed_upload u = record { attempt = public_attempt u.attempt; replayed = u.replayed }

-- the errors whose message has 'idempotency key', 'already completed' or 'already failed'
unfoldable pub initiation_failure : UploadError → Failure
initiation_failure key_required = record { status = 409; error = document_upload_conflict }
initiation_failure key_bound = record { status = 409; error = document_upload_conflict }
initiation_failure key_conflict = record { status = 409; error = document_upload_conflict }
initiation_failure already_completed = record { status = 409; error = document_upload_conflict }
initiation_failure already_failed = record { status = 409; error = document_upload_conflict }
initiation_failure _ = record { status = 500; error = internal_error }

-- the errors whose message has 'was not found for this document', and 'already failed' or 'state
-- changed concurrently'
unfoldable pub completion_failure : UploadError → Failure
completion_failure attempt_not_found = record { status = 404; error = document_upload_not_found }
completion_failure already_failed = record { status = 409; error = document_upload_conflict }
completion_failure attempt_failed = record { status = 409; error = document_upload_conflict }
completion_failure state_changed = record { status = 409; error = document_upload_conflict }
completion_failure _ = record { status = 500; error = internal_error }

module _ {S : Type 0} (web : Web) (storage : Storage S) (incoming : Incoming) where
  -- the checks of both handlers, for the parsed key or the parsed identifier
  unfoldable pub upload_checks :
      {B : Type 0}
      → Bool
      → Option ℕ
      → Option B
      → List Document
      → Outcome Failure (AuthenticatedContext × Document × B)
  upload_checks available parsed_id b documents = do
    context ← writer incoming document_create
    check available 503 document_storage_unavailable
    id ← parsed parsed_id
    x ← parsed b
    document ← found (get_by_id context.user.organization_id id documents)
    ok (context, document, x)

  unfoldable pub upload_reply :
      Outcome UploadError PersistedDocumentUpload → Outcome Failure (Reply InitiatedUpload)
  unfolding initiation_failure
  upload_reply (ok u) = ok (record { status = 200; body = initiated_upload u })
  upload_reply (throws e) = throws (initiation_failure e)

  -- `rows` at the lookup and `rows'` at the insertion
  unfoldable pub post_upload :
      S
      → Bool
      → Option ℕ
      → Option Text
      → List Document
      → ℕ
      → ℕ
      → ℕ
      → ℕ
      → List Attempt
      → List Attempt
      → Outcome Failure (Reply InitiatedUpload) × List Attempt
  unfolding upload_reply
  post_upload s available parsed_id key documents random fresh now_ms now rows rows' =
      elim (upload_checks available parsed_id key documents) [
        | throws failure ↦ (throws failure, rows')
        | ok (context, document, idempotency_key) ↦
            let r =
              initiate_persisted web storage s true
                (upload_descriptor context.user.organization_id document) idempotency_key random
                fresh now_ms now rows rows' in
            (upload_reply r.0, r.1)
      ]

  unfoldable pub upload_completed_event :
      AuthenticatedContext → Document → CompletedUpload → AuditEventInput
  upload_completed_event context document u = record {
    organization_id = context.user.organization_id;
    actor_user_id = some context.user.id;
    action = codes "document.upload_completed";
    resource_type = codes "document";
    resource_id = some document.id;
    request_id = incoming.request_id;
    metadata =
        (codes "uploadAttemptId", identifier (some u.attempt.id))
        ∷ (codes "replayed", flag u.replayed)
        ∷ [];
  }

  -- `rows` at the lookup; the world has the object store at the inspection and the attempts at the
  -- write
  unfoldable pub post_upload_complete :
      Bool
      → Option ℕ
      → Option ℕ
      → List Document
      → ℕ
      → List Attempt
      → World (S × List Attempt)
      → Outcome Failure (Reply CompletedUpload) × World (S × List Attempt)
  post_upload_complete available parsed_id attempt_id documents now rows w =
      mutate (upload_checks available parsed_id attempt_id documents)
        (λ (context, document, id).
          let r =
            complete_persisted storage true
              (upload_descriptor context.user.organization_id document) id now w.tables.0 rows
              w.tables.1 in
          (r.0 >>= λ u. ok (completed_upload u), (r.1, r.2)))
        completion_failure 200 (λ (context, document, _). upload_completed_event context document) w
