-- ===== src/Uploads/Service.antt =====
-- DocumentUploadService of src/documents/upload-service.ts. The table is given at each time that a
-- method reads or writes it, so that other requests may change it in between; the provider's state
-- is given at the call that uses it. `now_ms` is `Date.now()` and `now` the database clock.
pub mod Completion
pub mod Failure
pub mod Initiates
pub mod Initiation
pub mod Retry
use virexa_backend.Base.{
  ℕ, Bool, true, false, not, Option, none, some, List, ◌==◌, is_some, if◌then◌else◌, Outcome, ok,
  throws, ◌>>=◌, ◌>>◌, require,
}
use virexa_backend.Base.Text.{Text, codes, text_eq, trim, is_empty}
use virexa_backend.Uploads.{
  Descriptor, Target, StoredObject, UploadError, persistence_not_configured, key_required,
  key_bound, already_completed, already_failed, attempt_not_found, attempt_failed, state_changed,
  Web, assert_upload_descriptor, create_document_object_key, assert_upload_target,
  assert_stored_object, Storage,
}
use virexa_backend.Uploads.Attempts.{
  AttemptStatus, initiated, completed, failed, Attempt, create_or_get, get_by_id,
  get_by_idempotency_key, complete, fail,
}

pub record InitiatedDocumentUpload : Type 0 where
  pub object_key : Text
  pub target : Target

pub record PersistedDocumentUpload : Type 0 where
  pub attempt : Attempt
  pub object_key : Text
  pub target : Target
  pub replayed : Bool

pub record CompletedDocumentUpload : Type 0 where
  pub attempt : Attempt
  pub stored_object : StoredObject
  pub replayed : Bool

-- `Document upload attempt is already ${existing.status}.`
unfoldable pub require_initiated : AttemptStatus → Outcome UploadError (Unit {0})
require_initiated initiated = ok tt
require_initiated completed = throws already_completed
require_initiated failed = throws already_failed

-- the checks before the lookup: the normalized key
unfoldable pub initiation_checks : Bool → Descriptor → Text → Outcome UploadError Text
initiation_checks configured d idempotency_key = do
  assert_upload_descriptor d
  require configured persistence_not_configured
  require (not (is_empty (trim idempotency_key))) key_required
  ok (trim idempotency_key)

module _ {S : Type 0} (web : Web) (storage : Storage S) where
  unfoldable pub create_target : S → Descriptor → Text → ℕ → Outcome UploadError Target
  create_target s d object_key now_ms = do
    target ← storage.create_upload_target s d object_key
    assert_upload_target web d target object_key now_ms
    ok target

  unfoldable pub initiate : S → Descriptor → ℕ → ℕ → Outcome UploadError InitiatedDocumentUpload
  unfolding create_document_object_key
  initiate s d random now_ms = do
    assert_upload_descriptor d
    let object_key = create_document_object_key web d.organization_id d.document_id random
    target ← create_target s d object_key now_ms
    ok (record { object_key = object_key; target = target })

  -- an attempt that the lookup found
  unfoldable pub resume_attempt :
      S → Descriptor → Attempt → ℕ → Outcome UploadError PersistedDocumentUpload
  unfolding require_initiated
  resume_attempt s d existing now_ms = do
    require (existing.document_id == d.document_id) key_bound
    require_initiated existing.status
    target ← create_target s d existing.object_key now_ms
    ok (record {
      attempt = existing;
      object_key = existing.object_key;
      target = target;
      replayed = true;
    })

  -- the attempt that `createOrGet` returned, for the object key that was offered
  unfoldable pub persisted :
      S → Descriptor → Text → ℕ → Attempt → Outcome UploadError PersistedDocumentUpload
  persisted s d object_key now_ms attempt = do
    target ← create_target s d attempt.object_key now_ms
    ok (record {
      attempt = attempt;
      object_key = attempt.object_key;
      target = target;
      replayed = not (text_eq attempt.object_key object_key);
    })

  unfoldable pub start_attempt :
      S
      → Descriptor
      → Text
      → ℕ
      → ℕ
      → ℕ
      → ℕ
      → List Attempt
      → Outcome UploadError PersistedDocumentUpload × List Attempt
  unfolding persisted
  start_attempt s d key random fresh now_ms now rows =
      let object_key = create_document_object_key web d.organization_id d.document_id random in
      let created =
        create_or_get now fresh d.organization_id
          (record { document_id = d.document_id; idempotency_key = key; object_key = object_key })
          rows in
      (created.0 >>= persisted s d object_key now_ms, created.1)

  -- `rows` at the lookup and `rows'` at the insertion
  unfoldable pub initiate_persisted :
      S
      → Bool
      → Descriptor
      → Text
      → ℕ
      → ℕ
      → ℕ
      → ℕ
      → List Attempt
      → List Attempt
      → Outcome UploadError PersistedDocumentUpload × List Attempt
  unfolding initiation_checks resume_attempt start_attempt
  initiate_persisted s configured d idempotency_key random fresh now_ms now rows rows' =
      elim (initiation_checks configured d idempotency_key) [
        | throws e ↦ (throws e, rows')
        | ok key ↦ elim (get_by_idempotency_key d.organization_id key rows) [
          | some existing ↦ (resume_attempt s d existing now_ms, rows')
          | none ↦ start_attempt s d key random fresh now_ms now rows'
        ]
      ]

unfoldable pub as_completed :
    StoredObject → Option Attempt → Outcome UploadError CompletedDocumentUpload
as_completed o none = throws state_changed
as_completed o (some a) = elim a.status [
  | initiated ↦ throws state_changed
  | completed ↦ ok (record { attempt = a; stored_object = o; replayed = false })
  | failed ↦ throws state_changed
]

-- an attempt that was read as initiated, after its verification
unfoldable pub finish_attempt :
    {S : Type 0}
    → Descriptor
    → Attempt
    → ℕ
    → Outcome UploadError StoredObject × S
    → List Attempt
    → Outcome UploadError CompletedDocumentUpload × S × List Attempt
unfolding as_completed
finish_attempt d a now (throws e, s) rows = (
  throws e,
  s,
  (fail now d.organization_id a.id (codes "object_integrity_verification_failed") rows).1,
)
finish_attempt d a now (ok o, s) rows =
    let done = complete now d.organization_id a.id rows in (as_completed o done.0, s, done.1)

-- a completed attempt is verified again
unfoldable pub confirm_attempt :
    {S : Type 0}
    → Attempt
    → Outcome UploadError StoredObject × S
    → List Attempt
    → Outcome UploadError CompletedDocumentUpload × S × List Attempt
confirm_attempt a (throws e, s) rows = (throws e, s, rows)
confirm_attempt a (ok o, s) rows =
    (ok (record { attempt = a; stored_object = o; replayed = true }), s, rows)

unfoldable pub completion_checks :
    Bool → Descriptor → ℕ → List Attempt → Outcome UploadError Attempt
completion_checks configured d id rows = do
  assert_upload_descriptor d
  require configured persistence_not_configured
  elim (get_by_id d.organization_id id rows) [
    | none ↦ throws attempt_not_found
    | some a ↦ require (a.document_id == d.document_id) attempt_not_found >> ok a
  ]

module _ {S : Type 0} (storage : Storage S) where
  -- a failed cleanup is ignored
  unfoldable pub clean_up : S → Text → S
  clean_up s object_key = elim (storage.delete_object s object_key) [ ok s' ↦ s' | throws e ↦ s ]

  unfoldable pub settle :
      S → Descriptor → Text → Option StoredObject → Outcome UploadError StoredObject × S
  unfolding clean_up
  settle s d object_key observed = elim (assert_stored_object d observed object_key) [
    | ok o ↦ (ok o, s)
    | throws e ↦ (throws e, if is_some observed then clean_up s object_key else s)
  ]

  unfoldable pub verify_completion : S → Descriptor → Text → Outcome UploadError StoredObject × S
  unfolding settle
  verify_completion s d object_key = elim (assert_upload_descriptor d) [
    | throws e ↦ (throws e, s)
    | ok u ↦ elim (storage.inspect_object s object_key) [
      | throws e ↦ (throws e, s)
      | ok observed ↦ settle s d object_key observed
    ]
  ]

  -- `rows` at the read, `s` at the inspection, and `rows'` at the write
  unfoldable pub complete_persisted :
      Bool
      → Descriptor
      → ℕ
      → ℕ
      → S
      → List Attempt
      → List Attempt
      → Outcome UploadError CompletedDocumentUpload × S × List Attempt
  unfolding completion_checks finish_attempt confirm_attempt
  complete_persisted configured d id now s rows rows' =
      elim (completion_checks configured d id rows) [
        | throws e ↦ (throws e, s, rows')
        | ok a ↦ elim a.status [
          | failed ↦ (throws attempt_failed, s, rows')
          | completed ↦ confirm_attempt a (verify_completion s d a.object_key) rows'
          | initiated ↦ finish_attempt d a now (verify_completion s d a.object_key) rows'
        ]
      ]
