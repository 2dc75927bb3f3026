-- ===== src/Documents/Routes/Uploads/Laws.antt =====
-- What the upload handlers of src/documents/routes.ts guarantee.
use virexa_backend.Base.{
  ℕ, ◌≡◌, ap, ◌∙◌, Bool, true, Option, some, List, ◌∷◌, arith, ok, Outcome-cases, Option-cases,
  Bool-cases, inl, inr,
}
use virexa_backend.Base.Sql.{IsKeyed}
use virexa_backend.Auth.{AuthenticatedContext, document_create, assert_trusted_origin}
use virexa_backend.Http.{Incoming, Reply, World, writer}
use virexa_backend.Http.Laws.{IsCaller, reader_sound, writer-reader, mutate_success}
use virexa_backend.Documents.{Document, get_by_id}
use virexa_backend.Uploads.{Web, Storage}
use virexa_backend.Uploads.Attempts.{Attempt}
use virexa_backend.Uploads.Service.{CompletedDocumentUpload, complete_persisted}
use virexa_backend.Uploads.Service.Completion.{Completes, complete_persisted_sound}
use virexa_backend.Documents.Routes.Uploads.{
  CompletedUpload, public_attempt, upload_descriptor, upload_checks, upload_completed_event,
  post_upload_complete,
}

module _ {S : Type 0} (web : Web) (storage : Storage S) (incoming : Incoming) where
  -- what the checks establish
  pub record Checked (available : Bool) (parsed_id : Option ℕ) (documents : List Document)
      (context : AuthenticatedContext) (document : Document) : Type 0 where
    pub trusted : assert_trusted_origin incoming.configured_origin incoming.request ≡ ok tt
    pub caller : IsCaller incoming document_create context
    pub in_service : available ≡ true
    pub id : ℕ
    pub named : parsed_id ≡ some id
    pub read : get_by_id context.user.organization_id id documents ≡ some document

  upload_checks_sound :
      {B : Type 0} (available : Bool) (parsed_id : Option ℕ) (b : Option B)
      (documents : List Document) (context : AuthenticatedContext) (document : Document) (x : B)
      → upload_checks web storage incoming available parsed_id b documents
        ≡ ok (context, document, x)
      → Checked available parsed_id documents context document × (b ≡ some x)
  unfolding upload_checks
  upload_checks_sound available parsed_id b documents context document x h =
      elim (Outcome-cases (writer incoming document_create)) [
        | inr (e, refused) ↦ absurd (ground (arith, refused))
        | inl (c, passed) ↦ elim (Bool-cases available) [
          | inr off ↦ absurd (ground (arith, passed, off))
          | inl on ↦ elim (Option-cases parsed_id) [
            | inl malformed ↦ absurd (ground (arith, passed, on, malformed))
            | inr (id, named) ↦ elim (Option-cases b) [
              | inl malformed ↦ absurd (ground (arith, passed, on, named, malformed))
              | inr (y, given) ↦
                  elim (Option-cases (get_by_id c.user.organization_id id documents)) [
                    | inl missing ↦ absurd (ground (arith, passed, on, named, given, missing))
                    | inr (d, found_row) ↦
                        let same : c ≡ context =
                          ground (arith, passed, on, named, given, found_row) in
                        let (trusted, read) =
                          writer-reader incoming document_create context (passed ∙ ap ok same) in
                        (
                          record {
                            trusted = trusted;
                            caller = reader_sound incoming document_create context read;
                            in_service = on;
                            id = id;
                            named = named;
                            read = ground (arith, passed, on, named, given, found_row);
                          },
                          ground (arith, passed, on, named, given, found_row),
                        )
                  ]
            ]
          ]
        ]
      ]

  -- an upload that was completed
  pub record Uploaded (available : Bool) (parsed_id attempt_id : Option ℕ)
      (documents : List Document) (rows : List Attempt) (w after : World (S × List Attempt))
      (reply : CompletedUpload) : Type 0 where
    pub context : AuthenticatedContext
    pub document : Document
    pub checked : Checked available parsed_id documents context document
    pub id : ℕ
    pub named : attempt_id ≡ some id
    pub result : CompletedDocumentUpload
    pub completes :
        Completes storage
          (upload_descriptor context.user.organization_id document)
          id
          w.tables.0
          rows
          w.tables.1
          result
          after.tables.1
    pub answered :
        (reply.attempt ≡ public_attempt result.attempt) × (reply.replayed ≡ result.replayed)
    pub audited :
        after.audit ≡ upload_completed_event web storage incoming context document reply ∷ w.audit

  -- When the completion of an upload succeeds, it came from a trusted origin and a session that may
  -- create documents, the document is its organization's, the attempt is for this document and its
  -- object, just inspected, has the key, type, size and checksum described, the attempt answered is
  -- completed as stored, and one event is recorded.
  pub post_upload_complete_sound :
      (available : Bool) (parsed_id attempt_id : Option ℕ) (documents : List Document) (now : ℕ)
      (rows : List Attempt) (w after : World (S × List Attempt)) (reply : Reply CompletedUpload)
      → IsKeyed (λ b. b.id) w.tables.1
      → post_upload_complete web storage incoming available parsed_id attempt_id documents now rows
          w
        ≡ (ok reply, after)
      → Uploaded available parsed_id attempt_id documents rows w after reply.body
  unfolding post_upload_complete
  post_upload_complete_sound available parsed_id attempt_id documents now rows w after reply keyed
        h =
      let s = mutate_success _ _ _ _ _ w reply after h in
      let (checked, named) =
        upload_checks_sound available parsed_id attempt_id documents s.input.0 s.input.1 s.input.2
          s.passed in
      let d = upload_descriptor s.input.0.user.organization_id s.input.1 in
      elim (Outcome-cases
        (complete_persisted storage true d s.input.2 now w.tables.0 rows w.tables.1).0) [
          | inr (e, failed) ↦ absurd (ground (arith, s.called, failed))
          | inl (result, done) ↦ record {
            context = s.input.0;
            document = s.input.1;
            checked = checked;
            id = s.input.2;
            named = named;
            result = result;
            completes =
                complete_persisted_sound storage true d s.input.2 now w.tables.0 after.tables.0 rows
                  w.tables.1 after.tables.1 result keyed (ground (arith, s.called, done));
            answered = ground (arith, s.called, done);
            audited = s.audited;
          }
        ]
