-- ===== src/Documents/Tests.antt =====
-- The theorem on documents at a concrete table.
use virexa_backend.Base.{
  ◌≡◌, refl, ◌⊎◌, true, false, none, some, List, [], ◌∷◌, arith, any, ok, throws,
}
use virexa_backend.Base.Text.{Text, codes, text_eq, trim}
use virexa_backend.Base.Sql.{select, update, returning}
use virexa_backend.Documents.{
  upload, Document, CreateDocumentRequest, duplicate_document, checksum, external_reference_taken,
  document_row, same_checksum, same_reference, create, get_by_id,
}
use virexa_backend.Auth.{
  includes, role_permissions, require_authenticated, require_permission, is_safe_method,
  assert_trusted_origin,
}
use virexa_backend.Http.{Reply, World, writer, reader, answer, mutate}
use virexa_backend.Http.Concrete.{posted, context}
use virexa_backend.Documents.Routes.{create_checks, received_event, post_document}
use virexa_backend.Documents.Routes.Laws.{Receives, post_document_served}
use virexa_backend.Documents.Routes.Uploads.{
  CompletedUpload, public_attempt, upload_checks, upload_completed_event, post_upload_complete,
}
use virexa_backend.Documents.Routes.Uploads.Laws.{Uploaded, post_upload_complete_sound}
use virexa_backend.Uploads.{
  StoredObject, Web, Storage, provider_fault, is_sha256, assert_upload_descriptor,
  assert_stored_object,
}
use virexa_backend.Uploads.Attempts.{Attempt, attempt_row, to_completed, complete}
use virexa_backend.Uploads.Service.{
  completion_checks, finish_attempt, as_completed, verify_completion, settle, complete_persisted,
}
use virexa_backend.Documents.Unique.{IsUnique, create_lem}

computed : Unit {0}
unfolding select text_eq trim create get_by_id includes role_permissions require_authenticated
    require_permission is_safe_method assert_trusted_origin writer reader answer mutate
    create_checks received_event post_document upload_checks upload_completed_event
    post_upload_complete is_sha256 assert_upload_descriptor assert_stored_object complete
    completion_checks finish_attempt as_completed verify_completion settle complete_persisted update
    returning
computed = tt

abbrev input : Text → Text → CreateDocumentRequest
input content reference = record {
  branch_id = none;
  department_id = none;
  source = upload;
  external_reference = some reference;
  original_file_name = codes "invoice.pdf";
  media_type = codes "application/pdf";
  size_bytes = 12;
  checksum_sha256 = content;
}

abbrev rows : List Document
rows = document_row 50 7 4 (input (codes "aa") (codes "r-1")) ∷ []

create_tests :
    (create true 60 8 4 (input (codes "aa") (codes "r-2")) rows
      ≡ (throws (duplicate_document checksum), rows))
    × (create true 60 8 4 (input (codes "bb") (codes "r-1")) rows
        ≡ (throws (duplicate_document external_reference_taken), rows))
    × (create true 60 8 5 (input (codes "aa") (codes "r-1")) rows ≡ (
      ok (document_row 60 8 5 (input (codes "aa") (codes "r-1"))),
      document_row 60 8 5 (input (codes "aa") (codes "r-1")) ∷ rows,
    ))
unfolding computed
create_tests = (refl, refl, refl)

create_lem_example :
    IsUnique (create true 60 8 4 (input (codes "bb") (codes "r-1")) rows).1
    × (((create true 60 8 4 (input (codes "bb") (codes "r-1")) rows ≡ (
      ok (document_row 60 8 4 (input (codes "bb") (codes "r-1"))),
      document_row 60 8 4 (input (codes "bb") (codes "r-1")) ∷ rows,
    ))
          × (get_by_id 4 8 (create true 60 8 4 (input (codes "bb") (codes "r-1")) rows).1
              ≡ some (document_row 60 8 4 (input (codes "bb") (codes "r-1")))))
        ⊎ (((create true 60 8 4 (input (codes "bb") (codes "r-1")) rows
                ≡ (throws (duplicate_document checksum), rows))
              × (any (same_checksum (document_row 60 8 4 (input (codes "bb") (codes "r-1")))) rows
                  ≡ true))
            ⊎ ((create true 60 8 4 (input (codes "bb") (codes "r-1")) rows
                  ≡ (throws (duplicate_document external_reference_taken), rows))
                × (any
                      (same_reference (document_row 60 8 4 (input (codes "bb") (codes "r-1"))))
                      rows
                    ≡ true))))
create_lem_example =
    create_lem true 60 8 4 (input (codes "bb") (codes "r-1")) rows (ground arith) (tt, tt)

abbrev world : World (List Document)
world = record { tables = rows; audit = [] }

abbrev received : Document
received = document_row 60 8 4 (input (codes "bb") (codes "r-2"))

abbrev reply : Reply Document
reply = record { status = 201; body = received }

abbrev after : World (List Document)
after = record { tables = received ∷ rows; audit = received_event posted context received ∷ [] }

post_document_test :
    post_document posted true 60 8 (some (input (codes "bb") (codes "r-2"))) world
    ≡ (ok reply, after)
unfolding computed
post_document_test = refl

post_document_served_example : Receives posted reply.body world after
post_document_served_example =
    post_document_served posted true 60 8 (some (input (codes "bb") (codes "r-2"))) world after
      reply post_document_test

abbrev content : Text
content = codes "0123456789abcdef0123456789abcdef0123456789abcdef0123456789abcdef"

abbrev document : Document
document = document_row 50 6 4 (input content (codes "r-3"))

abbrev web : Web
web = record {
  url_protocol = λ s. some (codes "https:");
  date_parse = λ s. some 1000;
  to_lower_case = λ s. s;
  organization_digest = λ o. o ∷ [];
  uuid_text = λ i. i ∷ [];
}

abbrev object : StoredObject
object = record {
  object_key = codes "documents/a";
  media_type = codes "application/pdf";
  size_bytes = 12;
  checksum = content;
}

-- a store with this object alone
abbrev storage : Storage Unit
storage = record {
  create_upload_target = λ s d key. throws provider_fault;
  inspect_object = λ s key. ok (some object);
  delete_object = λ s key. ok s;
}

abbrev attempt : Attempt
attempt =
    attempt_row 50 7 4 (record {
      document_id = 6;
      idempotency_key = codes "key-1";
      object_key = codes "documents/a";
    })

abbrev uploads : World (Unit × List Attempt)
uploads = record { tables = (tt, attempt ∷ []); audit = [] }

abbrev uploaded : CompletedUpload
uploaded = record { attempt = public_attempt (to_completed 70 attempt); replayed = false }

abbrev uploads_after : World (Unit × List Attempt)
uploads_after = record {
  tables = (tt, to_completed 70 attempt ∷ []);
  audit = upload_completed_event web storage posted context document uploaded ∷ [];
}

abbrev uploaded_reply : Reply CompletedUpload
uploaded_reply = record { status = 200; body = uploaded }

post_upload_complete_test :
    post_upload_complete web storage posted true
      (some 6)
      (some 7)
      (document ∷ [])
      70
      (attempt ∷ [])
      uploads
    ≡ (ok uploaded_reply, uploads_after)
unfolding computed
post_upload_complete_test = refl

post_upload_complete_sound_example :
    Uploaded web storage posted true
      (some 6)
      (some 7)
      (document ∷ [])
      (attempt ∷ [])
      uploads
      uploads_after
      uploaded_reply.body
post_upload_complete_sound_example =
    post_upload_complete_sound web storage posted true (some 6) (some 7) (document ∷ []) 70
      (attempt ∷ []) uploads uploads_after uploaded_reply (tt, tt) post_upload_complete_test
