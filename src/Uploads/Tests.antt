-- ===== src/Uploads/Tests.antt =====
-- The theorems on uploads with a small provider: its state is the object under every key, or that
-- the provider is down.
use virexa_backend.Base.{
  ℕ, ◌≡◌, refl, ◌≢◌, ◌⊎◌, true, false, Option, none, some, List, [], ◌∷◌, arith, ok, throws, ◌==◌,
  All, Outcome, inl, ◌&&◌, if◌then◌else◌,
}
use virexa_backend.Base.Text.{Text, codes, text_eq, trim}
use virexa_backend.Base.Sql.{select, update, returning}
use virexa_backend.Uploads.{
  Descriptor, Target, StoredObject, UploadError, provider_fault, key_conflict, attempt_failed, Web,
  Storage, is_sha256, decimal, header, assert_upload_descriptor, create_document_object_key,
  assert_upload_target, assert_stored_object,
}
use virexa_backend.Uploads.Attempts.{
  initiated, Attempt, attempt_row, create_or_get, get_by_id, get_by_idempotency_key, complete, fail,
  to_completed, to_failed,
}
use virexa_backend.Uploads.Attempts.Laws.{
  IsConsistent, operations-IsConsistent, terminal-final, create_or_get-taken,
}
use virexa_backend.Uploads.Service.{
  PersistedDocumentUpload, CompletedDocumentUpload, create_target, initiation_checks,
  initiate_persisted, clean_up, verify_completion, complete_persisted,
}
use virexa_backend.Uploads.Service.Completion.{Completes, Fits, complete_persisted_sound}
use virexa_backend.Uploads.Service.Failure.{verify_completion-found, complete_persisted-failed}
use virexa_backend.Uploads.Service.Initiation.{Binds}
use virexa_backend.Uploads.Service.Retry.{
  retry_answer, initiate_persisted-Binds, initiate_persisted-retry, initiate_persisted-race,
}
use virexa_backend.Base.{◌&&◌, if◌then◌else◌}
use virexa_backend.Uploads.{decimal, target_expiry_invalid}
use virexa_backend.Uploads.Service.{create_target}
use virexa_backend.Uploads.Attempts.History.{Later, same, next, creates, completes, Follows, Kept}

computed : Unit {0}
unfolding select update returning text_eq trim is_sha256 decimal header assert_upload_descriptor
    create_document_object_key assert_upload_target assert_stored_object create_or_get get_by_id
    get_by_idempotency_key complete fail create_target initiate_persisted verify_completion
    complete_persisted initiation_checks
computed = tt

abbrev checksum : Text
checksum = codes "0123456789abcdef0123456789abcdef0123456789abcdef0123456789abcdef"

abbrev descriptor : Descriptor
descriptor = record {
  organization_id = 4;
  document_id = 6;
  original_file_name = codes "invoice.pdf";
  media_type = codes "application/pdf";
  size_bytes = 12;
  checksum = checksum;
}

abbrev web : Web
web = record {
  url_protocol = λ s. some (codes "https:");
  date_parse = λ s. some 1000;
  to_lower_case = λ s. s;
  organization_digest = λ o. o ∷ [];
  uuid_text = λ i. i ∷ [];
}

abbrev target : Text → Target
target object_key = record {
  object_key = object_key;
  upload_url = codes "https://objects.example.com/put";
  expires_at = codes "soon";
  required_headers =
      (codes "content-type", codes "application/pdf")
      ∷ (codes "content-length", codes "12")
      ∷ (codes "x-virexa-sha256", checksum)
      ∷ [];
}

inspect : Option (Option StoredObject) → Text → Outcome UploadError (Option StoredObject)
inspect none key = throws provider_fault
inspect (some o) key = ok o

abbrev storage : Storage (Option (Option StoredObject))
storage = record {
  create_upload_target = λ s d key. ok (target key);
  inspect_object = inspect;
  delete_object = λ s key. ok (some none);
}

abbrev object_key_of : ℕ → Text
object_key_of random = create_document_object_key web 4 6 random

abbrev attempt : Attempt
attempt =
    attempt_row 50 7 4
      (record { document_id = 6; idempotency_key = codes "key-1"; object_key = object_key_of 8 })

abbrev rows : List Attempt
rows = attempt ∷ []

abbrev initiation : PersistedDocumentUpload
initiation = record {
  attempt = attempt;
  object_key = object_key_of 8;
  target = target (object_key_of 8);
  replayed = false;
}

initiate_persisted_test :
    initiate_persisted web storage none true descriptor (codes " key-1") 8 7 500 50 [] []
    ≡ (ok initiation, rows)
unfolding computed
initiate_persisted_test = refl

abbrev other_attempt : Attempt
other_attempt =
    attempt_row 40 3 4
      (record { document_id = 5; idempotency_key = codes "key-0"; object_key = object_key_of 2 })

-- another initiation between the lookup and the insertion
meanwhile : Later [] (other_attempt ∷ [])
meanwhile = next {after = other_attempt ∷ []} same (
    unfold computed in
    creates 40 3 4
      (record { document_id = 5; idempotency_key = codes "key-0"; object_key = object_key_of 2 })
      [])

interrupted_test :
    initiate_persisted web storage none true descriptor
      (codes " key-1")
      8
      7
      500
      50
      []
      (other_attempt ∷ [])
    ≡ (ok initiation, attempt ∷ other_attempt ∷ [])
unfolding computed
interrupted_test = refl

offered_unused : All (λ b. b.object_key ≢ object_key_of 8) (other_attempt ∷ [])
unfolding computed
offered_unused = ((λ h. absurd (ground arith)), tt)

initiate_persisted-Binds_example :
    Binds web descriptor (object_key_of 8) 500 (target (object_key_of 8))
    × (initiation.object_key ≡ attempt.object_key)
    × (attempt.document_id ≡ 6)
    × (attempt.status ≡ initiated)
    × Kept 4 (trim (codes " key-1")) attempt (attempt ∷ other_attempt ∷ [])
initiate_persisted-Binds_example =
    initiate_persisted-Binds web storage none descriptor (codes " key-1") 8 7 500 50 []
      (other_attempt ∷ []) (attempt ∷ other_attempt ∷ []) initiation meanwhile offered_unused
      interrupted_test

-- the attempt is completed before the second initiation
completed_since :
    Later (attempt ∷ other_attempt ∷ []) (to_completed 55 attempt ∷ other_attempt ∷ [])
completed_since =
    next {after = to_completed 55 attempt ∷ other_attempt ∷ []} same
      (unfold computed in completes 55 4 7 (attempt ∷ other_attempt ∷ []))

initiate_persisted-retry_example :
    (b : Attempt) × Follows attempt b
    × (b.object_key ≡ object_key_of 8)
    × (get_by_idempotency_key 4
          (trim (codes " key-1"))
          (to_completed 55 attempt ∷ other_attempt ∷ [])
        ≡ some b)
    × (initiate_persisted web storage none true descriptor
          (codes " key-1")
          9
          10
          600
          60
          (to_completed 55 attempt ∷ other_attempt ∷ [])
          []
        ≡ (retry_answer web storage none descriptor 600 b b.status, []))
initiate_persisted-retry_example =
    initiate_persisted-retry web storage none none descriptor (codes " key-1") 8 7 500 50 9 10 600
      60 [] (other_attempt ∷ []) (attempt ∷ other_attempt ∷ [])
      (to_completed 55 attempt ∷ other_attempt ∷ []) [] initiation meanwhile interrupted_test
      completed_since

checks_pass : initiation_checks true descriptor (codes " key-1") ≡ ok (trim (codes " key-1"))
unfolding computed
checks_pass = refl

none_yet : get_by_idempotency_key 4 (trim (codes " key-1")) [] ≡ none
unfolding computed
none_yet = refl

taken : get_by_idempotency_key 4 (trim (codes " key-1")) rows ≡ some attempt
unfolding computed
taken = refl

keys_differ : object_key_of 8 ≢ object_key_of 9
unfolding computed
keys_differ h = absurd (ground arith)

initiate_persisted-race_example :
    initiate_persisted web storage none true descriptor (codes " key-1") 9 10 500 51 [] rows
    ≡ (throws key_conflict, rows)
initiate_persisted-race_example =
    initiate_persisted-race web storage none descriptor (codes " key-1") 9 10 500 51 [] rows attempt
      checks_pass none_yet taken keys_differ

abbrev object : StoredObject
object = record {
  object_key = object_key_of 8;
  media_type = codes "application/pdf";
  size_bytes = 12;
  checksum = checksum;
}

abbrev short_object : StoredObject
short_object = record object { size_bytes = 11 }

abbrev completion : CompletedDocumentUpload
completion = record { attempt = to_completed 70 attempt; stored_object = object; replayed = false }

complete_persisted_test :
    complete_persisted storage true descriptor 7 70 (some (some object)) rows rows
    ≡ (ok completion, some (some object), to_completed 70 attempt ∷ [])
unfolding computed inspect
complete_persisted_test = refl

complete_persisted_sound_example :
    Completes storage descriptor 7
      (some (some object))
      rows
      rows
      completion
      (to_completed 70 attempt ∷ [])
complete_persisted_sound_example =
    complete_persisted_sound storage true descriptor 7 70 (some (some object)) (some (some object))
      rows rows (to_completed 70 attempt ∷ []) completion (ground arith) complete_persisted_test

valid : assert_upload_descriptor descriptor ≡ ok tt
unfolding computed
valid = refl

read : get_by_id 4 7 rows ≡ some attempt
unfolding computed
read = refl

unfit :
    (verify_completion storage (some (some short_object)) descriptor (object_key_of 8)).0
    ≡ throws virexa_backend.Uploads.stored_content_length
unfolding computed inspect
unfit = refl

complete_persisted-failed_example :
    let (result, s', after) =
      complete_persisted storage true descriptor 7 70 (some (some short_object)) rows rows in
    (result ≡ throws virexa_backend.Uploads.stored_content_length)
    × (get_by_id 4 7 after
        ≡ some (to_failed 70 (codes "object_integrity_verification_failed") attempt))
    × (complete_persisted storage true descriptor 7 80 (some (some object)) after []
        ≡ (throws attempt_failed, some (some object), []))
complete_persisted-failed_example =
    complete_persisted-failed storage descriptor 7 70 80 (some (some short_object))
      (some (some object)) rows rows [] attempt virexa_backend.Uploads.stored_content_length valid
      read refl refl unfit read

present : inspect (some (some short_object)) (object_key_of 8) ≡ ok (some short_object)
unfolding inspect
present = refl

verify_completion-found_applied :
    (Fits descriptor (object_key_of 8) short_object
      × (verify_completion storage (some (some short_object)) descriptor (object_key_of 8)
          ≡ (ok short_object, some (some short_object))))
    ⊎ ((¬ Fits descriptor (object_key_of 8) short_object)
        × (e : UploadError) × (verify_completion storage
              (some (some short_object))
              descriptor
              (object_key_of 8)
            ≡ (throws e, clean_up storage (some (some short_object)) (object_key_of 8))))
verify_completion-found_applied =
    verify_completion-found storage (some (some short_object)) descriptor (object_key_of 8)
      short_object valid present

operations-IsConsistent_example :
    All IsConsistent
      (create_or_get 60 9 4
        (record { document_id = 6; idempotency_key = codes "key-2"; object_key = object_key_of 9 })
        rows).1
    × All IsConsistent (complete 60 4 7 rows).1
    × All IsConsistent (fail 60 4 7 (codes "code") rows).1
operations-IsConsistent_example =
    operations-IsConsistent rows 60 9 4 7
      (record { document_id = 6; idempotency_key = codes "key-2"; object_key = object_key_of 9 })
      (codes "code") (inl (refl, refl, refl), tt)

ended_row : get_by_id 4 7 (to_completed 70 attempt ∷ []) ≡ some (to_completed 70 attempt)
unfolding computed
ended_row = refl

terminal-final_applied :
    (get_by_id 4 7 (complete 80 4 7 (to_completed 70 attempt ∷ [])).1
      ≡ some (to_completed 70 attempt))
    × (get_by_id 4 7 (fail 80 4 7 (codes "code") (to_completed 70 attempt ∷ [])).1
        ≡ some (to_completed 70 attempt))
terminal-final_applied =
    terminal-final (to_completed 70 attempt ∷ []) (to_completed 70 attempt) 80 4 7 4 7
      (codes "code") ended_row (ground arith)

create_or_get-taken_applied :
    create_or_get 60 9 4
      (record { document_id = 6; idempotency_key = codes " key-1"; object_key = object_key_of 9 })
      rows
    ≡ (
      if 6 == 6 && text_eq (object_key_of 8) (object_key_of 9)
          then ok attempt
          else throws key_conflict,
      rows,
    )
create_or_get-taken_applied =
    create_or_get-taken 60 9 4
      (record { document_id = 6; idempotency_key = codes " key-1"; object_key = object_key_of 9 })
      rows attempt taken_padded
  where
    taken_padded : get_by_idempotency_key 4 (codes " key-1") rows ≡ some attempt
    taken_padded = unfold computed in refl
