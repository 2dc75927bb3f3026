-- ===== src/Uploads/Service/Initiates.antt =====
-- What a successful initiation leaves in the table: the attempt that its key is bound to.
use virexa_backend.Base.{
  ℕ, ◌≡◌, refl, inl, inr, ◌∙◌, Bool, true, some, List, arith, Option-cases, Outcome-cases, ok, sym,
  ap,
}
use virexa_backend.Base.Text.{Text, text_eq_iff, trim}
use virexa_backend.Uploads.{
  Descriptor, Web, Storage, assert_upload_descriptor, create_document_object_key,
}
use virexa_backend.Uploads.Attempts.{
  initiated, Attempt, CreateAttempt, create_or_get, get_by_idempotency_key,
}
use virexa_backend.Base.{◌⊎◌}
use virexa_backend.Uploads.Attempts.History.{Later, unchanged, Kept, Later-keeps}
use virexa_backend.Uploads.Attempts.Laws.{create_or_get-taken, create_or_get-new}
use virexa_backend.Uploads.Service.{
  PersistedDocumentUpload, create_target, start_attempt, initiation_checks, initiate_persisted,
}
use virexa_backend.Uploads.Service.Initiation.{resume_attempt-eq-ok, persisted-eq-ok}

initiation_checks-eq-ok :
    (configured : Bool) (d : Descriptor) (key k : Text)
    → initiation_checks configured d key ≡ ok k
    → k ≡ trim key
unfolding initiation_checks
initiation_checks-eq-ok configured d key k h = elim (Outcome-cases (assert_upload_descriptor d)) [
  | inr (e, bad) ↦ absurd (ground (arith, bad))
  | inl (u, good) ↦ ground (arith, good)
]

-- The key is bound, by the row as it now is, to an attempt for the document.
pub record IsBound (d : Descriptor) (key : Text) (rows : List Attempt) (a : Attempt) : Type 0 where
  pub kept : Kept d.organization_id key a rows
  pub same_document : a.document_id ≡ d.document_id

module _ {S : Type 0} (web : Web) (storage : Storage S) where
  abbrev pub offered_key : Descriptor → ℕ → Text
  offered_key d random = create_document_object_key web d.organization_id d.document_id random

  -- what `createOrGet` gives to an initiation that goes on
  pub record IsCreated (d : Descriptor) (key : Text) (random : ℕ) (rows after : List Attempt)
      (a : Attempt) : Type 0 where
    pub bound : IsBound d key after a
    pub fresh_or_taken :
        (a.status ≡ initiated)
        ⊎ ((get_by_idempotency_key d.organization_id key rows ≡ some a)
            × (a.object_key ≡ offered_key d random))

  create_or_get-creates :
      (d : Descriptor) (key : Text) (random fresh now : ℕ) (rows after : List Attempt) (a : Attempt)
      → create_or_get now fresh d.organization_id
          (record {
            document_id = d.document_id;
            idempotency_key = key;
            object_key = offered_key d random;
          })
          rows
        ≡ (ok a, after)
      → IsCreated d key random rows after a
  create_or_get-creates d key random fresh now rows after a h =
      let input : CreateAttempt = record {
        document_id = d.document_id;
        idempotency_key = key;
        object_key = offered_key d random;
      } in
      elim (Option-cases (get_by_idempotency_key d.organization_id key rows)) [
        | inl free ↦
            let (row, more, found, named) =
              create_or_get-new now fresh d.organization_id input rows after a free h in
            record {
              bound = record { kept = (a, found, unchanged refl); same_document = rw row refl };
              fresh_or_taken = inl (rw row refl);
            }
        | inr (b, taken) ↦
            let answer = create_or_get-taken now fresh d.organization_id input rows b taken in
            let told : (b ≡ a)
                × (rows ≡ after)
                × (b.document_id ≡ d.document_id)
                × (b.object_key ≡ offered_key d random) =
              ground (arith, answer, text_eq_iff b.object_key (offered_key d random)) in
            record {
              bound = record {
                kept = (a, rw (← told.0, ← told.1) taken, unchanged refl);
                same_document = rw (← told.0) told.2;
              };
              fresh_or_taken = inr (rw (← told.0) taken, rw (← told.0) told.3);
            }
      ]

  start_attempt-binds :
      (s : S) (d : Descriptor) (key : Text) (random fresh now_ms now : ℕ)
      (rows after : List Attempt) (r : PersistedDocumentUpload)
      → start_attempt web storage s d key random fresh now_ms now rows ≡ (ok r, after)
      → IsCreated d key random rows after r.attempt
        × (r.object_key ≡ r.attempt.object_key)
        × (create_target web storage s d r.object_key now_ms ≡ ok r.target)
  unfolding start_attempt
  start_attempt-binds s d key random fresh now_ms now rows after r h =
      let input : CreateAttempt = record {
        document_id = d.document_id;
        idempotency_key = key;
        object_key = offered_key d random;
      } in
      let created = create_or_get now fresh d.organization_id input rows in
      elim (Outcome-cases created.0) [
        | inr (e, clash) ↦ absurd (ground (arith, clash))
        | inl (a, made) ↦
            let (same, told, target) =
              persisted-eq-ok web storage s d (offered_key d random) now_ms a r
                (ground (arith, made)) in
            (
              create_or_get-creates d key random fresh now rows after r.attempt
                  (ground (arith, made, same)),
              told ∙ ap (λ b. b.object_key) (sym same),
              rw told target,
            )
      ]

  -- what a successful initiation leaves
  pub record Initiates (s : S) (d : Descriptor) (key : Text) (random now_ms : ℕ)
      (rows' after : List Attempt) (r : PersistedDocumentUpload) : Type 0 where
    pub passed : initiation_checks true d key ≡ ok (trim key)
    pub bound : IsBound d (trim key) after r.attempt
    pub fresh_or_taken :
        (r.attempt.status ≡ initiated)
        ⊎ ((get_by_idempotency_key d.organization_id (trim key) rows' ≡ some r.attempt)
            × (r.attempt.object_key ≡ offered_key d random))
    pub named : r.object_key ≡ r.attempt.object_key
    pub targeted : create_target web storage s d r.object_key now_ms ≡ ok r.target

  pub initiate_persisted-Initiates :
      (s : S) (d : Descriptor) (key : Text) (random fresh now_ms now : ℕ)
      (rows rows' after : List Attempt) (r : PersistedDocumentUpload)
      → Later rows rows'
      → initiate_persisted web storage s true d key random fresh now_ms now rows rows'
        ≡ (ok r, after)
      → Initiates s d key random now_ms rows' after r
  unfolding initiate_persisted
  initiate_persisted-Initiates s d key random fresh now_ms now rows rows' after r later h =
      elim (Outcome-cases (initiation_checks true d key)) [
        | inr (e, refused) ↦ absurd (ground (arith, refused))
        | inl (k, passed) ↦
            let passed' : initiation_checks true d key ≡ ok (trim key) =
              passed ∙ ap ok (initiation_checks-eq-ok true d key k passed) in
            elim (Option-cases (get_by_idempotency_key d.organization_id (trim key) rows)) [
              | inl free ↦
                  let (created, told, target) =
                    start_attempt-binds s d (trim key) random fresh now_ms now rows' after r
                      (ground (arith, passed', free)) in
                  record {
                    passed = passed';
                    bound = created.bound;
                    fresh_or_taken = created.fresh_or_taken;
                    named = told;
                    targeted = target;
                  }
              | inr (a, found) ↦
                  let (same_document, begun, named, told, target) =
                    resume_attempt-eq-ok web storage s d a now_ms r
                      (ground (arith, passed', found)) in
                  let kept : rows' ≡ after = ground (arith, passed', found) in
                  record {
                    passed = passed';
                    bound = record {
                      kept =
                          rw (named, ← kept)
                            (Later-keeps d.organization_id (trim key) later a found);
                      same_document = rw named same_document;
                    };
                    fresh_or_taken = inl (rw named begun);
                    named = told ∙ ap (λ b. b.object_key) (sym named);
                    targeted = rw told target;
                  }
            ]
      ]
