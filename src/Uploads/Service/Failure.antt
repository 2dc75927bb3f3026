-- ===== src/Uploads/Service/Failure.antt =====
-- What a verification that fails leaves behind.
use virexa_backend.Base.{
  ℕ, ◌≡◌, refl, subst, ◌⊎◌, inl, inr, ◌∙◌, true, some, List, arith, ==_refl, Outcome-cases, ok,
  throws,
}
use virexa_backend.Base.Text.{Text, codes, text_eq_refl}
use virexa_backend.Uploads.{
  Descriptor, StoredObject, UploadError, attempt_failed, assert_upload_descriptor,
  assert_stored_object, Storage,
}
use virexa_backend.Uploads.Attempts.{initiated, failed, Attempt, get_by_id, fail, to_failed}
use virexa_backend.Uploads.Attempts.Laws.{get_by_id-fail, get_by_id-holds}
use virexa_backend.Uploads.Service.{
  clean_up, settle, verify_completion, finish_attempt, completion_checks, complete_persisted,
}
use virexa_backend.Uploads.Service.Completion.{Fits, assert_stored_object_sound}

assert_stored_object_complete :
    (d : Descriptor) (object_key : Text) (o : StoredObject)
    → Fits d object_key o
    → assert_stored_object d (some o) object_key ≡ ok o
unfolding assert_stored_object
assert_stored_object_complete d object_key o fits = ground (
  arith,
  fits.key,
  fits.media_type,
  fits.size,
  fits.checksum,
  text_eq_refl object_key,
  text_eq_refl d.media_type,
  text_eq_refl d.checksum,
  ==_refl d.size_bytes,
)

module _ {S : Type 0} (storage : Storage S) where
  -- An inspection that finds an object accepts it and keeps the provider as it is, if the object
  -- is the one described; if not it is refused, after one attempt to delete it.
  pub verify_completion-found :
      (s : S) (d : Descriptor) (object_key : Text) (o : StoredObject)
      → assert_upload_descriptor d ≡ ok tt
      → storage.inspect_object s object_key ≡ ok (some o)
      → (Fits d object_key o × (verify_completion storage s d object_key ≡ (ok o, s)))
        ⊎ ((¬ Fits d object_key o)
            × (e : UploadError) × (verify_completion storage s d object_key
                ≡ (throws e, clean_up storage s object_key)))
  unfolding verify_completion settle
  verify_completion-found s d object_key o good seen =
      elim (Outcome-cases (assert_stored_object d (some o) object_key)) [
        | inl (x, same) ↦
            let (found, fits) = assert_stored_object_sound d (some o) object_key x same in
            let told : x ≡ o = ground arith in
            inl (subst (λ y. Fits d object_key y) told fits, ground (arith, good, seen, same))
        | inr (e, differs) ↦ inr (
          (λ fits.
              absurd (ground (arith, assert_stored_object_complete d object_key o fits, differs))),
          e,
          ground (arith, good, seen, differs),
        )
      ]

  passes :
      (d : Descriptor) (id : ℕ) (rows : List Attempt) (a : Attempt)
      → assert_upload_descriptor d ≡ ok tt
      → get_by_id d.organization_id id rows ≡ some a
      → a.document_id ≡ d.document_id
      → completion_checks true d id rows ≡ ok a
  unfolding completion_checks
  passes d id rows a good read same = ground (arith, good, read, same, ==_refl d.document_id)

  -- Where the descriptor passes its checks and the attempt is for its document: when the
  -- verification of an initiated attempt throws, for whatever reason, and no other request changed
  -- the attempt, the call throws the same error and the attempt is stored as failed; and a
  -- completion of it on the table so left is refused for that, whatever the provider then holds.
  pub complete_persisted-failed :
      (d : Descriptor) (id now later : ℕ) (s s₂ : S) (rows rows' rows₂ : List Attempt) (a : Attempt)
      (e : UploadError)
      → assert_upload_descriptor d ≡ ok tt
      → get_by_id d.organization_id id rows ≡ some a
      → a.document_id ≡ d.document_id
      → a.status ≡ initiated
      → (verify_completion storage s d a.object_key).0 ≡ throws e
      → get_by_id d.organization_id id rows' ≡ some a
      → let (result, s', after) = complete_persisted storage true d id now s rows rows' in
        (result ≡ throws e)
        × (get_by_id d.organization_id id after
            ≡ some (to_failed now (codes "object_integrity_verification_failed") a))
        × (complete_persisted storage true d id later s₂ after rows₂
            ≡ (throws attempt_failed, s₂, rows₂))
  complete_persisted-failed d id now later s s₂ rows rows' rows₂ a e good read same begun fault
        kept =
      (thrown, marked, refused)
    where
      refuses :
          (l : List Attempt) (b : Attempt)
          → b.status ≡ failed
          → completion_checks true d id l ≡ ok b
          → complete_persisted storage true d id later s₂ l rows₂
            ≡ (throws attempt_failed, s₂, rows₂)
      refuses l b gone checked = unfold complete_persisted in ground (arith, checked, gone)

      ids : (a.organization_id ≡ d.organization_id) × (a.id ≡ id)
      ids = get_by_id-holds d.organization_id id rows a read

      written : complete_persisted storage true d id now s rows rows' ≡ (
        throws e,
        (verify_completion storage s d a.object_key).1,
        (fail now d.organization_id a.id (codes "object_integrity_verification_failed") rows').1,
      )
      written =
          unfold complete_persisted finish_attempt in
          ground (arith, passes d id rows a good read same, begun, fault)

      thrown : (complete_persisted storage true d id now s rows rows').0 ≡ throws e
      thrown = rw written refl

      marked :
          get_by_id d.organization_id id (complete_persisted storage true d id now s rows rows').2
          ≡ some (to_failed now (codes "object_integrity_verification_failed") a)
      marked = rw (written) (
          get_by_id-fail d.organization_id a.id rows' now
            (codes "object_integrity_verification_failed") d.organization_id id
          ∙ ground (arith, kept, ids, begun, ==_refl d.organization_id, ==_refl id))

      refused :
          complete_persisted storage true d id later s₂
            (complete_persisted storage true d id now s rows rows').2
            rows₂
          ≡ (throws attempt_failed, s₂, rows₂)
      refused =
          refuses (complete_persisted storage true d id now s rows rows').2
            (to_failed now (codes "object_integrity_verification_failed") a) refl
            (passes d id (complete_persisted storage true d id now s rows rows').2
              (to_failed now (codes "object_integrity_verification_failed") a) good marked same)
