-- ===== src/Uploads/Service/Completion.antt =====
-- Completion of an upload: what it verified, and what a failed verification leaves behind.
use virexa_backend.Base.{
  ℕ, ◌≡◌, refl, ◌⊎◌, inl, inr, sym, ap, subst, ◌∙◌, Bool, true, false, Option, none, some, List,
  arith, Option-cases, Outcome-cases, ok,
}
use virexa_backend.Base.Text.{Text, text_eq_iff}
use virexa_backend.Base.Sql.{IsKeyed}
use virexa_backend.Uploads.{
  Descriptor, StoredObject, assert_upload_descriptor, assert_stored_object, Storage,
}
use virexa_backend.Uploads.Attempts.{completed, Attempt, get_by_id, complete}
use virexa_backend.Uploads.Attempts.Laws.{complete-stored, get_by_id-holds}
use virexa_backend.Uploads.Service.{
  CompletedDocumentUpload, settle, verify_completion, as_completed, finish_attempt, confirm_attempt,
  completion_checks, complete_persisted,
}
use virexa_backend.Uploads.Attempts.History.{status-cases}

-- the object that was described, under its key
pub record Fits (d : Descriptor) (object_key : Text) (o : StoredObject) : Type 0 where
  pub key : o.object_key ≡ object_key
  pub media_type : o.media_type ≡ d.media_type
  pub size : o.size_bytes ≡ d.size_bytes
  pub checksum : o.checksum ≡ d.checksum

pub assert_stored_object_sound :
    (d : Descriptor) (observed : Option StoredObject) (object_key : Text) (o : StoredObject)
    → assert_stored_object d observed object_key ≡ ok o
    → (observed ≡ some o) × Fits d object_key o
unfolding assert_stored_object
assert_stored_object_sound d none object_key o h = cc
assert_stored_object_sound d (some x) object_key o h = (
  ground arith,
  record {
    key = ground (arith, text_eq_iff x.object_key object_key);
    media_type = ground (arith, text_eq_iff x.media_type d.media_type);
    size = ground arith;
    checksum = ground (arith, text_eq_iff x.checksum d.checksum);
  },
)

module _ {S : Type 0} (storage : Storage S) where
  verify_completion_sound :
      (s : S) (d : Descriptor) (object_key : Text) (o : StoredObject)
      → (verify_completion storage s d object_key).0 ≡ ok o
      → (storage.inspect_object s object_key ≡ ok (some o)) × Fits d object_key o
  unfolding verify_completion settle
  verify_completion_sound s d object_key o h = elim (Outcome-cases (assert_upload_descriptor d)) [
    | inr (e, bad) ↦ absurd (ground (arith, bad))
    | inl (u, good) ↦ elim (Outcome-cases (storage.inspect_object s object_key)) [
      | inr (e, fault) ↦ absurd (ground (arith, good, fault))
      | inl (observed, seen) ↦ elim (Outcome-cases (assert_stored_object d observed object_key)) [
        | inr (e, differs) ↦ absurd (ground (arith, good, seen, differs))
        | inl (x, same) ↦
            let (found, fits) = assert_stored_object_sound d observed object_key x same in
            let told : x ≡ o = ground (arith, good, seen, same) in
            (seen ∙ ap ok (found ∙ ap some told), subst (λ y. Fits d object_key y) told fits)
      ]
    ]
  ]

  -- what a completion that returned has established
  pub record Completes (d : Descriptor) (id : ℕ) (s : S) (rows rows' : List Attempt)
      (result : CompletedDocumentUpload) (after : List Attempt) : Type 0 where
    pub attempt : Attempt
    pub read : get_by_id d.organization_id id rows ≡ some attempt
    pub same_document : attempt.document_id ≡ d.document_id
    pub inspected : storage.inspect_object s attempt.object_key ≡ ok (some result.stored_object)
    pub fits : Fits d attempt.object_key result.stored_object
    pub finished : result.attempt.status ≡ completed
    pub recorded :
        ((result.replayed ≡ true) × (result.attempt ≡ attempt) × (after ≡ rows'))
        ⊎ ((result.replayed ≡ false) × (get_by_id d.organization_id id after ≡ some result.attempt))

  completion_checks_sound :
      (configured : Bool) (d : Descriptor) (id : ℕ) (rows : List Attempt) (a : Attempt)
      → completion_checks configured d id rows ≡ ok a
      → (get_by_id d.organization_id id rows ≡ some a) × (a.document_id ≡ d.document_id)
  unfolding completion_checks
  completion_checks_sound configured d id rows a h =
      elim (Outcome-cases (assert_upload_descriptor d)) [
        | inr (e, bad) ↦ absurd (ground (arith, bad))
        | inl (u, good) ↦ elim (Option-cases (get_by_id d.organization_id id rows)) [
          | inl missing ↦ absurd (ground (arith, good, missing))
          | inr (b, read) ↦ (ground (arith, good, read), ground (arith, good, read))
        ]
      ]

  as_completed_sound :
      (o : StoredObject) (a : Option Attempt) (result : CompletedDocumentUpload)
      → as_completed o a ≡ ok result
      → (a ≡ some result.attempt)
        × (result.attempt.status ≡ completed)
        × (result.stored_object ≡ o)
        × (result.replayed ≡ false)
  unfolding as_completed
  as_completed_sound o none result h = absurd (ground arith)
  as_completed_sound o (some a) result h = ground arith

  confirm_sound :
      (d : Descriptor) (id : ℕ) (s s' : S) (rows rows' after : List Attempt) (a : Attempt)
      (result : CompletedDocumentUpload)
      → (get_by_id d.organization_id id rows ≡ some a) × (a.document_id ≡ d.document_id)
      → a.status ≡ completed
      → confirm_attempt a (verify_completion storage s d a.object_key) rows'
        ≡ (ok result, s', after)
      → Completes d id s rows rows' result after
  unfolding confirm_attempt
  confirm_sound d id s s' rows rows' after a result (read, same) ended h =
      let v = verify_completion storage s d a.object_key in
      elim (Outcome-cases v.0) [
        | inr (e, fault) ↦ absurd (ground (arith, fault))
        | inl (o, good) ↦
            let (seen, fits) = verify_completion_sound s d a.object_key o good in
            let told : result ≡ record { attempt = a; stored_object = o; replayed = true } =
              ground (arith, good) in
            record {
              attempt = a;
              read = read;
              same_document = same;
              inspected = rw told seen;
              fits = rw told fits;
              finished = rw told ended;
              recorded = inl (rw told refl, rw told refl, ground (arith, good));
            }
      ]

  finish_sound :
      (d : Descriptor) (id now : ℕ) (s s' : S) (rows rows' after : List Attempt) (a : Attempt)
      (result : CompletedDocumentUpload)
      → IsKeyed (λ b. b.id) rows'
      → (get_by_id d.organization_id id rows ≡ some a) × (a.document_id ≡ d.document_id)
      → finish_attempt d a now (verify_completion storage s d a.object_key) rows'
        ≡ (ok result, s', after)
      → Completes d id s rows rows' result after
  unfolding finish_attempt
  finish_sound d id now s s' rows rows' after a result keyed (read, same) h =
      let v = verify_completion storage s d a.object_key in
      elim (Outcome-cases v.0) [
        | inr (e, fault) ↦ absurd (ground (arith, fault))
        | inl (o, good) ↦
            let (seen, fits) = verify_completion_sound s d a.object_key o good in
            let done = complete now d.organization_id a.id rows' in
            let told : as_completed o done.0 ≡ ok result = ground (arith, good) in
            let (row, ended, object, fresh) = as_completed_sound o done.0 result told in
            let kept : done.1 ≡ after = ground (arith, good) in
            let named : a.id ≡ id = (get_by_id-holds d.organization_id id rows a read).1 in
            let stored = complete-stored d.organization_id a.id rows' now keyed in
            record {
              attempt = a;
              read = read;
              same_document = same;
              inspected = rw object seen;
              fits = rw object fits;
              finished = ended;
              recorded = inr (
                fresh,
                subst (λ i. get_by_id d.organization_id i after ≡ some result.attempt) named
                    (subst (λ l. get_by_id d.organization_id a.id l ≡ some result.attempt) kept
                      (sym stored ∙ row)),
              );
            }
      ]

  -- Where the table at the write has distinct identifiers, a completion that returns has read an
  -- attempt of the caller's organization for this document, has just inspected its object, whose
  -- key, type, size and checksum are those described, and returns an attempt that is completed: the
  -- one read, or the one now stored.
  pub complete_persisted_sound :
      (configured : Bool) (d : Descriptor) (id now : ℕ) (s s' : S) (rows rows' after : List Attempt)
      (result : CompletedDocumentUpload)
      → IsKeyed (λ b. b.id) rows'
      → complete_persisted storage configured d id now s rows rows' ≡ (ok result, s', after)
      → Completes d id s rows rows' result after
  unfolding complete_persisted
  complete_persisted_sound configured d id now s s' rows rows' after result keyed h =
      elim (Outcome-cases (completion_checks configured d id rows)) [
        | inr (e, refused) ↦ absurd (ground (arith, refused))
        | inl (a, passed) ↦
            let facts = completion_checks_sound configured d id rows a passed in
            elim (status-cases a.status) [
              | inl ended ↦
                  confirm_sound d id s s' rows rows' after a result facts ended
                    (ground (arith, passed, ended))
              | inr (inl begun) ↦
                  finish_sound d id now s s' rows rows' after a result keyed facts
                    (ground (arith, passed, begun))
              | inr (inr gone) ↦ absurd (ground (arith, passed, gone))
            ]
      ]
