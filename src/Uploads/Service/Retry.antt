-- ===== src/Uploads/Service/Retry.antt =====
-- Initiation under an idempotency key: what a later request with the key gets, and what two
-- requests at the same time get.
use virexa_backend.Base.{
  ℕ, ◌≡◌, ◌≢◌, inl, inr, ◌∙◌, true, none, some, List, arith, ==_refl, ok, throws, ◌>>=◌, sym,
}
use virexa_backend.Base.Text.{Text, text_eq_iff, trim}
use virexa_backend.Uploads.{Descriptor, key_conflict, Web, Storage, create_document_object_key}
use virexa_backend.Uploads.Attempts.{initiated, Attempt, CreateAttempt, get_by_idempotency_key}
use virexa_backend.Base.{All, Outcome}
use virexa_backend.Base.Sql.Rows.{All-found}
use virexa_backend.Uploads.{UploadError, already_completed, already_failed}
use virexa_backend.Uploads.Attempts.{AttemptStatus, completed, failed, has_key}
use virexa_backend.Uploads.Attempts.History.{
  status-cases, Later, Follows, Follows-identity, Follows-trans, Kept, Later-keeps,
}
use virexa_backend.Uploads.Attempts.Laws.{create_or_get-taken}
use virexa_backend.Uploads.Service.{
  PersistedDocumentUpload, create_target, require_initiated, resume_attempt, start_attempt,
  initiation_checks, initiate_persisted,
}
use virexa_backend.Uploads.Service.Initiation.{Binds, create_target_sound}
use virexa_backend.Uploads.Service.Initiates.{offered_key, initiate_persisted-Initiates}

module _ {S : Type 0} (web : Web) (storage : Storage S) where
  -- what a retry answers, from the row of its key
  unfoldable pub retry_answer :
      S → Descriptor → ℕ → Attempt → AttemptStatus → Outcome UploadError PersistedDocumentUpload
  retry_answer s d now_ms b initiated = do
    target ← create_target web storage s d b.object_key now_ms
    ok (record { attempt = b; object_key = b.object_key; target = target; replayed = true })
  retry_answer s d now_ms b completed = throws already_completed
  retry_answer s d now_ms b failed = throws already_failed

  -- Whatever other calls of the repository change between the lookup of the key and the insertion, if
  -- no attempt has the new random object key: an initiation that returns has a target for the object
  -- key of its attempt, over https, for at most 15 minutes, with the described type, size and
  -- checksum; the attempt is for this document and was initiated when it was read or made; and the
  -- key is bound to it in the table, where it is as it was or has come to its end.
  pub initiate_persisted-Binds :
      (s : S) (d : Descriptor) (key : Text) (random fresh now_ms now : ℕ)
      (rows rows' after : List Attempt) (r : PersistedDocumentUpload)
      → Later rows rows'
      → All (λ b. b.object_key ≢ offered_key web storage d random) rows'
      → initiate_persisted web storage s true d key random fresh now_ms now rows rows'
        ≡ (ok r, after)
      → Binds web d r.object_key now_ms r.target
        × (r.object_key ≡ r.attempt.object_key)
        × (r.attempt.document_id ≡ d.document_id)
        × (r.attempt.status ≡ initiated)
        × Kept d.organization_id (trim key) r.attempt after
  unfolding get_by_idempotency_key
  initiate_persisted-Binds s d key random fresh now_ms now rows rows' after r later unused h =
      let i =
        initiate_persisted-Initiates web storage s d key random fresh now_ms now rows rows' after r
          later h in
      (
        create_target_sound web storage s d r.object_key now_ms r.target i.targeted,
        i.named,
        i.bound.same_document,
        elim i.fresh_or_taken [
          | inl begun ↦ begun
          | inr (taken, offered) ↦ absurd (
              All-found (λ b. b.object_key ≢ offered_key web storage d random)
                (has_key d.organization_id (trim key)) rows' r.attempt unused taken offered)
        ],
        i.bound.kept,
      )

  -- A second initiation with the key and the descriptor of a successful one, at any later time and
  -- whatever other calls of the repository changed during the first and since, finds its attempt, as
  -- it was or at its end, with the same object key, and writes nothing. While the attempt is
  -- initiated it answers it with a new target, and fails only if the target does; once it is
  -- completed or failed it is refused for that reason.
  pub initiate_persisted-retry :
      (s s₂ : S) (d : Descriptor) (key : Text)
      (random fresh now_ms now random₂ fresh₂ now_ms₂ now₂ : ℕ)
      (rows rows' after rows₂ rows₂' : List Attempt) (r : PersistedDocumentUpload)
      → Later rows rows'
      → initiate_persisted web storage s true d key random fresh now_ms now rows rows'
        ≡ (ok r, after)
      → Later after rows₂
      → (b : Attempt) × Follows r.attempt b
        × (b.object_key ≡ r.object_key)
        × (get_by_idempotency_key d.organization_id (trim key) rows₂ ≡ some b)
        × (initiate_persisted web storage s₂ true d key random₂ fresh₂ now_ms₂ now₂ rows₂ rows₂'
            ≡ (retry_answer s₂ d now_ms₂ b b.status, rows₂'))
  initiate_persisted-retry s s₂ d key random fresh now_ms now random₂ fresh₂ now_ms₂ now₂ rows rows'
        after rows₂ rows₂' r later h since =
      let i =
        initiate_persisted-Initiates web storage s d key random fresh now_ms now rows rows' after r
          later h in
      let (a, stored, at_first) = i.bound.kept in
      let (b, found, after_all) = Later-keeps d.organization_id (trim key) since a stored in
      let follows = Follows-trans r.attempt a b at_first after_all in
      let (_, same_document, same_key) = Follows-identity r.attempt b follows in
      (
        b,
        follows,
        same_key ∙ sym i.named,
        found,
        unfold initiate_persisted in
            ground (
              arith,
              i.passed,
              found,
              resume_attempt-answer s₂ d now_ms₂ b (same_document ∙ i.bound.same_document),
            ),
      )
    where
      resume_attempt-answer :
          (s : S) (d : Descriptor) (now_ms : ℕ) (b : Attempt)
          → b.document_id ≡ d.document_id
          → resume_attempt web storage s d b now_ms ≡ retry_answer s d now_ms b b.status
      resume_attempt-answer s d now_ms b same = elim (status-cases b.status) [
        | inl ended ↦
            unfold resume_attempt require_initiated retry_answer in
            ground (arith, same, ended, ==_refl d.document_id)
        | inr (inl begun) ↦
            unfold resume_attempt require_initiated retry_answer in
            ground (arith, same, begun, ==_refl d.document_id)
        | inr (inr gone) ↦
            unfold resume_attempt require_initiated retry_answer in
            ground (arith, same, gone, ==_refl d.document_id)
      ]

  -- Of two initiations at the same time with one key, the one that inserts second is refused:
  -- the object key that it offers is not the one that is stored. It never gets the stored attempt.
  pub initiate_persisted-race :
      (s : S) (d : Descriptor) (key : Text) (random fresh now_ms now : ℕ)
      (rows rows' : List Attempt) (a : Attempt)
      → initiation_checks true d key ≡ ok (trim key)
      → get_by_idempotency_key d.organization_id (trim key) rows ≡ none
      → get_by_idempotency_key d.organization_id (trim key) rows' ≡ some a
      → a.object_key ≢ create_document_object_key web d.organization_id d.document_id random
      → initiate_persisted web storage s true d key random fresh now_ms now rows rows'
        ≡ (throws key_conflict, rows')
  initiate_persisted-race s d key random fresh now_ms now rows rows' a passed free taken differs =
      let offered = create_document_object_key web d.organization_id d.document_id random in
      let input : CreateAttempt = record {
        document_id = d.document_id;
        idempotency_key = trim key;
        object_key = offered;
      } in
      unfold initiate_persisted start_attempt in
      ground (
        arith,
        passed,
        free,
        create_or_get-taken now fresh d.organization_id input rows' a taken,
        text_eq_iff a.object_key offered,
      )
