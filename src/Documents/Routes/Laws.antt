-- ===== src/Documents/Routes/Laws.antt =====
-- What POST /api/v1/documents guarantees to a later GET of the document.
use virexa_backend.Base.{
  ℕ, ◌≡◌, refl, ap, ◌∙◌, Bool, false, Option, none, some, List, [], ◌∷◌, arith, ◌==◌, any, first,
  ok, Outcome-cases, Option-cases, inl, inr, if◌then◌else◌,
}
use virexa_backend.Base.Sql.{select}
use virexa_backend.Auth.{AuthenticatedContext, document_read, document_create}
use virexa_backend.Http.{Incoming, Reply, World, fail, not_found, reader, writer}
use virexa_backend.Http.Laws.{IsCaller, reader_sound, writer-reader, mutate_success}
use virexa_backend.Documents.{
  Document, CreateDocumentRequest, document_row, has_id, create, get_by_id, violated,
}
use virexa_backend.Documents.Routes.{create_checks, received_event, get_document, post_document}

absent :
    (id organization : ℕ) (rows : List Document)
    → any (λ d. id == d.id) rows ≡ false
    → first (select (has_id organization id) rows) ≡ none
unfolding select
absent id organization [] h = refl
absent id organization (d ∷ rows) h = ground (arith, absent id organization rows)

module _ (checksum_first : Bool) (now fresh : ℕ) where
  created_found :
      (organization organization' : ℕ) (input : CreateDocumentRequest) (rows after : List Document)
      (d : Document)
      → create checksum_first now fresh organization input rows ≡ (ok d, after)
      → (d.organization_id ≡ organization)
        × (get_by_id organization' d.id after
            ≡ (if organization' == organization then some d else none))
  unfolding create violated get_by_id select
  created_found organization organization' input rows after d h =
      let row = document_row now fresh organization input in
      elim (Option-cases (violated checksum_first row rows)) [
        | inr (c, taken) ↦ absurd (ground (arith, taken))
        | inl free ↦
            let unused : any (λ e. fresh == e.id) rows ≡ false = ground (arith, free) in
            let later = absent fresh organization' rows unused in
            let made : (d ≡ row) × (after ≡ row ∷ rows) = ground (arith, free) in
            rw (made.0, made.1) (refl, ground (arith, later))
      ]

module _ (incoming : Incoming) where
  create_checks_sound :
      (body : Option CreateDocumentRequest) (context : AuthenticatedContext)
      (input : CreateDocumentRequest)
      → create_checks incoming body ≡ ok (context, input)
      → IsCaller incoming document_create context
  unfolding create_checks
  create_checks_sound body context input h =
      elim (Outcome-cases (writer incoming document_create)) [
        | inr (e, refused) ↦ absurd (ground (arith, refused))
        | inl (caller, passed) ↦ elim (Option-cases body) [
          | inl malformed ↦ absurd (ground (arith, passed, malformed))
          | inr (x, given) ↦
              let same : caller ≡ context = ground (arith, passed, given) in
              reader_sound incoming document_create context
                (writer-reader incoming document_create context (passed ∙ ap ok same)).1
        ]
      ]

  -- a document that was received
  pub record Receives (reply : Document) (w after : World (List Document)) : Type 0 where
    pub context : AuthenticatedContext
    pub caller : IsCaller incoming document_create context
    pub own : reply.organization_id ≡ context.user.organization_id
    pub audited : after.audit ≡ received_event incoming context reply ∷ w.audit
    -- what a caller who may read documents gets
    pub served :
        (incoming' : Incoming) (reading : AuthenticatedContext)
        → reader incoming' document_read ≡ ok reading
        → get_document incoming' (some reply.id) after.tables ≡ (
            if reading.user.organization_id == reply.organization_id
            then ok (record { status = 200; body = reply })
            else fail 404 not_found)

  -- When a POST of a document succeeds, the caller's session may create documents, the document is
  -- its organization's, one event is recorded, and a GET of the document, in the table that the
  -- POST left, by a session that may read documents answers the same document in that organization
  -- and 404 in any other.
  pub post_document_served :
      (checksum_first : Bool) (now fresh : ℕ) (body : Option CreateDocumentRequest)
      (w after : World (List Document)) (reply : Reply Document)
      → post_document incoming checksum_first now fresh body w ≡ (ok reply, after)
      → Receives reply.body w after
  unfolding post_document get_document
  post_document_served checksum_first now fresh body w after reply h =
      let s = mutate_success _ _ _ _ _ w reply after h in
      let organization = s.input.0.user.organization_id in
      let seen = λ (organization' : ℕ).
        created_found checksum_first now fresh organization organization' s.input.1 w.tables
          after.tables reply.body s.called in
      record {
        context = s.input.0;
        caller = create_checks_sound body s.input.0 s.input.1 s.passed;
        own = (seen organization).0;
        audited = s.audited;
        served = λ incoming' reading read. ground (arith, read, seen reading.user.organization_id);
      }
