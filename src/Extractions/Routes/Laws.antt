-- ===== src/Extractions/Routes/Laws.antt =====
-- What the handlers of src/extractions/routes.ts guarantee: who may call them, and what they
-- store and record.
use virexa_backend.Base.{
  ℕ, ◌≡◌, ap, ◌∙◌, Option, some, List, [], ◌∷◌, arith, first, ok, Outcome-cases, Option-cases, inl,
  inr,
}
use virexa_backend.Base.Text.{Text, codes}
use virexa_backend.Base.Sql.{select}
use virexa_backend.Platform.{Platform}
use virexa_backend.Auth.{AuthenticatedContext, document_manage, assert_trusted_origin}
use virexa_backend.Http.{Incoming, World, writer}
use virexa_backend.Http.Laws.{IsCaller, reader_sound, writer-reader}
use virexa_backend.Extractions.{
  review_required, ExtractionRow, DocumentExtraction, ExtractionTarget, map_extraction, has_id,
  to_completed,
}
use virexa_backend.Extractions.Routes.{extraction_event, write_checks}

module _ (p : Platform) (incoming : Incoming) where
  -- what the checks of a handler that changes state establish
  pub record Permitted (context : AuthenticatedContext) : Type 0 where
    pub trusted : assert_trusted_origin incoming.configured_origin incoming.request ≡ ok tt
    pub caller : IsCaller incoming document_manage context

  pub write_checks_sound :
      {B C : Type 0} (document : Option ℕ) (b : Option B) (c : Option C)
      (context : AuthenticatedContext) (document_id : ℕ) (x : B) (y : C)
      → write_checks p incoming document b c ≡ ok (context, document_id, x, y)
      → Permitted context × (document ≡ some document_id) × (b ≡ some x) × (c ≡ some y)
  unfolding write_checks
  write_checks_sound document b c context document_id x y h =
      elim (Outcome-cases (writer incoming document_manage)) [
        | inr (e, refused) ↦ absurd (ground (arith, refused))
        | inl (caller, passed) ↦ elim (Option-cases document) [
          | inl none_named ↦ absurd (ground (arith, passed))
          | inr (d, named) ↦ elim (Option-cases b) [
            | inl malformed ↦ absurd (ground (arith, passed, named))
            | inr (x', given) ↦ elim (Option-cases c) [
              | inl malformed ↦ absurd (ground (arith, passed, named, given))
              | inr (y', given') ↦
                  let same : caller ≡ context = ground (arith, passed, named, given, given') in
                  let (trusted, read) =
                    writer-reader incoming document_manage context (passed ∙ ap ok same) in
                  (
                    record {
                      trusted = trusted;
                      caller = reader_sound incoming document_manage context read;
                    },
                    ground (arith, passed, named, given, given'),
                    ground (arith, passed, named, given, given'),
                    ground (arith, passed, named, given, given'),
                  )
            ]
          ]
        ]
      ]

  -- a successful completion
  pub record Completes (document extraction : Option ℕ) (reply : DocumentExtraction) (now : ℕ)
      (w after : World (List ExtractionRow)) : Type 0 where
    pub context : AuthenticatedContext
    pub permitted : Permitted context
    pub target : ExtractionTarget
    pub own : target.organization_id ≡ context.user.organization_id
    pub named : (document ≡ some target.document_id) × (extraction ≡ some target.extraction_id)
    pub row : ExtractionRow
    pub read : first (select (has_id target) w.tables) ≡ some row
    pub under_review : row.status ≡ review_required
    pub answered : reply ≡ map_extraction p.to_date (to_completed now row)
    pub stored : first (select (has_id target) after.tables) ≡ some (to_completed now row)
    pub audited :
        after.audit
        ≡ extraction_event p incoming context (codes "document.extraction_completed") reply []
          ∷ w.audit
