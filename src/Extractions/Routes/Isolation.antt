-- ===== src/Extractions/Routes/Isolation.antt =====
-- The handlers of src/extractions/routes.ts leave other organizations alone.
use virexa_backend.Base.{
  ℕ, ◌≡◌, refl, ◌≢◌, Bool, Option, List, arith, ◌==◌, first, any, ok, Outcome-cases, Option-cases,
  Bool-cases, inl, inr,
}
use virexa_backend.Base.Text.{Text}
use virexa_backend.Base.Sql.{select, returning}
use virexa_backend.Base.Sql.Rows.{select-update_apart}
use virexa_backend.Platform.{Platform}
use virexa_backend.Auth.{AuthenticatedContext, require_authenticated}
use virexa_backend.Http.{Incoming, World}
use virexa_backend.Http.Laws.{mutate_keeps}
use virexa_backend.Extractions.{
  ReviewField, ExtractionRow, CreateExtractionInput, ExtractionTarget, find_by_idempotency,
  is_taken, create_or_replay, review_test, reviewed, aggregated, review, completion_test,
  to_completed, complete,
}
use virexa_backend.Extractions.Routes.Laws.{write_checks_sound}
use virexa_backend.Extractions.Routes.{
  ReviewRequest, write_checks, post_extraction, patch_review, post_complete,
}

-- the extractions of one organization
abbrev pub of_organization : ℕ → List ExtractionRow → List ExtractionRow
of_organization organization = select (λ e. e.organization_id == organization)

module _ (organization : ℕ) (p : Platform) (now : ℕ) where
  create_keeps :
      (fresh : ℕ) (exists : ℕ → ℕ → Bool) (input : CreateExtractionInput)
      (earlier rows : List ExtractionRow)
      → organization ≢ input.organization_id
      → of_organization organization
          (create_or_replay p.to_date now fresh exists input earlier rows).1
        ≡ of_organization organization rows
  unfolding create_or_replay select
  create_keeps fresh exists input earlier rows other =
      elim (Option-cases (find_by_idempotency p.to_date input earlier)) [
        | inr (x, found) ↦ ground (arith, found)
        | inl free ↦ elim (Bool-cases (exists input.organization_id input.document_id)) [
          | inr unknown ↦ ground (arith, free, unknown)
          | inl known ↦ elim (Bool-cases (any (is_taken fresh input) rows)) [
            | inl taken ↦ ground (arith, free, known, taken)
            | inr fits ↦ ground (arith, free, known, fits, other)
          ]
        ]
      ]

  review_keeps :
      (at : ExtractionTarget) (patches : List ReviewField) (rows later : List ExtractionRow)
      → organization ≢ at.organization_id
      → of_organization organization (review p now at patches rows later).1
        ≡ of_organization organization rows
  unfolding review
  review_keeps at patches rows later other =
      elim (Option-cases (p.timestamptz at.expected_updated_at)) [
        | inl malformed ↦ ground (arith, malformed)
        | inr (token, cast) ↦
            let test = review_test at token patches in
            elim (Option-cases (first (returning test (reviewed now patches) rows))) [
              | inl missed ↦ ground (arith, cast, missed)
              | inr (e, changed) ↦ elim (Outcome-cases (aggregated p.to_date e e.fields)) [
                | inr (failure, refused) ↦ ground (arith, cast, changed, refused)
                | inl (result, aggregate) ↦
                    let kept =
                      select-update_apart (λ e. e.organization_id == organization) test
                        (reviewed now patches) rows (λ e h. (ground arith, ground arith)) in
                    ground (arith, cast, changed, aggregate, kept)
              ]
            ]
      ]

  complete_keeps :
      (at : ExtractionTarget) (rows later : List ExtractionRow)
      → organization ≢ at.organization_id
      → of_organization organization (complete p now at rows later).1
        ≡ of_organization organization rows
  unfolding complete
  complete_keeps at rows later other = elim (Option-cases (p.timestamptz at.expected_updated_at)) [
    | inl malformed ↦ ground (arith, malformed)
    | inr (token, cast) ↦
        let test = completion_test at token in
        elim (Option-cases (first (returning test (to_completed now) rows))) [
          | inl missed ↦ ground (arith, cast, missed)
          | inr (e, changed) ↦
              let kept =
                select-update_apart (λ e. e.organization_id == organization) test (to_completed now)
                  rows (λ e h. (ground arith, ground arith)) in
              ground (arith, cast, changed, kept)
        ]
  ]

module _ (p : Platform) (incoming : Incoming) where
  -- the organization of a caller that passed the checks is another one
  elsewhere :
      {B C : Type 0} (organization : ℕ) (document : Option ℕ) (b : Option B) (c : Option C)
      (context context' : AuthenticatedContext) (document_id : ℕ) (x : B) (y : C)
      → require_authenticated incoming.get_session incoming.request ≡ ok context
      → organization ≢ context.user.organization_id
      → write_checks p incoming document b c ≡ ok (context', document_id, x, y)
      → organization ≢ context'.user.organization_id
  elsewhere organization document b c context context' document_id x y known other passed =
      let (permitted, _, _, _) =
        write_checks_sound p incoming document b c context' document_id x y passed in
      let same : context ≡ context' = ground (arith, permitted.caller.known) in ground (arith, same)

  -- Whatever a handler that changes extractions answers to a caller, the extractions of every other
  -- organization than the caller's are as they were.
  pub extraction_handlers-isolated :
      (organization now fresh : ℕ) (exists : ℕ → ℕ → Bool) (document extraction : Option ℕ)
      (version key token : Option Text) (body : Option ReviewRequest)
      (elsewhen : List ExtractionRow) (w : World (List ExtractionRow))
      (context : AuthenticatedContext)
      → require_authenticated incoming.get_session incoming.request ≡ ok context
      → organization ≢ context.user.organization_id
      → (of_organization organization
            (post_extraction p incoming now fresh exists document version key elsewhen w).1.tables
          ≡ of_organization organization w.tables)
        × (of_organization organization
              (patch_review p incoming now document extraction body elsewhen w).1.tables
            ≡ of_organization organization w.tables)
        × (of_organization organization
              (post_complete p incoming now document extraction token elsewhen w).1.tables
            ≡ of_organization organization w.tables)
  unfolding post_extraction patch_review post_complete
  extraction_handlers-isolated organization now fresh exists document extraction version key token
        body elsewhen w context known other =
      (
        mutate_keeps _ _ _ _ _ w
            (λ rows. of_organization organization rows ≡ of_organization organization w.tables) refl
            (λ (c, d, x, y) passed.
              create_keeps organization p now fresh exists _ elsewhen w.tables
                (elsewhere organization document version key context c d x y known other passed)),
        mutate_keeps _ _ _ _ _ w
            (λ rows. of_organization organization rows ≡ of_organization organization w.tables) refl
            (λ (c, d, x, y) passed.
              review_keeps organization p now _ y.fields w.tables elsewhen (
                elsewhere organization document extraction body context c d x y known other
                  passed)),
        mutate_keeps _ _ _ _ _ w
            (λ rows. of_organization organization rows ≡ of_organization organization w.tables) refl
            (λ (c, d, x, y) passed. complete_keeps organization p now _ w.tables elsewhen (
              elsewhere organization document extraction token context c d x y known other passed)),
      )
