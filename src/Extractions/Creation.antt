-- ===== src/Extractions/Creation.antt =====
-- Creation of an extraction under an idempotency key.
use virexa_backend.Base.{
  ℕ, ◌≡◌, Bool, some, List, ◌∷◌, arith, ==_refl, any, Option-cases, Bool-cases, inl, inr, ok,
}
use virexa_backend.Base.Text.{Text, text_eq_refl}
use virexa_backend.Base.Sql.{select}
use virexa_backend.Extractions.{
  ExtractionRow, DocumentExtraction, CreateExtractionInput, map_extraction, extraction_row,
  find_by_idempotency, is_taken, create_or_replay,
}

module _ (to_date : ℕ → ℕ) (exists : ℕ → ℕ → Bool) (input : CreateExtractionInput) where
  created_found :
      (now fresh : ℕ) (rows after : List ExtractionRow) (r : DocumentExtraction)
      → create_or_replay to_date now fresh exists input rows rows ≡ (ok r, after)
      → find_by_idempotency to_date input after ≡ some r
  created_found now fresh rows after r h =
      elim (Option-cases (find_by_idempotency to_date input rows)) [
        | inr (x, found) ↦ unfold create_or_replay in ground (arith, found)
        | inl free ↦ elim (Bool-cases (exists input.organization_id input.document_id)) [
          | inr unknown ↦ absurd (unfold create_or_replay in ground (arith, free, unknown))
          | inl known ↦ elim (Bool-cases (any (is_taken fresh input) rows)) [
            | inl taken ↦ absurd (unfold create_or_replay in ground (arith, free, known, taken))
            | inr fits ↦
                let made : (r ≡ map_extraction to_date (extraction_row now fresh input))
                    × (after ≡ extraction_row now fresh input ∷ rows) =
                  unfold create_or_replay in ground (arith, free, known, fits) in
                rw (made.0, made.1)
                  (unfold find_by_idempotency select in
                    ground (
                      arith,
                      ==_refl input.organization_id,
                      ==_refl input.document_id,
                      text_eq_refl input.idempotency_key,
                    ))
          ]
        ]
      ]

  -- After a successful creation that no other request interrupts, a second one with its key, for
  -- the same document, on the table that it left, answers the same extraction and changes nothing,
  -- whatever schema version it asks for.
  pub create_or_replay-retry :
      (now fresh now₂ fresh₂ : ℕ) (schema_version : Text) (rows after : List ExtractionRow)
      (r : DocumentExtraction)
      → create_or_replay to_date now fresh exists input rows rows ≡ (ok r, after)
      → create_or_replay to_date now₂ fresh₂ exists
          (record input { schema_version = schema_version })
          after
          after
        ≡ (ok r, after)
  create_or_replay-retry now fresh now₂ fresh₂ schema_version rows after r h =
      let found = created_found now fresh rows after r h in
      let same : find_by_idempotency to_date (record input { schema_version = schema_version })
            after
          ≡ some r =
        unfold find_by_idempotency in ground (arith, found) in
      unfold create_or_replay in ground (arith, same)
