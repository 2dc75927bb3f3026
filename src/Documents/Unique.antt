-- ===== src/Documents/Unique.antt =====
-- What the creation of a document stores and refuses.
use virexa_backend.Base.{
  ℕ, ◌≡◌, ◌⊎◌, inl, inr, Bool, true, false, ◌||◌, not, some, List, [], ◌∷◌, arith, ◌==◌, ==_refl,
  any, All, Bool-cases, Outcome, ok, throws,
}
use virexa_backend.Base.Sql.{select}
use virexa_backend.Documents.{
  Document, CreateDocumentRequest, DocumentError, duplicate_document, checksum,
  external_reference_taken, document_row, same_checksum, same_reference, violated, map_create_error,
  create, get_by_id,
}

-- two documents that may both be stored
abbrev pub IsApart : Document → Document → Type 0
IsApart a b = (same_checksum a b ≡ false) × (same_reference a b ≡ false)

-- no two documents of an organization share their content, or their source and reference
abbrev pub IsUnique : List Document → Type 0
IsUnique [] = Unit
IsUnique (d ∷ ds) = All (IsApart d) ds × IsUnique ds

any-IsApart :
    (row : Document) (rows : List Document)
    → any (same_checksum row) rows ≡ false
    → any (same_reference row) rows ≡ false
    → All (IsApart row) rows
any-IsApart row [] h k = tt
any-IsApart row (d ∷ rows) h k =
    ((ground arith, ground arith), any-IsApart row rows (ground arith) (ground arith))

module _ (checksum_first : Bool) (now fresh organization : ℕ) (input : CreateDocumentRequest)
    (rows : List Document) where
  abbrev pub row : Document
  row = document_row now fresh organization input

  abbrev pub created : Outcome DocumentError Document × List Document
  created = create checksum_first now fresh organization input rows

  -- The creation of a document, under a fresh identifier, keeps the content and the reference of
  -- the documents of an organization unique; it either stores the new document, where it is found
  -- again, or refuses it as a duplicate of a stored one, for the reason that holds, and changes
  -- nothing.
  pub create_lem :
      any (λ d. row.id == d.id) rows ≡ false
      → IsUnique rows
      → IsUnique created.1
        × (((created ≡ (ok row, row ∷ rows)) × (get_by_id organization fresh created.1 ≡ some row))
            ⊎ (((created ≡ (throws (duplicate_document checksum), rows))
                  × (any (same_checksum row) rows ≡ true))
                ⊎ ((created ≡ (throws (duplicate_document external_reference_taken), rows))
                    × (any (same_reference row) rows ≡ true))))
  unfolding create violated map_create_error
  create_lem free unique = elim (Bool-cases (any (same_checksum row) rows)) [
    | inr new_content ↦ elim (Bool-cases (any (same_reference row) rows)) [
      | inr new_reference ↦
          let e : created ≡ (ok row, row ∷ rows) =
            ground (arith, free, new_content, new_reference) in
          (
            rw e (any-IsApart row rows new_content new_reference, unique),
            inl (
              e,
              rw e (unfold get_by_id select in ground (arith, ==_refl organization, ==_refl fresh)),
            ),
          )
      | inl old_reference ↦
          let e : created ≡ (throws (duplicate_document external_reference_taken), rows) =
            ground (arith, free, new_content, old_reference) in
          (rw e unique, inr (inr (e, old_reference)))
    ]
    | inl old_content ↦ elim (Bool-cases (checksum_first || not (any (same_reference row) rows))) [
      | inl by_content ↦
          let e : created ≡ (throws (duplicate_document checksum), rows) =
            ground (arith, free, old_content, by_content) in
          (rw e unique, inr (inl (e, old_content)))
      | inr by_reference ↦
          let e : created ≡ (throws (duplicate_document external_reference_taken), rows) =
            ground (arith, free, old_content, by_reference) in
          (rw e unique, inr (inr (e, ground arith)))
    ]
  ]
