-- ===== src/Extractions/Listing.antt =====
-- list of src/extractions/repository.ts: the pages, and what a client that follows the cursors
-- reads. A cursor is the base64url text of a date, a bar and an identifier.
use virexa_backend.Base.{
  ℕ, suc, ◌*◌, ◌<◌, ◌≡◌, refl, Bool, false, ◌&&◌, ◌||◌, not, Option, none, some, List, [], ◌∷◌,
  ◌++◌, arith, ◌==◌, map, All, All-imp, any, length, is_some, if◌then◌else◌, ok, Outcome,
}
use virexa_backend.Base.Text.{Text, codes, is_empty, present}
use virexa_backend.Base.Sql.{select, IsKeyed}
use virexa_backend.Platform.{Platform, Laws}
use virexa_backend.Paging.{Position, order_desc, Page}
use virexa_backend.Paging.Query.{QueryError, cursor_position, query_page}
use virexa_backend.Paging.Query.Follow.{query_page-follow-present, cast_position-iso, cut-whole}
use virexa_backend.Paging.Walk.{follow}
use virexa_backend.Extractions.{
  ExtractionStatus, status_eq, ExtractionRow, DocumentExtraction, map_extraction,
}

-- the texts before and after the last bar
unfoldable pub split_last : Text → Option (Text × Text)
split_last [] = none
split_last (c ∷ s) = elim (split_last s) [
  | none ↦ if c == 124 then some ([], s) else none
  | some (before, after) ↦ some (c ∷ before, after)
]

split_last-none : (s : Text) → any (λ c. c == 124) s ≡ false → split_last s ≡ none
unfolding split_last
split_last-none [] h = refl
split_last-none (c ∷ s) h = ground (arith, split_last-none s)

pub split_last-append :
    (a b : Text) → any (λ c. c == 124) b ≡ false → split_last (a ++ codes "|" ++ b) ≡ some (a, b)
unfolding split_last
split_last-append [] b h = ground (arith, split_last-none b)
split_last-append (c ∷ a) b h = ground (arith, split_last-append a b h)

pub record ExtractionListQuery : Type 0 where
  pub organization_id : ℕ
  pub document_id : ℕ
  pub limit : ℕ
  pub status : Option ExtractionStatus
  pub cursor : Option Text

abbrev pub position : ExtractionRow → Position
position e = record { stamp = e.created_at; id = e.id }

abbrev pub in_scope : ℕ → ℕ → Option ExtractionStatus → ExtractionRow → Bool
in_scope organization document none e =
    e.organization_id == organization && e.document_id == document
in_scope organization document (some s) e =
    e.organization_id == organization && e.document_id == document && status_eq e.status s

module _ (p : Platform) where
  unfoldable pub encode_extraction_cursor : DocumentExtraction → Text
  encode_extraction_cursor e = p.to_base64url (p.iso e.created_at ++ codes "|" ++ p.uuid_text e.id)

  checked_pair : Text × Text → Option (Text × Text)
  checked_pair (created, id) =
      if is_empty created || not (is_some (p.date_parse created)) || is_empty id
      then none
      else some (created, id)

  unfoldable pub decode_extraction_cursor : Text → Option (Text × Text)
  unfolding checked_pair split_last
  decode_extraction_cursor cursor = elim (split_last (p.from_base64url cursor)) [
    | none ↦ none
    | some pair ↦ checked_pair pair
  ]

  -- an empty cursor is none
  unfoldable pub list_extractions :
      ExtractionListQuery → List ExtractionRow → Outcome QueryError (Page DocumentExtraction)
  unfolding query_page encode_extraction_cursor decode_extraction_cursor
  list_extractions query rows =
      query_page p position (map_extraction p.to_date) encode_extraction_cursor
        decode_extraction_cursor (in_scope query.organization_id query.document_id query.status)
        query.limit (present query.cursor) rows

  reads_back :
      (e : ExtractionRow) (m : ℕ)
      → Laws p
      → e.created_at ≡ 1000 * m
      → cursor_position p decode_extraction_cursor
          (some (encode_extraction_cursor (map_extraction p.to_date e)))
        ≡ ok (some (position e))
  unfolding cursor_position encode_extraction_cursor decode_extraction_cursor checked_pair
  reads_back e m laws whole =
      let t = p.to_date e.created_at in
      ground (
        arith,
        laws.read_base64url t e.id,
        split_last-append (p.iso t) (p.uuid_text e.id) (laws.uuid_plain e.id),
        laws.iso_full t,
        laws.uuid_full e.id,
        laws.parse_iso t,
        cast_position-iso p e.created_at e.id laws,
        cut-whole p e.created_at m laws whole,
      )

  -- created at a whole millisecond
  abbrev pub IsReadable : ExtractionRow → Type 0
  IsReadable e = (m : ℕ) × (e.created_at ≡ 1000 * m)

  full :
      (e : ExtractionRow)
      → Laws p
      → is_empty (encode_extraction_cursor (map_extraction p.to_date e)) ≡ false
  unfolding encode_extraction_cursor
  full e laws = starts (p.iso (p.to_date e.created_at)) (laws.iso_full (p.to_date e.created_at))
    where
      starts :
          (a : Text)
          → is_empty a ≡ false
          → is_empty (p.to_base64url (a ++ codes "|" ++ p.uuid_text e.id)) ≡ false
      starts [] h = cc
      starts (c ∷ a) h = laws.base64url_full c (a ++ codes "|" ++ p.uuid_text e.id)

  module _ (organization document n : ℕ) (status : Option ExtractionStatus)
      (rows : List ExtractionRow) where
    -- the extractions of the document with the status, newest first
    abbrev pub listing : List ExtractionRow
    listing = order_desc position (select (in_scope organization document status) rows)

    -- On a table with distinct identifiers that does not change, where every extraction was created
    -- at a whole millisecond, a client that follows the cursors reads every extraction of the
    -- document, in its organization, with the requested status, once, newest first, and comes to an
    -- end, if it makes more requests than there are such extractions.
    pub list_extractions-follow :
        (rounds : ℕ)
        → Laws p
        → All IsReadable rows
        → IsKeyed (λ e. e.id) rows
        → length listing < rounds
        → follow
            (λ cursor.
              list_extractions
                (record {
                  organization_id = organization;
                  document_id = document;
                  limit = suc n;
                  status = status;
                  cursor = cursor;
                })
                rows)
            rounds
            none
          ≡ some (map (map_extraction p.to_date) listing)
    unfolding list_extractions
    list_extractions-follow rounds laws readable keyed small =
        query_page-follow-present p position (map_extraction p.to_date) encode_extraction_cursor
          decode_extraction_cursor (in_scope organization document status) n rows rounds
          (All-imp IsReadable _ (λ e (m, whole). (reads_back e m laws whole, full e laws)) rows
            readable)
          keyed small
