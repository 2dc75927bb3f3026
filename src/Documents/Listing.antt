-- ===== src/Documents/Listing.antt =====
-- list of src/documents/repository.ts: the pages, and what a client that follows the cursors reads.
use virexa_backend.Base.{
  ℕ, suc, ◌*◌, ◌<◌, ◌≡◌, ap, ◌∙◌, Bool, true, ◌&&◌, Option, none, some, List, [], ◌∷◌, ◌==◌, map,
  All, All-imp, length, ok, Outcome, refl,
}
use virexa_backend.Base.Text.{Text, present}
use virexa_backend.Base.Sql.{select, IsKeyed}
use virexa_backend.Platform.{Platform, Laws}
use virexa_backend.Paging.{Position, order_desc, Page}
use virexa_backend.Paging.Query.{QueryError, query_page}
use virexa_backend.Paging.Query.Follow.{query_page-follow-present, cut-whole}
use virexa_backend.Paging.Walk.{follow}
use virexa_backend.Paging.Cursor.{encode_cursor, decode_cursor, cursor_position-encode}
use virexa_backend.Documents.{DocumentStatus, status_eq, Document}

pub record DocumentListQuery : Type 0 where
  pub limit : ℕ
  pub status : Option DocumentStatus
  pub cursor : Option Text

abbrev pub position : Document → Position
position d = record { stamp = d.received_at; id = d.id }

abbrev pub in_scope : ℕ → Option DocumentStatus → Document → Bool
in_scope organization none d = d.organization_id == organization
in_scope organization (some s) d = d.organization_id == organization && status_eq d.status s

map-same : (l : List Document) → map (λ d. d) l ≡ l
map-same [] = refl
map-same (d ∷ l) = ap (◌∷◌ d) (map-same l)

module _ (p : Platform) where
  -- the `receivedAt` of the cursor is in milliseconds
  unfoldable pub encode_document_cursor : Document → Text
  unfolding encode_cursor
  encode_document_cursor d = encode_cursor p (p.to_date d.received_at) d.id

  -- no test of the identifier but that it is a string
  unfoldable pub decode_document_cursor : Text → Option (Text × Text)
  unfolding decode_cursor
  decode_document_cursor = decode_cursor p (λ id. true)

  -- an empty cursor is none
  unfoldable pub list_documents :
      ℕ → DocumentListQuery → List Document → Outcome QueryError (Page Document)
  unfolding query_page encode_document_cursor decode_document_cursor
  list_documents organization query rows =
      query_page p position (λ d. d) encode_document_cursor decode_document_cursor
        (in_scope organization query.status) query.limit (present query.cursor) rows

  -- received at a whole millisecond
  abbrev pub IsReadable : Document → Type 0
  IsReadable d = (m : ℕ) × (d.received_at ≡ 1000 * m)

  module _ (organization n : ℕ) (status : Option DocumentStatus) (rows : List Document) where
    -- the documents of the organization with the status, newest first
    abbrev pub listing : List Document
    listing = order_desc position (select (in_scope organization status) rows)

    -- Where every document was received at a whole millisecond, a client that follows the cursors
    -- reads every document of its organization with the requested status, once, newest first, if
    -- it makes more requests than there are such documents.
    pub list_documents-follow :
        (rounds : ℕ)
        → Laws p
        → All IsReadable rows
        → IsKeyed (λ d. d.id) rows
        → length listing < rounds
        → follow
            (λ cursor.
              list_documents organization
                (record { limit = suc n; status = status; cursor = cursor })
                rows)
            rounds
            none
          ≡ some listing
    unfolding list_documents encode_document_cursor decode_document_cursor
    list_documents-follow rounds laws readable keyed small =
        query_page-follow-present p position (λ d. d) encode_document_cursor decode_document_cursor
          (in_scope organization status) n rows rounds
          (All-imp IsReadable _
            (λ d (m, whole). (
              cursor_position-encode p (λ id. true) d.received_at d.id laws refl
                  ∙ ap (λ s. ok (some (record { stamp = s; id = d.id })))
                      (cut-whole p d.received_at m laws whole),
              laws.cursor_full (p.iso (p.to_date d.received_at)) (p.uuid_text d.id),
            ))
            rows readable)
          keyed small
        ∙ ap some (map-same listing)
