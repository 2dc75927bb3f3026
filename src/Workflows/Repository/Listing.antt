-- ===== src/Workflows/Repository/Listing.antt =====
-- The pages of `listPage`: what a client that follows the cursors reads.
use virexa_backend.Base.{
  ℕ, suc, ◌*◌, ◌/◌, ◌%◌, ◌<◌, ◌≡◌, ◌≢◌, ap, ◌∙◌, true, Option, none, some, List, [], ◌∷◌, arith,
  ==_refl, map, All, All-imp, length, ok, Outcome,
}
use virexa_backend.Base.Text.{Text, is_uuid}
use virexa_backend.Base.Sql.{select, IsKeyed}
use virexa_backend.Platform.{Platform, Laws}
use virexa_backend.Paging.{before, order_desc, Page}
use virexa_backend.Paging.Query.{QueryError}
use virexa_backend.Paging.Query.Follow.{query_page-follow, cut-whole}
use virexa_backend.Paging.Query.Skip.{query_page-skips}
use virexa_backend.Paging.Walk.{follow}
use virexa_backend.Paging.Cursor.{cursor_position-encode}
use virexa_backend.Workflows.{WorkflowStatus, Workflow}
use virexa_backend.Workflows.Repository.{
  WorkflowRow, map_workflow, position, encode_workflow_cursor, decode_workflow_cursor, in_scope,
  list_page,
}

module _ (p : Platform) where
  -- created at a whole millisecond, with an identifier that the cursor check accepts
  abbrev pub IsReadable : WorkflowRow → Type 0
  IsReadable w = (m : ℕ) × (w.created_at ≡ 1000 * m) × (is_uuid (p.uuid_text w.id) ≡ true)

  module _ (organization n : ℕ) (status : Option WorkflowStatus) (rows : List WorkflowRow) where
    -- the list operation at page size `suc n`
    abbrev pub fetch : Option Text → Outcome QueryError (Page Workflow)
    fetch cursor =
        list_page p organization (record { limit = suc n; status = status; cursor = cursor }) rows

    -- the workflows of the organization with the status, newest first
    abbrev pub listing : List WorkflowRow
    listing = order_desc position (select (in_scope organization status) rows)

    -- On a table with distinct identifiers that does not change, where every workflow was created
    -- at a whole millisecond and has an identifier that the cursor check accepts, a client that
    -- follows the cursors reads every workflow of its organization with the requested status, once,
    -- newest first, if it makes more requests than there are such workflows.
    pub list_page-follow :
        (rounds : ℕ)
        → Laws p
        → All IsReadable rows
        → IsKeyed (λ w. w.id) rows
        → length listing < rounds
        → follow fetch rounds none ≡ some (map (map_workflow p.to_date) listing)
    unfolding list_page encode_workflow_cursor decode_workflow_cursor
    list_page-follow rounds laws readable keyed small =
        query_page-follow p position (map_workflow p.to_date) (encode_workflow_cursor p)
          (decode_workflow_cursor p) (in_scope organization status) n rows rounds
          (All-imp IsReadable _
            (λ w (m, whole, fits).
              cursor_position-encode p is_uuid w.created_at w.id laws fits
              ∙ ap (λ s. ok (some (record { stamp = s; id = w.id })))
                  (cut-whole p w.created_at m laws whole))
            rows readable)
          keyed small

-- `created_at` has microseconds, and the cursor only milliseconds: a client that reads one
-- workflow a page never sees the second of two workflows of one millisecond, if the driver drops
-- the microseconds and the second has some.
pub list_page-skips :
    (p : Platform) (organization : ℕ) (x y : WorkflowRow)
    → Laws p
    → p.to_date x.created_at ≡ x.created_at / 1000
    → is_uuid (p.uuid_text x.id) ≡ true
    → x.organization_id ≡ organization
    → y.organization_id ≡ organization
    → before (position y) (position x) ≡ true
    → y.created_at / 1000 ≡ x.created_at / 1000
    → y.created_at % 1000 ≢ 0
    → follow (fetch p organization 0 none (x ∷ y ∷ [])) 2 none
      ≡ some (map_workflow p.to_date x ∷ [])
unfolding list_page encode_workflow_cursor decode_workflow_cursor
list_page-skips p organization x y laws floor fits of_x of_y below same rest =
    query_page-skips p position (map_workflow p.to_date) (encode_workflow_cursor p)
      (decode_workflow_cursor p) (in_scope organization none) x y
      (ground (arith, ==_refl organization)) (ground (arith, ==_refl organization)) below
      (1000 * p.to_date x.created_at) (cursor_position-encode p is_uuid x.created_at x.id laws fits)
      (omega (arith, floor)) (omega (arith, floor, same, rest))
