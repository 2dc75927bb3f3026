-- ===== src/Paging.antt =====
-- Keyset pagination, as the list queries of src/workflows/repository.ts, src/agents/repository.ts,
-- src/documents/repository.ts and src/extractions/repository.ts do it: rows in descending order
-- of (created_at, id), one row more than the limit, and a cursor that names the last row.
pub mod Order
pub mod Walk
pub mod Query
pub mod Cursor
pub mod Recent
use virexa_backend.Base.{
  ℕ, ◌+◌, Bool, ◌&&◌, ◌||◌, Option, none, some, List, [], ◌∷◌, ltb, ◌==◌, if◌then◌else◌, length,
  last, take,
}
use virexa_backend.Base.Text.{Text}
use mathlib.Core.Option

-- the pair (created_at, id) of a row, or of a cursor in a query
pub record Position : Type 0 where
  pub stamp : ℕ
  pub id : ℕ

-- the row comparison `(created_at, id) < ($a, $b)`
unfoldable pub before : Position → Position → Bool
before p q = ltb p.stamp q.stamp || (p.stamp == q.stamp && ltb p.id q.id)

module _ {A : Type 0} (key : A → Position) where
  unfoldable pub insert_desc : A → List A → List A
  insert_desc x [] = x ∷ []
  insert_desc x (y ∷ ys) = if before (key x) (key y) then y ∷ insert_desc x ys else x ∷ y ∷ ys

  -- ORDER BY created_at DESC, id DESC
  unfoldable pub order_desc : List A → List A
  unfolding insert_desc before
  order_desc [] = []
  order_desc (x ∷ xs) = insert_desc x (order_desc xs)

pub record Page (B : Type 0) : Type 0 where
  pub items : List B
  pub next_cursor : Option Text

-- From the rows of a query with LIMIT `limit + 1`: the page, and the cursor of its last item if
-- there is more.
unfoldable pub page_of : {B : Type 0} → (B → Text) → ℕ → List B → Page B
page_of encode limit mapped =
    let has_more = ltb limit (length mapped) in
    let items = if has_more then take limit mapped else mapped in
    record {
      items = items;
      next_cursor = if has_more then Option.map encode (last items) else none;
    }
