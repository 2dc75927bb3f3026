-- ===== src/Paging/Query.antt =====
-- The list queries: a WHERE clause, the row comparison with a cursor, ORDER BY and LIMIT, and the
-- page of the result. src/workflows/repository.ts, src/agents/repository.ts,
-- src/documents/repository.ts and src/extractions/repository.ts each write this out.
pub mod Follow
pub mod Skip
use virexa_backend.Base.{
  ℕ, ◌+◌, Bool, true, ◌&&◌, Option, none, some, List, map, take, is_some, if◌then◌else◌, Outcome,
  ok, throws, ◌>>=◌,
}
use virexa_backend.Base.Text.{Text}
use virexa_backend.Base.Sql.{select}
use virexa_backend.Platform.{Platform}
use virexa_backend.Paging.{Position, before, order_desc, Page, page_of}

pub data QueryError : Type 0 where
  invalid_cursor cast_failed : QueryError

-- `$4::timestamptz` and `$5::uuid`
unfoldable pub cast_position : Platform → Text × Text → Outcome QueryError Position
cast_position p (created, id) = elim (p.timestamptz created) [
  | none ↦ throws cast_failed
  | some stamp ↦ elim (p.uuid id) [
    | none ↦ throws cast_failed
    | some i ↦ ok (record { stamp = stamp; id = i })
  ]
]

-- the position in a query of a cursor that `decode` reads; null where there is no cursor
unfoldable pub cursor_position :
    Platform → (Text → Option (Text × Text)) → Option Text → Outcome QueryError (Option Position)
unfolding cast_position
cursor_position p decode none = ok none
cursor_position p decode (some cursor) = elim (decode cursor) [
  | none ↦ throws invalid_cursor
  | some c ↦ cast_position p c >>= λ q. ok (some q)
]

abbrev pub is_below : {A : Type 0} → (A → Position) → Option Position → A → Bool
is_below key none x = true
is_below key (some q) x = before (key x) q

module _ {A B : Type 0} (p : Platform) (key : A → Position) (project : A → B) (encode : B → Text)
    (decode : Text → Option (Text × Text)) where
  unfoldable pub query_page : (A → Bool) → ℕ → Option Text → List A → Outcome QueryError (Page B)
  unfolding cursor_position select
  query_page scope limit cursor rows = do
    at ← cursor_position p decode cursor
    let found = take (limit + 1) (order_desc key (select (λ x. scope x && is_below key at x) rows))
    ok (page_of encode limit (map project found))
