-- ===== src/Paging/Query/Follow.antt =====
-- A client that follows the cursors of a list query.
use virexa_backend.Base.{
  ℕ, suc, ◌+◌, ◌*◌, ◌<◌, ◌≡◌, refl, ap, ◌∙◌, Bool, false, ◌&&◌, Option, none, some, List, arith,
  map, take, All, length, ok,
}
use virexa_backend.Base.Text.{Text, is_empty, present}
use virexa_backend.Base.Sql.{select, IsKeyed}
use virexa_backend.Base.Sql.Rows.{select-imp}
use virexa_backend.Platform.{Platform, Laws}
use virexa_backend.Paging.{Position, order_desc, page_of}
use virexa_backend.Paging.Walk.{follow, follow-listing}
use virexa_backend.Paging.Query.{cast_position, cursor_position, is_below, query_page}

module _ {A B : Type 0} (p : Platform) (key : A → Position) (project : A → B) (encode : B → Text)
    (decode : Text → Option (Text × Text)) where
  -- the cursor of a row is read back to a date and an identifier that are cast to its position
  abbrev pub IsReadable : A → Type 0
  IsReadable x = cursor_position p decode (some (encode (project x))) ≡ ok (some (key x))

  module _ (scope : A → Bool) (n : ℕ) (rows : List A) where
    -- the page at a position
    pub query_page-at :
        (cursor : Option Text) (at : Option Position)
        → cursor_position p decode cursor ≡ ok at
        → query_page p key project encode decode scope (suc n) cursor rows
          ≡ ok (
              page_of encode (suc n) (
                map project (
                  take
                    (suc (suc n))
                    (order_desc key (select (λ x. scope x && is_below key at x) rows)))))
    unfolding query_page
    query_page-at cursor at e =
        rw (e, query_page)
          (ap
            (λ k. ok (
              page_of encode (suc n) (
                map project
                  (take k (order_desc key (select (λ x. scope x && is_below key at x) rows))))))
            one_more)
      where
        one_more : suc n + 1 ≡ suc (suc n)
        one_more = omega arith

    -- Where every cursor is readable, a client that follows the cursors reads every row in scope,
    -- once, newest first, if it makes more requests than there are such rows.
    pub query_page-follow :
        (rounds : ℕ)
        → All IsReadable rows
        → IsKeyed (λ x. (key x).id) rows
        → length (order_desc key (select scope rows)) < rounds
        → follow
            (λ cursor. query_page p key project encode decode scope (suc n) cursor rows)
            rounds
            none
          ≡ some (map project (order_desc key (select scope rows)))
    unfolding cursor_position
    query_page-follow rounds readable keyed small =
        follow-listing key project encode n
          (λ cursor. query_page p key project encode decode scope (suc n) cursor rows) scope rows
          IsReadable readable keyed
          (query_page-at none none refl
            ∙ ap
                (λ l.
                  ok (page_of encode (suc n) (map project (take (suc (suc n)) (order_desc key l)))))
                (select-imp _ scope rows (λ x. ground arith)))
          (λ x r. query_page-at (some (encode (project x))) (some (key x)) r) rounds small

  -- a readable row whose cursor is not empty
  abbrev pub IsPresent : A → Type 0
  IsPresent x = IsReadable x × (is_empty (encode (project x)) ≡ false)

  -- The same for a list operation that takes an empty cursor for none.
  pub query_page-follow-present :
      (scope : A → Bool) (n : ℕ) (rows : List A) (rounds : ℕ)
      → All IsPresent rows
      → IsKeyed (λ x. (key x).id) rows
      → length (order_desc key (select scope rows)) < rounds
      → follow
          (λ cursor. query_page p key project encode decode scope (suc n) (present cursor) rows)
          rounds
          none
        ≡ some (map project (order_desc key (select scope rows)))
  unfolding cursor_position
  query_page-follow-present scope n rows rounds readable keyed small =
      follow-listing key project encode n
        (λ cursor. query_page p key project encode decode scope (suc n) (present cursor) rows) scope
        rows IsPresent readable keyed
        (query_page-at scope n rows none none refl
          ∙ ap
              (λ l.
                ok (page_of encode (suc n) (map project (take (suc (suc n)) (order_desc key l)))))
              (select-imp _ scope rows (λ x. ground arith)))
        (λ x (r, full).
          ap (λ c. query_page p key project encode decode scope (suc n) c rows) (sent x full)
          ∙ query_page-at scope n rows (some (encode (project x))) (some (key x)) r)
        rounds small
    where
      sent :
          (x : A)
          → is_empty (encode (project x)) ≡ false
          → present (some (encode (project x))) ≡ some (encode (project x))
      sent x full = ground arith

-- What cast and decoding make of a printed position: the date is cut to milliseconds.
pub cast_position-iso :
    (p : Platform) (t i : ℕ)
    → Laws p
    → cast_position p (p.iso (p.to_date t), p.uuid_text i)
      ≡ ok (record { stamp = 1000 * p.to_date t; id = i })
unfolding cast_position
cast_position-iso p t i laws = ground (arith, laws.cast_iso (p.to_date t), laws.cast_uuid i)

pub cut-whole : (p : Platform) (t m : ℕ) → Laws p → t ≡ 1000 * m → 1000 * p.to_date t ≡ t
cut-whole p t m laws whole = ground (arith, ap p.to_date whole ∙ laws.date_whole m, whole)
