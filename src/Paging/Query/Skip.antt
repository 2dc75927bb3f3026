-- ===== src/Paging/Query/Skip.antt =====
-- The rows that a list query with a cursor in milliseconds skips.
use virexa_backend.Base.{
  ℕ, ◌<◌, ◌≤◌, ◌≡◌, refl, ap, ◌∙◌, Bool, true, ◌&&◌, Option, none, some, [], ◌∷◌, arith, map, take,
  ok,
}
use virexa_backend.Base.Text.{Text}
use virexa_backend.Base.Sql.{select}
use virexa_backend.Platform.{Platform}
use virexa_backend.Paging.{Position, before, order_desc, page_of}
use virexa_backend.Paging.Order.{before_asymm}
use virexa_backend.Paging.Walk.{follow}
use virexa_backend.Paging.Query.{cursor_position, is_below, query_page}
use virexa_backend.Paging.Query.Follow.{query_page-at}

module _ {A B : Type 0} (p : Platform) (key : A → Position) (project : A → B) (encode : B → Text)
    (decode : Text → Option (Text × Text)) (scope : A → Bool) (x y : A) (of_x : scope x ≡ true)
    (of_y : scope y ≡ true) (below : before (key y) (key x) ≡ true) where
  both_rows :
      order_desc key (select (λ r. scope r && is_below key none r) (x ∷ y ∷ [])) ≡ x ∷ y ∷ []
  both_rows =
      unfold select order_desc in ground (arith, of_x, of_y, before_asymm (key y) (key x) below)

  nothing_below :
      (cut i : ℕ)
      → cut ≤ (key x).stamp
      → cut < (key y).stamp
      → i ≡ (key x).id
      → order_desc key (
          select
            (λ r. scope r && is_below key (some (record { stamp = cut; id = i })) r)
            (x ∷ y ∷ []))
        ≡ []
  nothing_below cut i at_x past_y same = unfold select order_desc before in ground arith

  -- If the cursor of the first of two rows is cut below the second, then a client that reads one
  -- row a page never sees the second.
  pub query_page-skips :
      (cut : ℕ)
      → cursor_position p decode (some (encode (project x)))
        ≡ ok (some (record { stamp = cut; id = (key x).id }))
      → cut ≤ (key x).stamp
      → cut < (key y).stamp
      → follow (λ cursor. query_page p key project encode decode scope 1 cursor (x ∷ y ∷ [])) 2 none
        ≡ some (project x ∷ [])
  unfolding cursor_position
  query_page-skips cut reads at_x past_y =
      let start =
        query_page-at p key project encode decode scope 0 (x ∷ y ∷ []) none none refl
        ∙ ap (λ l. ok (page_of encode 1 (map project (take 2 l)))) both_rows in
      let rest_page =
        query_page-at p key project encode decode scope 0 (x ∷ y ∷ []) (some (encode (project x)))
          (some (record { stamp = cut; id = (key x).id })) reads
        ∙ ap (λ l. ok (page_of encode 1 (map project (take 2 l))))
            (nothing_below cut (key x).id at_x past_y refl) in
      unfold follow page_of in ground (arith, start, rest_page)
