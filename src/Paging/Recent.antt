-- ===== src/Paging/Recent.antt =====
-- A list query without a cursor, as in src/audit/service.ts and src/organization/repository.ts: the
-- newest rows of a scope, at most as many as the limit.
use virexa_backend.Base.{ℕ, ◌≤◌, ◌≡◌, Bool, true, List, All, All-take, length, length-take-le, take}
use virexa_backend.Base.Sql.{select, All-select_self}
use virexa_backend.Paging.{Position, order_desc}
use virexa_backend.Paging.Order.{All-order_desc}

module _ {A : Type 0} (key : A → Position) where
  unfoldable pub recent : (A → Bool) → ℕ → List A → List A
  unfolding order_desc select
  recent scope limit rows = take limit (order_desc key (select scope rows))

  -- what a client may rely on
  pub record IsRecent (scope : A → Bool) (limit : ℕ) (shown : List A) : Type 0 where
    pub scoped : All (λ x. scope x ≡ true) shown
    pub bounded : length shown ≤ limit

  pub recent-IsRecent :
      (scope : A → Bool) (limit : ℕ) (rows : List A)
      → IsRecent scope limit (recent scope limit rows)
  unfolding recent
  recent-IsRecent scope limit rows = record {
    scoped =
        All-take (λ x. scope x ≡ true) limit (order_desc key (select scope rows))
          (All-order_desc key (λ x. scope x ≡ true) (select scope rows)
            (All-select_self scope rows));
    bounded = length-take-le limit (order_desc key (select scope rows));
  }
