-- ===== src/Base/Sql/Keys.antt =====
-- A WHERE clause that names a primary key and tests more.
use virexa_backend.Base.{
  ℕ, ◌≡◌, refl, Bool, true, ◌&&◌, none, List, [], ◌∷◌, arith, first, Option-cases, inl, inr,
}
use virexa_backend.Base.Sql.{select, keep, select-keyed, first-select-holds, IsKeyed}

module _ {ℓ} {A : Type ℓ} where
  select-narrower :
      (p r : A → Bool) (xs : List A)
      → first (select p xs) ≡ none
      → first (select (λ x. p x && r x) xs) ≡ none
  unfolding select
  select-narrower p r [] h = refl
  select-narrower p r (x ∷ xs) h = ground (arith, select-narrower p r xs)

  -- the row with the key, if it passes the other test
  pub first-select-and :
      (key : A → ℕ) (k : ℕ) (p r : A → Bool) (xs : List A)
      → IsKeyed key xs
      → ((x : A) → p x ≡ true → key x ≡ k)
      → first (select (λ x. p x && r x) xs) ≡ keep r (first (select p xs))
  first-select-and key k p r xs keyed named = elim (Option-cases (first (select p xs))) [
    | inl missing ↦ ground (arith, missing, select-narrower p r xs missing)
    | inr (x, found) ↦
        let holds = first-select-holds p xs x found in
        let same =
          select-keyed key k p (λ y. p y && r y) xs x keyed named (λ y h. named y (ground arith))
            found in
        ground (arith, holds, found, same)
  ]
