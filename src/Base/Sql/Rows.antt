-- ===== src/Base/Sql/Rows.antt =====
-- What a selection sees of an update, and how many rows a list of keys selects.
use virexa_backend.Base.{some, first}
use virexa_backend.Base.{
  ℕ, ◌+◌, ◌≤◌, ◌≡◌, refl, Bool, true, false, not, ◌&&◌, ◌||◌, List, [], ◌∷◌, arith, ◌==◌, length,
  All, All-imp, Bool-cases, inl, inr, if◌then◌else◌, any,
}
use virexa_backend.Base.Sql.{select, update, member, IsKeyed}

module _ {ℓ} {A : Type ℓ} where
  -- rows that an update takes out of a selection
  pub select-update_out :
      (q p : A → Bool) (f : A → A) (xs : List A)
      → ((x : A) → q (f x) ≡ false)
      → select q (update p f xs) ≡ select (λ x. q x && not (p x)) xs
  unfolding select update
  select-update_out q p f [] out = refl
  select-update_out q p f (x ∷ xs) out = ground (arith, out x, select-update_out q p f xs out)

  -- rows that an update leaves alone
  pub select-update_apart :
      (q p : A → Bool) (f : A → A) (xs : List A)
      → ((x : A) → p x ≡ true → (q (f x) ≡ false) × (q x ≡ false))
      → select q (update p f xs) ≡ select q xs
  unfolding select update
  select-update_apart q p f [] apart = refl
  select-update_apart q p f (x ∷ xs) apart =
      ground (arith, apart x, select-update_apart q p f xs apart)

  pub select-imp :
      (p q : A → Bool) (xs : List A) → ((x : A) → p x ≡ q x) → select p xs ≡ select q xs
  unfolding select
  select-imp p q [] same = refl
  select-imp p q (x ∷ xs) same = ground (arith, same x, select-imp p q xs same)

  pub length-select_mono :
      (p q : A → Bool) (xs : List A)
      → ((x : A) → p x ≡ true → q x ≡ true)
      → length (select p xs) ≤ length (select q xs)
  unfolding select
  length-select_mono p q [] imp = omega arith
  length-select_mono p q (x ∷ xs) imp = ground (arith, imp x, length-select_mono p q xs imp)

  length-select-or :
      (p q : A → Bool) (xs : List A)
      → length (select (λ x. p x || q x) xs) ≤ length (select p xs) + length (select q xs)
  unfolding select
  length-select-or p q [] = omega arith
  length-select-or p q (x ∷ xs) = ground (arith, length-select-or p q xs)

  pub select-none : (p : A → Bool) (xs : List A) → All (λ x. p x ≡ false) xs → select p xs ≡ []
  unfolding select
  select-none p [] h = refl
  select-none p (x ∷ xs) (e, h) = rw (e) (select-none p xs h)

module _ {ℓ} {A : Type ℓ} (key : A → ℕ) where
  length-select-key :
      (i : ℕ) (xs : List A) → IsKeyed key xs → length (select (λ x. i == key x) xs) ≤ 1
  unfolding select
  length-select-key i [] h = omega arith
  length-select-key i (x ∷ xs) (d, h) = elim (Bool-cases (i == key x)) [
    | inl here ↦ rw (here) (
        rw (select-none (λ y. i == key y) xs (All-imp _ _ (λ y ne. ground arith) xs d))
          (omega arith))
    | inr there ↦ rw (there) (length-select-key i xs h)
  ]

  -- n keys select at most n rows
  pub length-select-member :
      (ids : List ℕ) (xs : List A)
      → IsKeyed key xs
      → length (select (λ x. member ids (key x)) xs) ≤ length ids
  unfolding member
  length-select-member [] xs h = rw (select-none (λ x. false) xs (all_false xs)) (omega arith)
    where
      all_false : (xs : List A) → All (λ x. false ≡ false) xs
      all_false [] = tt
      all_false (y ∷ ys) = (refl, all_false ys)
  length-select-member (i ∷ ids) xs h = omega (
    arith,
    length-select-or (λ x. i == key x) (λ x. member ids (key x)) xs,
    length-select-key i xs h,
    length-select-member ids xs h,
  )

module _ {ℓ} {A : Type ℓ} where
  -- a selection in two parts
  pub length-select-split :
      (p q r : A → Bool) (xs : List A)
      → ((x : A) → ((if p x then 1 else 0) + (if q x then 1 else 0)) ≡ (if r x then 1 else 0))
      → length (select p xs) + length (select q xs) ≡ length (select r xs)
  unfolding select
  length-select-split p q r [] parts = omega arith
  length-select-split p q r (x ∷ xs) parts =
      ground (arith, parts x, length-select-split p q r xs parts)

  pub any-update :
      (q p : A → Bool) (f : A → A) (xs : List A)
      → ((x : A) → q (f x) ≡ q x)
      → any q (update p f xs) ≡ any q xs
  unfolding update
  any-update q p f [] same = refl
  any-update q p f (x ∷ xs) same = ground (arith, same x, any-update q p f xs same)

module _ {A : Type 0} where
  -- what holds of every row holds of a row that is found
  pub All-found :
      (P : A → Type 0) (p : A → Bool) (xs : List A) (x : A)
      → All P xs
      → first (select p xs) ≡ some x
      → P x
  unfolding select
  All-found P p [] x h e = cc
  All-found P p (y ∷ ys) x (h, hs) e = elim (Bool-cases (p y)) [
    | inl here ↦ let same : y ≡ x = ground (arith, here) in rw (← same) h
    | inr other ↦ All-found P p ys x hs (ground (arith, other))
  ]
