-- ===== src/Base/Sql.antt =====
-- The SQL statements of the repositories over a table that is a list of rows: SELECT … WHERE,
-- UPDATE … WHERE with its RETURNING rows, INSERT, and primary keys.
pub mod Rows
pub mod Keys
use virexa_backend.Base.{
  ℕ, ◌≡◌, refl, sym, ◌∙◌, Bool, true, false, ◌||◌, Option, none, some, List, [], ◌∷◌, ◌++◌, map,
  arith, ◌==◌, inl, inr, Bool-cases, first, All, All-imp, All-append, if◌then◌else◌, ◌≢◌,
}
use mathlib.Core.Option

-- `id IN (…)`
unfoldable pub member : List ℕ → ℕ → Bool
member [] i = false
member (j ∷ js) i = j == i || member js i

module _ {ℓ} {A : Type ℓ} where
  -- the rows that a WHERE clause keeps
  unfoldable pub select : (A → Bool) → List A → List A
  select p [] = []
  select p (x ∷ xs) = let rest = select p xs in if p x then x ∷ rest else rest

  -- UPDATE … SET … WHERE
  unfoldable pub update : (A → Bool) → (A → A) → List A → List A
  update p f [] = []
  update p f (x ∷ xs) = (if p x then f x else x) ∷ update p f xs

  -- the rows of UPDATE … RETURNING
  unfoldable pub returning : (A → Bool) → (A → A) → List A → List A
  unfolding select
  returning p f xs = map f (select p xs)

  -- a row that only one test keeps
  abbrev pub keep : (A → Bool) → Option A → Option A
  keep p none = none
  keep p (some x) = if p x then some x else none

  pub All-select {κ} :
      (P : A → Type κ) (p : A → Bool) (xs : List A) → All P xs → All P (select p xs)
  unfolding select
  All-select P p [] h = tt
  All-select P p (x ∷ xs) h = ground (arith, All-select P p xs h.1)

  -- every row that SELECT returns passes its WHERE clause
  pub All-select_self : (p : A → Bool) (xs : List A) → All (λ x. p x ≡ true) (select p xs)
  unfolding select
  All-select_self p [] = tt
  All-select_self p (x ∷ xs) = ground (arith, All-select_self p xs)

  pub first-select-holds :
      (p : A → Bool) (xs : List A) (x : A) → first (select p xs) ≡ some x → p x ≡ true
  unfolding select
  first-select-holds p [] x h = cc
  first-select-holds p (y ∷ ys) x h = ground (arith, first-select-holds p ys x)

  pub first-returning :
      (p : A → Bool) (f : A → A) (xs : List A)
      → first (returning p f xs) ≡ Option.map f (first (select p xs))
  unfolding returning select
  first-returning p f [] = refl
  first-returning p f (x ∷ xs) = ground (arith, first-returning p f xs)

  -- where no row passes, UPDATE changes nothing
  pub update-none :
      (p : A → Bool) (f : A → A) (xs : List A) → first (select p xs) ≡ none → update p f xs ≡ xs
  unfolding select update
  update-none p f [] h = refl
  update-none p f (x ∷ xs) h = ground (arith, update-none p f xs)

  pub All-update {κ} :
      (P : A → Type κ) (p : A → Bool) (f : A → A) (xs : List A)
      → ((x : A) → p x ≡ true → P x → P (f x))
      → All P xs
      → All P (update p f xs)
  unfolding update
  All-update P p f [] keeps h = tt
  All-update P p f (x ∷ xs) keeps h = ground (arith, keeps x, All-update P p f xs keeps h.1)

  -- a lookup by columns that an UPDATE leaves alone sees the updated row
  pub first-select-update :
      (q p : A → Bool) (f : A → A) (xs : List A)
      → ((x : A) → q (f x) ≡ q x)
      → first (select q (update p f xs))
        ≡ Option.map (λ x. if p x then f x else x) (first (select q xs))
  unfolding select update
  first-select-update q p f [] same = refl
  first-select-update q p f (x ∷ xs) same =
      ground (arith, same x, first-select-update q p f xs same)

  -- an appended row is found only where no earlier row is
  pub first-select-append :
      (q : A → Bool) (xs : List A) (x : A)
      → first (select q (xs ++ x ∷ []))
        ≡ (elim (first (select q xs)) [ none ↦ if q x then some x else none | some y ↦ some y ])
  unfolding select
  first-select-append q [] x = ground arith
  first-select-append q (y ∷ ys) x = ground (arith, first-select-append q ys x)

module _ {ℓ} {A : Type ℓ} (key : A → ℕ) where
  -- PRIMARY KEY: no two rows share a key
  abbrev pub IsKeyed : List A → Type ℓ
  IsKeyed [] = Unit
  IsKeyed (x ∷ xs) = All (λ y. key x ≢ key y) xs × IsKeyed xs

  select-absent :
      (k : ℕ) (q : A → Bool) (xs : List A)
      → ((x : A) → q x ≡ true → key x ≡ k)
      → All (λ y. k ≢ key y) xs
      → first (select q xs) ≡ none
  unfolding select
  select-absent k q [] only h = refl
  select-absent k q (x ∷ xs) only h = ground (arith, only x, select-absent k q xs only h.1)

  update-absent :
      (k : ℕ) (q : A → Bool) (f : A → A) (xs : List A)
      → ((x : A) → q x ≡ true → key x ≡ k)
      → All (λ y. k ≢ key y) xs
      → update q f xs ≡ xs
  update-absent k q f xs only h = update-none q f xs (select-absent k q xs only h)

  -- two lookups by one key meet the same row
  pub select-keyed :
      (k : ℕ) (p q : A → Bool) (xs : List A) (x : A)
      → IsKeyed xs
      → ((y : A) → p y ≡ true → key y ≡ k)
      → ((y : A) → q y ≡ true → key y ≡ k)
      → first (select p xs) ≡ some x
      → first (select q xs) ≡ (if q x then some x else none)
  unfolding select
  select-keyed k p q [] x keyed pk qk h = cc
  select-keyed k p q (y ∷ ys) x (a, keyed) pk qk h = elim (Bool-cases (p y)) [
    | inl here ↦ ground (arith, select-absent (key y) q ys (λ z hz. qk z hz ∙ sym (pk y here)) a)
    | inr later ↦ elim (Bool-cases (q y)) [
      | inl other ↦
          ground (arith, select-absent (key y) p ys (λ z hz. pk z hz ∙ sym (qk y other)) a)
      | inr neither ↦ ground (arith, select-keyed k p q ys x keyed pk qk)
    ]
  ]

  pub IsKeyed-update :
      (p : A → Bool) (f : A → A) (xs : List A)
      → ((x : A) → key (f x) ≡ key x)
      → IsKeyed xs
      → IsKeyed (update p f xs)
  unfolding update
  IsKeyed-update p f [] same h = tt
  IsKeyed-update p f (x ∷ xs) same (a, h) = (
    All-update (λ y. key (if p x then f x else x) ≢ key y) p f xs (λ y _ d e. d (e ∙ same y))
        (All-imp _ _ (λ y d e. d (sym (key-if x) ∙ e)) xs a),
    IsKeyed-update p f xs same h,
  )
    where
      key-if : (y : A) → key (if p y then f y else y) ≡ key y
      key-if y = ground (arith, same y)

  pub IsKeyed-append :
      (xs : List A) (x : A) → All (λ y. key x ≢ key y) xs → IsKeyed xs → IsKeyed (xs ++ x ∷ [])
  IsKeyed-append [] x h k = (tt, tt)
  IsKeyed-append (y ∷ ys) x (d, h) (a, k) =
      (All-append _ ys (x ∷ []) a (λ e. d (sym e), tt), IsKeyed-append ys x h k)
