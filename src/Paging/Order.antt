-- ===== src/Paging/Order.antt =====
-- The order of a list query: sorting, selecting below a position, and cutting a sorted list.
use virexa_backend.Base.{
  ℕ, ◌≡◌, refl, ◌≢◌, ◌∙◌, Bool, true, false, ◌&&◌, List, [], ◌∷◌, ◌++◌, arith, All, All-imp,
  if◌then◌else◌, Bool-cases, inl, inr,
}
use virexa_backend.Base.Sql.{select, All-select, IsKeyed}
use virexa_backend.Paging.{Position, before, insert_desc, order_desc}

pub before_asymm : (p q : Position) → before p q ≡ true → before q p ≡ false
unfolding before
before_asymm p q h = ground arith

pub before_irrefl : (p : Position) → before p p ≡ false
unfolding before
before_irrefl p = ground arith

before_trans : (p q r : Position) → before p q ≡ true → before q r ≡ true → before p r ≡ true
unfolding before
before_trans p q r h k = ground arith

before_total : (p q : Position) → p.id ≢ q.id → before p q ≡ false → before q p ≡ true
unfolding before
before_total p q d h = ground arith

module _ {A : Type 0} (key : A → Position) where
  -- strictly descending
  abbrev pub IsDesc : List A → Type 0
  IsDesc [] = Unit
  IsDesc (x ∷ xs) = All (λ y. before (key y) (key x) ≡ true) xs × IsDesc xs

  All-insert_desc {κ} :
      (P : A → Type κ) (x : A) (ys : List A) → P x → All P ys → All P (insert_desc key x ys)
  unfolding insert_desc
  All-insert_desc P x [] p h = (p, tt)
  All-insert_desc P x (y ∷ ys) p (q, h) = ground (arith, All-insert_desc P x ys p h)

  pub All-order_desc {κ} : (P : A → Type κ) (xs : List A) → All P xs → All P (order_desc key xs)
  unfolding order_desc
  All-order_desc P [] h = tt
  All-order_desc P (x ∷ xs) (p, h) =
      All-insert_desc P x (order_desc key xs) p (All-order_desc P xs h)

  abbrev IsOther : A → A → Type 0
  IsOther x y = (key x).id ≢ (key y).id

  insert_desc-IsDesc :
      (x : A) (ys : List A) → All (IsOther x) ys → IsDesc ys → IsDesc (insert_desc key x ys)
  unfolding insert_desc
  insert_desc-IsDesc x [] d h = (tt, tt)
  insert_desc-IsDesc x (y ∷ ys) (d, ds) (a, h) = elim (Bool-cases (before (key x) (key y))) [
    | inl low ↦ rw (low) (
      All-insert_desc (λ z. before (key z) (key y) ≡ true) x ys low a,
      insert_desc-IsDesc x ys ds h,
    )
    | inr high ↦
        let above = before_total (key x) (key y) d high in
        rw (high)
          ((above, All-imp _ _ (λ z b. before_trans (key z) (key y) (key x) b above) ys a), (a, h))
  ]

  pub order_desc-IsDesc : (xs : List A) → IsKeyed (λ x. (key x).id) xs → IsDesc (order_desc key xs)
  unfolding order_desc
  order_desc-IsDesc [] h = tt
  order_desc-IsDesc (x ∷ xs) (d, h) =
      insert_desc-IsDesc x (order_desc key xs) (All-order_desc (IsOther x) xs d)
        (order_desc-IsDesc xs h)

  pub insert_desc-top :
      (x : A) (ys : List A)
      → All (λ y. before (key y) (key x) ≡ true) ys
      → insert_desc key x ys ≡ x ∷ ys
  unfolding insert_desc
  insert_desc-top x [] h = refl
  insert_desc-top x (y ∷ ys) (b, h) = rw (before_asymm (key y) (key x) b)

  select-insert_desc :
      (p : A → Bool) (x : A) (ys : List A)
      → All (IsOther x) ys
      → IsDesc ys
      → select p (insert_desc key x ys)
        ≡ (if p x then insert_desc key x (select p ys) else select p ys)
  unfolding select insert_desc
  select-insert_desc p x [] d h = ground arith
  select-insert_desc p x (y ∷ ys) (d, ds) (a, h) = elim (Bool-cases (before (key x) (key y))) [
    | inl low ↦ ground (arith, select-insert_desc p x ys ds h)
    | inr high ↦
        let above = before_total (key x) (key y) d high in
        let below = All-imp _ _ (λ z b. before_trans (key z) (key y) (key x) b above) ys a in
        ground (
          arith,
          insert_desc-top x (select p ys)
              (All-select (λ z. before (key z) (key x) ≡ true) p ys below),
        )
  ]

  -- selecting and sorting commute
  pub select-order_desc :
      (p : A → Bool) (xs : List A)
      → IsKeyed (λ x. (key x).id) xs
      → select p (order_desc key xs) ≡ order_desc key (select p xs)
  unfolding select order_desc
  select-order_desc p [] h = refl
  select-order_desc p (x ∷ xs) (d, h) =
      select-insert_desc p x (order_desc key xs) (All-order_desc (IsOther x) xs d)
        (order_desc-IsDesc xs h)
      ∙ ground (arith, select-order_desc p xs h)

  select-every : (p : A → Bool) (xs : List A) → All (λ x. p x ≡ true) xs → select p xs ≡ xs
  unfolding select
  select-every p [] h = refl
  select-every p (x ∷ xs) (a, h) = rw (a, select-every p xs h)

  -- what lies below an entry of a descending list is the rest behind it
  pub select-below :
      (front : List A) (x : A) (bs : List A)
      → IsDesc (front ++ x ∷ bs)
      → select (λ y. before (key y) (key x)) (front ++ x ∷ bs) ≡ bs
  unfolding select
  select-below [] x bs (a, h) =
      rw (before_irrefl (key x)) (select-every (λ y. before (key y) (key x)) bs a)
  select-below (y ∷ front) x bs (a, h) =
      rw (before_asymm (key x) (key y) (here front a)) (select-below front x bs h)
    where
      here :
          (front : List A)
          → All (λ z. before (key z) (key y) ≡ true) (front ++ x ∷ bs)
          → before (key x) (key y) ≡ true
      here [] b = b.0
      here (z ∷ zs) b = here zs b.1

pub select-and :
    {A : Type 0} (p q : A → Bool) (xs : List A)
    → select (λ x. p x && q x) xs ≡ select q (select p xs)
unfolding select
select-and p q [] = refl
select-and p q (x ∷ xs) = ground (arith, select-and p q xs)

pub IsKeyed-select :
    {A : Type 0} (key : A → ℕ) (p : A → Bool) (xs : List A)
    → IsKeyed key xs
    → IsKeyed key (select p xs)
unfolding select
IsKeyed-select key p [] h = tt
IsKeyed-select key p (x ∷ xs) (d, h) =
    ground (arith, IsKeyed-select key p xs h, All-select (λ y. key x ≢ key y) p xs d)
