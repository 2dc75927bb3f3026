-- ===== src/Paging/Walk.antt =====
-- A client that follows the cursors of a list operation reads every row once, in order.
use virexa_backend.Base.{
  ℕ, zero, suc, ◌<◌, ◌≡◌, refl, ap, sym, subst, ◌∙◌, true, false, Option, none, some, List, [], ◌∷◌,
  ◌++◌, map, arith, ltb, length, last, take, length-append, Outcome, ok, throws, ◌⊎◌, inl, inr, All,
  Bool, ◌&&◌,
}
use virexa_backend.Base.Text.{Text}
use virexa_backend.Base.Sql.{select, All-select, IsKeyed}
use virexa_backend.Paging.{Position, before, order_desc, Page, page_of}
use virexa_backend.Paging.Order.{
  IsDesc, All-order_desc, order_desc-IsDesc, select-order_desc, select-below, select-and,
  IsKeyed-select,
}
use mathlib.Core.List.{append_assoc, map-append}
use mathlib.Core.Option

module _ {E B : Type 0} where
  unfoldable pub visit : (Option Text → Option (List B)) → Outcome E (Page B) → Option (List B)
  visit more (throws e) = none
  visit more (ok page) = elim page.next_cursor [
    | none ↦ some page.items
    | some cursor ↦ Option.map (λ rest. page.items ++ rest) (more (some cursor))
  ]

  -- Reads pages until one has no next cursor; null where a call throws or the rounds run out.
  unfoldable pub follow : (Option Text → Outcome E (Page B)) → ℕ → Option Text → Option (List B)
  unfolding visit
  follow fetch zero cursor = none
  follow fetch (suc rounds) cursor = visit (follow fetch rounds) (fetch cursor)

module _ (E : Type 0) {B : Type 0} where
  visit-last :
      (more : Option Text → Option (List B)) (page : Page B)
      → page.next_cursor ≡ none
      → visit {E = E} more (ok page) ≡ some page.items
  unfolding visit
  visit-last more page h = ground arith

  visit-more :
      (more : Option Text → Option (List B)) (page : Page B) {cursor : Text} {rest : List B}
      → page.next_cursor ≡ some cursor
      → more (some cursor) ≡ some rest
      → visit {E = E} more (ok page) ≡ some (page.items ++ rest)
  unfolding visit
  visit-more more page h k = rw (h) (rw k)

-- the first `suc n` of a list, and whether there is more
Cut : {A : Type 0} → ℕ → List A → Type 0
Cut {A} n xs =
    ((ltb (suc n) (length (take (suc (suc n)) xs)) ≡ false) × (take (suc (suc n)) xs ≡ xs))
    ⊎ ((front : List A) × (x : A) × (rest : List A) × (xs ≡ front ++ x ∷ rest)
        × (ltb (suc n) (length (take (suc (suc n)) xs)) ≡ true)
        × (take (suc n) (take (suc (suc n)) xs) ≡ front ++ x ∷ []))

Cut-cons : {A : Type 0} (n : ℕ) (y : A) (xs : List A) → Cut n xs → Cut (suc n) (y ∷ xs)
unfolding Cut
Cut-cons n y xs (inl (short, all)) = inl (ground arith, ap (◌∷◌ y) all)
Cut-cons n y xs (inr (front, x, rest, split, long, init)) =
    inr (y ∷ front, x, rest, ap (◌∷◌ y) split, ground arith, ap (◌∷◌ y) init)

cut : {A : Type 0} (n : ℕ) (xs : List A) → Cut n xs
unfolding Cut
cut n [] = inl (ground arith, refl)
cut zero (y ∷ []) = inl (refl, refl)
cut zero (y ∷ z ∷ xs) = inr ([], y, z ∷ xs, refl, refl, refl)
cut (suc n) (y ∷ xs) = Cut-cons n y xs (cut n xs)

module _ {A B : Type 0} (item : A → B) where
  map-take : (n : ℕ) (xs : List A) → map item (take n xs) ≡ take n (map item xs)
  map-take zero xs = refl
  map-take (suc n) [] = refl
  map-take (suc n) (x ∷ xs) = ap (◌∷◌ (item x)) (map-take n xs)

  length-map : (xs : List A) → length (map item xs) ≡ length xs
  length-map [] = refl
  length-map (x ∷ xs) = ap suc (length-map xs)

  last-map : (front : List A) (x : A) → last (map item (front ++ x ∷ [])) ≡ some (item x)
  last-map [] x = refl
  last-map (y ∷ []) x = refl
  last-map (y ∷ z ∷ front) x = last-map (z ∷ front) x

  -- one page of a list: all of it, or its front with a cursor that names the last row
  abbrev Split : (B → Text) → Page B → List A → Type 0
  Split encode page xs =
      ((page.items ≡ map item xs) × (page.next_cursor ≡ none))
      ⊎ ((front : List A) × (x : A) × (rest : List A) × (xs ≡ front ++ x ∷ rest)
          × (page.items ≡ map item (front ++ x ∷ []))
          × (page.next_cursor ≡ some (encode (item x))))

  page_of-Split :
      (encode : B → Text) (n : ℕ) (xs : List A)
      → Split encode (page_of encode (suc n) (map item (take (suc (suc n)) xs))) xs
  unfolding page_of Cut
  page_of-Split encode n xs = elim (cut n xs) [
    | inl (short, all) ↦
        let e = rw (← length-map (take (suc (suc n)) xs)) at short in
        inl (rw e (ap (map item) all), rw e)
    | inr (front, x, rest, split, long, init) ↦
        let e = rw (← length-map (take (suc (suc n)) xs)) at long in
        let taken = sym (map-take (suc n) (take (suc (suc n)) xs)) ∙ ap (map item) init in
        inr (front, x, rest, split, rw e taken, rw e (rw taken (rw (last-map front x))))
  ]

module _ {E A B : Type 0} (item : A → B) (encode : B → Text) (n : ℕ)
    (fetch : Option Text → Outcome E (Page B)) (all : List A) where
  abbrev page_at : List A → Page B
  page_at xs = page_of encode (suc n) (map item (take (suc (suc n)) xs))

  -- what is left to read at a cursor
  abbrev Left : Option Text → List A → Type 0
  Left none xs = all ≡ xs
  Left (some cursor) xs =
      (front : List A) × (x : A) × (cursor ≡ encode (item x)) × (all ≡ front ++ x ∷ xs)

  Left-next :
      (cursor : Option Text) (front : List A) (x : A) (rest : List A)
      → Left cursor (front ++ x ∷ rest)
      → Left (some (encode (item x))) rest
  Left-next none front x rest h = (front, x, refl, h)
  Left-next (some c) front x rest (older, y, e, h) =
      (older ++ y ∷ front, x, refl, h ∙ sym (append_assoc older (y ∷ front) (x ∷ rest)))

  module _
      (reads : (cursor : Option Text) (xs : List A)
        → Left cursor xs
        → fetch cursor ≡ ok (page_at xs)) where
    follow-Left :
        (rounds : ℕ) (cursor : Option Text) (xs : List A)
        → Left cursor xs
        → length xs < rounds
        → follow fetch rounds cursor ≡ some (map item xs)
    unfolding follow
    follow-Left zero cursor xs h small = elim small [ ]
    follow-Left (suc rounds) cursor xs h small = elim (page_of-Split item encode n xs) [
      | inl (items, none_left) ↦
          ap (visit (follow fetch rounds)) (reads cursor xs h)
          ∙ visit-last E (follow fetch rounds) (page_at xs) none_left
          ∙ ap some items
      | inr (front, x, rest, split, items, more) ↦
          let later =
            follow-Left rounds (some (encode (item x))) rest
              (Left-next cursor front x rest (subst (Left cursor) split h))
              (omega (arith, ap length split, length-append front (x ∷ rest))) in
          ap (visit (follow fetch rounds)) (reads cursor xs h)
          ∙ visit-more E (follow fetch rounds) (page_at xs) more later
          ∙ ap some (
              ap (λ l. l ++ map item rest) items
              ∙ sym (map-append _ _ _)
              ∙ ap (map item) (append_assoc front (x ∷ []) rest ∙ sym split))
    ]

All-middle :
    {A : Type 0} (P : A → Type 0) (front : List A) (x : A) (rest : List A)
    → All P (front ++ x ∷ rest)
    → P x
All-middle P [] x rest h = h.0
All-middle P (y ∷ front) x rest h = All-middle P front x rest h.1

module _ {E A B : Type 0} (key : A → Position) (item : A → B) (encode : B → Text) (n : ℕ)
    (fetch : Option Text → Outcome E (Page B)) (scope : A → Bool) (rows : List A) where
  abbrev listing : List A
  listing = order_desc key (select scope rows)

  abbrev first_rows : List A → Page B
  first_rows xs = page_of encode (suc n) (map item (take (suc (suc n)) xs))

  -- A list operation that reads the first rows of its listing, and from a cursor the first rows
  -- below the row that the cursor names, gives a client that follows its cursors the whole
  -- listing: nothing twice, nothing left out.
  pub follow-listing :
      (Good : A → Type 0)
      → All Good rows
      → IsKeyed (λ x. (key x).id) rows
      → fetch none ≡ ok (first_rows listing)
      → ((x : A)
          → Good x
          → fetch (some (encode (item x)))
            ≡ ok (
                first_rows (order_desc key (select (λ r. scope r && before (key r) (key x)) rows))))
      → (rounds : ℕ) → length listing < rounds
      → follow fetch rounds none ≡ some (map item listing)
  follow-listing Good good keyed start resume rounds small =
      follow-Left item encode n fetch listing reads rounds none listing refl small
    where
      sorted : IsDesc key listing
      sorted = order_desc-IsDesc key (select scope rows) (IsKeyed-select _ scope rows keyed)

      good_listing : All Good listing
      good_listing = All-order_desc key Good _ (All-select Good scope rows good)

      below :
          (front : List A) (x : A) (xs : List A)
          → listing ≡ front ++ x ∷ xs
          → order_desc key (select (λ r. scope r && before (key r) (key x)) rows) ≡ xs
      below front x xs e =
          ap (order_desc key) (select-and scope (λ r. before (key r) (key x)) rows)
          ∙ sym (
              select-order_desc key (λ r. before (key r) (key x)) (select scope rows)
                (IsKeyed-select _ scope rows keyed))
          ∙ ap (select (λ r. before (key r) (key x))) e
          ∙ select-below key front x xs (subst (IsDesc key) e sorted)

      reads :
          (cursor : Option Text) (xs : List A)
          → Left item encode n fetch listing cursor xs
          → fetch cursor ≡ ok (first_rows xs)
      reads none xs h = start ∙ ap (λ l. ok (first_rows l)) h
      reads (some c) xs (front, x, e, h) =
          ap (λ t. fetch (some t)) e
          ∙ resume x (All-middle Good front x xs (subst (All Good) h good_listing))
          ∙ ap (λ l. ok (first_rows l)) (below front x xs h)
