-- ===== src/Uploads/Attempts/Laws.antt =====
-- The life of an upload attempt: it is stored consistently, and its end is final.
use virexa_backend.Base.{
  ℕ, ◌≡◌, refl, ◌≢◌, ◌⊎◌, inl, inr, ◌∙◌, Bool, true, false, ◌&&◌, none, some, List, [], ◌∷◌, arith,
  ◌==◌, ==_refl, any, first, All, Bool-cases, Option-cases, is_some, ok, throws, if◌then◌else◌,
}
use virexa_backend.Base.Text.{Text, text_eq, text_eq_refl, trim}
use virexa_backend.Base.Sql.{
  select, update, first-select-update, first-select-holds, first-returning, select-keyed, IsKeyed,
  All-update,
}
use virexa_backend.Uploads.{key_conflict}
use virexa_backend.Uploads.Attempts.{
  AttemptStatus, initiated, completed, failed, is_initiated, Attempt, CreateAttempt, attempt_row,
  has_id, has_key, clashes, same_request, create_or_get, get_by_id, get_by_idempotency_key, is_open,
  to_completed, to_failed, complete, fail,
}
use mathlib.Core.Option

-- the CHECK constraints of the table
abbrev pub IsConsistent : Attempt → Type 0
IsConsistent a =
    ((a.status ≡ initiated) × (a.completed_at ≡ none) × (a.failure_code ≡ none))
    ⊎ (((a.status ≡ completed) × (is_some a.completed_at ≡ true) × (a.failure_code ≡ none))
        ⊎ ((a.status ≡ failed) × (a.completed_at ≡ none) × (is_some a.failure_code ≡ true)))

-- Each operation of the repository keeps every row consistent.
pub operations-IsConsistent :
    (rows : List Attempt) (now fresh organization id : ℕ) (input : CreateAttempt) (code : Text)
    → All IsConsistent rows
    → All IsConsistent (create_or_get now fresh organization input rows).1
      × All IsConsistent (complete now organization id rows).1
      × All IsConsistent (fail now organization id code rows).1
operations-IsConsistent rows now fresh organization id input code h = (created, done, gone)
  where
    created : All IsConsistent (create_or_get now fresh organization input rows).1
    created =
        unfold create_or_get in
        elim (Bool-cases (any (has_key organization input.idempotency_key) rows)) [
          | inl taken ↦ rw (taken) h
          | inr free ↦
              elim (Bool-cases (any (clashes (attempt_row now fresh organization input)) rows)) [
                | inl clash ↦ rw (free, clash) h
                | inr fits ↦ rw (free, fits) (inl (refl, refl, refl), h)
              ]
        ]

    done : All IsConsistent (complete now organization id rows).1
    done =
        unfold complete in
        All-update IsConsistent (is_open organization id) (to_completed now) rows
          (λ a _ _. inr (inl (refl, refl, refl))) h

    gone : All IsConsistent (fail now organization id code rows).1
    gone =
        unfold fail in
        All-update IsConsistent (is_open organization id) (to_failed now code) rows
          (λ a _ _. inr (inr (refl, refl, refl))) h

module _ (organization id : ℕ) (rows : List Attempt) where
  -- what an UPDATE of the open attempt does to a lookup
  get_by_id-update :
      (f : Attempt → Attempt) (organization' id' : ℕ)
      → ((a : Attempt) → has_id organization' id' (f a) ≡ has_id organization' id' a)
      → get_by_id organization' id' (update (is_open organization id) f rows)
        ≡ Option.map
            (λ a. if is_open organization id a then f a else a)
            (get_by_id organization' id' rows)
  unfolding get_by_id
  get_by_id-update f organization' id' same =
      first-select-update (has_id organization' id') (is_open organization id) f rows same

  pub get_by_id-complete :
      (now organization' id' : ℕ)
      → get_by_id organization' id' (complete now organization id rows).1
        ≡ Option.map
            (λ a. if is_open organization id a then to_completed now a else a)
            (get_by_id organization' id' rows)
  unfolding complete
  get_by_id-complete now organization' id' =
      get_by_id-update (to_completed now) organization' id' (λ a. refl)

  pub get_by_id-fail :
      (now : ℕ) (code : Text) (organization' id' : ℕ)
      → get_by_id organization' id' (fail now organization id code rows).1
        ≡ Option.map
            (λ a. if is_open organization id a then to_failed now code a else a)
            (get_by_id organization' id' rows)
  unfolding fail
  get_by_id-fail now code organization' id' =
      get_by_id-update (to_failed now code) organization' id' (λ a. refl)

  pub get_by_id-holds :
      (a : Attempt)
      → get_by_id organization id rows ≡ some a
      → (a.organization_id ≡ organization) × (a.id ≡ id)
  unfolding get_by_id
  get_by_id-holds a e = ground (arith, first-select-holds (has_id organization id) rows a e)

  -- what `complete` returns is stored
  pub complete-stored :
      (now : ℕ)
      → IsKeyed (λ a. a.id) rows
      → (complete now organization id rows).0
        ≡ get_by_id organization id (complete now organization id rows).1
  complete-stored now keyed = elim (Option-cases (first (select (is_open organization id) rows))) [
    | inl shut ↦
        unfold complete in
        ground (arith, first-returning (is_open organization id) (to_completed now) rows, shut)
    | inr (a, e) ↦
        let holds = first-select-holds (is_open organization id) rows a e in
        let read =
          select-keyed (λ b. b.id) id (is_open organization id) (has_id organization id) rows a
            keyed (λ b h. ground arith) (λ b h. ground arith) e in
        let seen = get_by_id-complete now organization id in
        unfold complete get_by_id in
        ground (
          arith,
          first-returning (is_open organization id) (to_completed now) rows,
          e,
          holds,
          read,
          seen,
        )
  ]

-- A completed or failed attempt stays as it is, whatever is completed or failed after.
pub terminal-final :
    (rows : List Attempt) (a : Attempt) (now organization id organization' id' : ℕ) (code : Text)
    → get_by_id organization id rows ≡ some a
    → a.status ≢ initiated
    → (get_by_id organization id (complete now organization' id' rows).1 ≡ some a)
      × (get_by_id organization id (fail now organization' id' code rows).1 ≡ some a)
terminal-final rows a now organization id organization' id' code read ended =
    let shut = closed a.status ended in
    (
      get_by_id-complete organization' id' rows now organization id ∙ ground (arith, read, shut),
      get_by_id-fail organization' id' rows now code organization id ∙ ground (arith, read, shut),
    )
  where
    closed : (s : AttemptStatus) → s ≢ initiated → is_initiated s ≡ false
    closed initiated d = absurd (d refl)
    closed completed d = refl
    closed failed d = refl

any-first :
    (p : Attempt → Bool) (rows : List Attempt) (a : Attempt)
    → first (select p rows) ≡ some a
    → any p rows ≡ true
unfolding select
any-first p [] a h = cc
any-first p (b ∷ rows) a h = ground (arith, any-first p rows a)

-- A key that is taken answers its attempt to a request for the same document and object key, and
-- refuses any other; it writes nothing.
pub create_or_get-taken :
    (now fresh organization : ℕ) (input : CreateAttempt) (rows : List Attempt) (a : Attempt)
    → get_by_idempotency_key organization input.idempotency_key rows ≡ some a
    → create_or_get now fresh organization input rows ≡ (
      if a.document_id == input.document_id && text_eq a.object_key input.object_key
          then ok a
          else throws key_conflict,
      rows,
    )
unfolding create_or_get get_by_idempotency_key same_request
create_or_get-taken now fresh organization input rows a e =
    ground (arith, any-first (has_key organization input.idempotency_key) rows a e)

select-none-any :
    (p : Attempt → Bool) (rows : List Attempt) → first (select p rows) ≡ none → any p rows ≡ false
unfolding select
select-none-any p [] h = refl
select-none-any p (b ∷ rows) h = ground (arith, select-none-any p rows)

-- a new attempt is found by its key and by its identifier
pub create_or_get-new :
    (now fresh organization : ℕ) (input : CreateAttempt) (rows after : List Attempt) (a : Attempt)
    → get_by_idempotency_key organization input.idempotency_key rows ≡ none
    → create_or_get now fresh organization input rows ≡ (ok a, after)
    → (a ≡ attempt_row now fresh organization input)
      × (after ≡ a ∷ rows)
      × (get_by_idempotency_key organization input.idempotency_key after ≡ some a)
      × (get_by_id organization fresh after ≡ some a)
create_or_get-new now fresh organization input rows after a free h =
    let open_key : any (has_key organization input.idempotency_key) rows ≡ false =
      unfold get_by_idempotency_key in
      select-none-any (has_key organization input.idempotency_key) rows free in
    let made : (a ≡ attempt_row now fresh organization input) × (after ≡ a ∷ rows) =
      unfold create_or_get in ground arith in
    (
      made.0,
      made.1,
      unfold get_by_idempotency_key select in
          ground (arith, made, ==_refl organization, text_eq_refl (trim input.idempotency_key)),
      unfold get_by_id select in ground (arith, made, ==_refl organization, ==_refl fresh),
    )
