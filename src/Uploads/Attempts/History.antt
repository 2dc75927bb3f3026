-- ===== src/Uploads/Attempts/History.antt =====
-- What becomes of an upload attempt: the tables that any number of calls of the repository make of a
-- table, in any order, and the row that a key finds in them.
use virexa_backend.Base.{
  ◌⊎◌, ℕ, ◌≡◌, refl, ◌≢◌, ◌∙◌, Bool, true, some, List, [], ◌∷◌, arith, any, first, Bool-cases, inl,
  inr,
}
use virexa_backend.Base.Text.{Text, text_eq_iff, trim}
use virexa_backend.Base.Sql.{select, update, first-select-update, first-select-holds}
use virexa_backend.Uploads.Attempts.{
  AttemptStatus, initiated, completed, failed, is_initiated, Attempt, CreateAttempt, attempt_row,
  has_key, clashes, create_or_get, get_by_idempotency_key, is_open, to_completed, to_failed,
  complete, fail,
}

pub status-cases : (t : AttemptStatus) → (t ≡ completed) ⊎ ((t ≡ initiated) ⊎ (t ≡ failed))
status-cases completed = inl refl
status-cases initiated = inr (inl refl)
status-cases failed = inr (inr refl)

-- one call that may change the table
pub data Step : List Attempt → List Attempt → Type 0 where
  creates :
      (now fresh organization : ℕ) (input : CreateAttempt) (rows : List Attempt)
      → Step rows (create_or_get now fresh organization input rows).1
  completes :
      (now organization id : ℕ) (rows : List Attempt)
      → Step rows (complete now organization id rows).1
  fails :
      (now organization id : ℕ) (code : Text) (rows : List Attempt)
      → Step rows (fail now organization id code rows).1

-- the second table comes of the first by calls
pub data Later (rows : List Attempt) : List Attempt → Type 0 where
  same : Later rows rows
  next : {between after : List Attempt} → Later rows between → Step between after → Later rows after

-- A row at a later time: as it was, or an attempt that was initiated and has come to an end.
pub data Follows (a b : Attempt) : Type 0 where
  unchanged : b ≡ a → Follows a b
  ended :
      a.status ≡ initiated
      → b.status ≢ initiated
      → b.id ≡ a.id
      → b.document_id ≡ a.document_id
      → b.object_key ≡ a.object_key
      → Follows a b

pub Follows-identity :
    (a b : Attempt)
    → Follows a b
    → (b.id ≡ a.id) × (b.document_id ≡ a.document_id) × (b.object_key ≡ a.object_key)
Follows-identity a b (unchanged e) = ground (arith, e)
Follows-identity a b (ended _ _ i d k) = (i, d, k)

pub Follows-trans : (a b c : Attempt) → Follows a b → Follows b c → Follows a c
Follows-trans a b c (unchanged e) (unchanged f) = unchanged (f ∙ e)
Follows-trans a b c (unchanged e) (ended begun over i d k) =
    ended (ground (arith, e)) over (ground (arith, e)) (ground (arith, e)) (ground (arith, e))
Follows-trans a b c (ended begun over i d k) (unchanged f) =
    ended begun (ground (arith, f)) (ground (arith, f)) (ground (arith, f)) (ground (arith, f))
Follows-trans a b c (ended begun over i d k) (ended begun' over' i' d' k') = absurd (over begun')

any-found :
    (p q : Attempt → Bool) (rows : List Attempt) (a : Attempt)
    → first (select p rows) ≡ some a
    → q a ≡ true
    → any q rows ≡ true
unfolding select
any-found p q [] a h e = cc
any-found p q (b ∷ rows) a h e = elim (Bool-cases (p b)) [
  | inl here ↦ let same : b ≡ a = ground (arith, here) in ground (arith, same, e)
  | inr other ↦ ground (arith, any-found p q rows a (ground (arith, other)) e)
]

module _ (organization : ℕ) (key : Text) where
  -- the row of the key, at a later time
  abbrev pub Kept : Attempt → List Attempt → Type 0
  Kept a rows =
      (b : Attempt) × (get_by_idempotency_key organization key rows ≡ some b) × Follows a b

  has_key_trim :
      (organization' : ℕ) (input : CreateAttempt) (now fresh : ℕ) (a : Attempt)
      → has_key organization key (attempt_row now fresh organization' input) ≡ true
      → has_key organization key a ≡ true
      → has_key organization' input.idempotency_key a ≡ true
  has_key_trim organization' input now fresh a new old = ground (
    arith,
    text_eq_iff (trim input.idempotency_key) (trim key),
    text_eq_iff a.idempotency_key (trim key),
    text_eq_iff a.idempotency_key (trim input.idempotency_key),
  )

  create_or_get-keeps :
      (now fresh organization' : ℕ) (input : CreateAttempt) (rows : List Attempt) (a : Attempt)
      → get_by_idempotency_key organization key rows ≡ some a
      → get_by_idempotency_key organization key (create_or_get now fresh organization' input rows).1
        ≡ some a
  unfolding create_or_get get_by_idempotency_key select
  create_or_get-keeps now fresh organization' input rows a found =
      let row = attempt_row now fresh organization' input in
      let taken = has_key organization' input.idempotency_key in
      elim (Bool-cases (any taken rows)) [
        | inl known ↦ ground (arith, known, found)
        | inr free ↦ elim (Bool-cases (any (clashes row) rows)) [
          | inl clash ↦ ground (arith, free, clash, found)
          | inr fits ↦ elim (Bool-cases (has_key organization key row)) [
            | inr other ↦ ground (arith, free, fits, other, found)
            | inl new ↦
                let holds = first-select-holds (has_key organization key) rows a found in
                let seen =
                  any-found (has_key organization key) taken rows a found
                    (has_key_trim organization' input now fresh a new holds) in
                absurd (ground (arith, free, seen))
          ]
        ]
      ]

  -- an UPDATE that ends open attempts
  update-keeps :
      (organization' id : ℕ) (f : Attempt → Attempt) (rows : List Attempt) (a : Attempt)
      → ((b : Attempt) → has_key organization key (f b) ≡ has_key organization key b)
      → ((b : Attempt) → is_open organization' id b ≡ true → Follows b (f b))
      → get_by_idempotency_key organization key rows ≡ some a
      → Kept a (update (is_open organization' id) f rows)
  unfolding get_by_idempotency_key
  update-keeps organization' id f rows a alike ends found =
      let seen =
        first-select-update (has_key organization key) (is_open organization' id) f rows alike in
      elim (Bool-cases (is_open organization' id a)) [
        | inl is_still_open ↦
            (f a, ground (arith, seen, found, is_still_open), ends a is_still_open)
        | inr shut ↦ (a, ground (arith, seen, found, shut), unchanged refl)
      ]

  begun : (s : AttemptStatus) → is_initiated s ≡ true → s ≡ initiated
  begun initiated h = refl
  begun completed h = cc
  begun failed h = cc

  Step-keeps :
      {rows after : List Attempt}
      → Step rows after
      → (a : Attempt) → get_by_idempotency_key organization key rows ≡ some a
      → Kept a after
  unfolding complete fail
  Step-keeps (creates now fresh organization' input rows) a found =
      (a, create_or_get-keeps now fresh organization' input rows a found, unchanged refl)
  Step-keeps (completes now organization' id rows) a found =
      update-keeps organization' id (to_completed now) rows a (λ b. refl)
        (λ b open_row. ended (begun b.status (ground arith)) (ground arith) refl refl refl) found
  Step-keeps (fails now organization' id code rows) a found =
      update-keeps organization' id (to_failed now code) rows a (λ b. refl)
        (λ b open_row. ended (begun b.status (ground arith)) (ground arith) refl refl refl) found

  -- A key finds its attempt for ever, as it was or at its end.
  pub Later-keeps :
      {rows after : List Attempt}
      → Later rows after
      → (a : Attempt) → get_by_idempotency_key organization key rows ≡ some a
      → Kept a after
  Later-keeps same a found = (a, found, unchanged refl)
  Later-keeps (next later step) a found =
      let (b, kept, follows) = Later-keeps later a found in
      let (c, kept', follows') = Step-keeps step b kept in
      (c, kept', Follows-trans a b c follows follows')
