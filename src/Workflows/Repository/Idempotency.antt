-- ===== src/Workflows/Repository/Idempotency.antt =====
-- Idempotent creation: what a second request with the same key gets.
use virexa_backend.Base.{
  ℕ, ◌≡◌, refl, sym, ◌≢◌, ap, ◌∙◌, true, Option, none, some, arith, ok, throws, Bool-cases, inl,
  inr,
}
use virexa_backend.Base.Text.{Text, text_eq_iff, text_eq_refl, trim, trim-trim, is_empty}
use virexa_backend.Keyed.{Tables, idempotency_key_reused, Created, create_keyed}
use virexa_backend.Keyed.Laws.{create_keyed-again}
use virexa_backend.Workflows.{Workflow, CreateWorkflowRequest}
use virexa_backend.Workflows.Repository.{
  WorkflowRow, columns, trim_or_null, normalized_create_payload, request_hash, workflow_row,
  create_idempotent,
}

pub trim_or_null-trim_or_null : (d : Option Text) → trim_or_null (trim_or_null d) ≡ trim_or_null d
trim_or_null-trim_or_null none = refl
trim_or_null-trim_or_null (some s) = elim (Bool-cases (is_empty (trim s))) [
  | inl empty ↦ rw (empty)
  | inr full ↦ ground (arith, full, trim-trim s)
]

-- The payload that `createIdempotent` hashes was normalized before: that makes no difference.
pub normalized_twice :
    (input : CreateWorkflowRequest)
    → normalized_create_payload (normalized_create_payload input) ≡ normalized_create_payload input
unfolding normalized_create_payload
normalized_twice input =
    ground (arith, trim-trim input.name, trim_or_null-trim_or_null input.description)

module _ (hash : CreateWorkflowRequest → Text) (to_date : ℕ → ℕ) (organization : ℕ)
    (key : Text) where
  opened :
      (now fresh user : ℕ) (input : CreateWorkflowRequest) (t : Tables WorkflowRow)
      → create_idempotent hash to_date now fresh organization user input key t
        ≡ create_keyed
            (columns to_date)
            (workflow_row now fresh organization user (normalized_create_payload input))
            key
            (request_hash hash input)
            t
  unfolding create_idempotent
  opened now fresh user input t =
      ap
        (λ n.
          create_keyed (columns to_date)
            (workflow_row now fresh organization user (normalized_create_payload input)) key
            (hash n) t)
        (normalized_twice input)

  -- A second request with the key and the payload of a successful one, on the tables that it left,
  -- gets its workflow again, marked as a replay, and changes nothing.
  pub create_idempotent-replay :
      (now fresh user : ℕ) (input : CreateWorkflowRequest) (t t' : Tables WorkflowRow)
      (r : Created Workflow) (now' fresh' user' : ℕ)
      → create_idempotent hash to_date now fresh organization user input key t ≡ ok (r, t')
      → create_idempotent hash to_date now' fresh' organization user' input key t'
        ≡ ok (record { item = r.item; replayed = true }, t')
  create_idempotent-replay now fresh user input t t' r now' fresh' user' h =
      opened now' fresh' user' input t'
      ∙ create_keyed-again (columns to_date) organization key _ _ (request_hash hash input)
          (request_hash hash input) t t' r refl refl (sym (opened now fresh user input t) ∙ h)
      ∙ ground (arith, text_eq_refl (request_hash hash input))

  -- A second request with the key of a successful one and a payload of another hash, on the tables
  -- that it left, is refused.
  pub create_idempotent-reuse :
      (now fresh user : ℕ) (input : CreateWorkflowRequest) (t t' : Tables WorkflowRow)
      (r : Created Workflow) (now' fresh' user' : ℕ) (other : CreateWorkflowRequest)
      → create_idempotent hash to_date now fresh organization user input key t ≡ ok (r, t')
      → request_hash hash input ≢ request_hash hash other
      → create_idempotent hash to_date now' fresh' organization user' other key t'
        ≡ throws idempotency_key_reused
  create_idempotent-reuse now fresh user input t t' r now' fresh' user' other h differs =
      opened now' fresh' user' other t'
      ∙ create_keyed-again (columns to_date) organization key _ _ (request_hash hash input)
          (request_hash hash other) t t' r refl refl (sym (opened now fresh user input t) ∙ h)
      ∙ ground (arith, text_eq_iff (request_hash hash input) (request_hash hash other))
