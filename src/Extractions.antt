-- ===== src/Extractions.antt =====
-- DocumentExtractionRepository of src/extractions/repository.ts over the table of the migration for
-- document extractions, with the data of src/contracts/extractions.ts. A JSON number is its text.
-- A method with two statements takes the table at each of them.
pub mod Creation
pub mod Review
pub mod Listing
pub mod Completion
pub mod Routes
mod Tests
use virexa_backend.Base.{
  ℕ, Bool, true, false, ◌&&◌, ◌||◌, not, Option, none, some, List, [], ◌∷◌, ◌++◌, map, ◌==◌, any,
  first, if◌then◌else◌, Outcome, ok, throws,
}
use virexa_backend.Base.Text.{Text, text_eq}
use virexa_backend.Base.Sql.{select, update, returning}
use virexa_backend.Platform.{Platform}
use mathlib.Core.Option

pub data ExtractionStatus : Type 0 where
  queued processing review_required completed failed : ExtractionStatus

abbrev pub status_code : ExtractionStatus → ℕ
status_code queued = 0
status_code processing = 1
status_code review_required = 2
status_code completed = 3
status_code failed = 4

abbrev pub status_eq : ExtractionStatus → ExtractionStatus → Bool
status_eq s t = status_code s == status_code t

pub data FieldValue : Type 0 where
  text number : Text → FieldValue
  flag : Bool → FieldValue
  null : FieldValue

pub record ExtractionField : Type 0 where
  pub key : Text
  pub value : FieldValue
  pub confidence : Text
  pub source_page : Option ℕ
  pub requires_review : Bool

-- an entry of a review
pub record ReviewField : Type 0 where
  pub key : Text
  pub value : FieldValue

pub record ExtractionRow : Type 0 where
  pub id : ℕ
  pub organization_id : ℕ
  pub document_id : ℕ
  pub status : ExtractionStatus
  pub schema_version : Text
  pub fields : List ExtractionField
  pub failure_code : Option Text
  pub idempotency_key : Text
  pub created_at : ℕ
  pub updated_at : ℕ
  pub completed_at : Option ℕ

-- The API projection: a date is the number of milliseconds that its ISO text stands for.
pub record DocumentExtraction : Type 0 where
  pub id : ℕ
  pub document_id : ℕ
  pub status : ExtractionStatus
  pub schema_version : Text
  pub fields : List ExtractionField
  pub failure_code : Option Text
  pub created_at : ℕ
  pub updated_at : ℕ
  pub completed_at : Option ℕ

pub record CreateExtractionInput : Type 0 where
  pub organization_id : ℕ
  pub document_id : ℕ
  pub schema_version : Text
  pub idempotency_key : Text

-- the identifiers and the token of a review or a completion
pub record ExtractionTarget : Type 0 where
  pub organization_id : ℕ
  pub document_id : ℕ
  pub extraction_id : ℕ
  pub expected_updated_at : Text

pub data ExtractionError : Type 0 where
  document_not_found extraction_not_found : ExtractionError
  review_field_not_found review_conflict : ExtractionError
  completion_invalid_state completion_conflict : ExtractionError
  -- errors of the database: a cast, a violated unique constraint, and a null in `fields`
  cast_failed unique_violation null_violation : ExtractionError

abbrev pub map_extraction : (ℕ → ℕ) → ExtractionRow → DocumentExtraction
map_extraction to_date row = record {
  id = row.id;
  document_id = row.document_id;
  status = row.status;
  schema_version = row.schema_version;
  fields = row.fields;
  failure_code = row.failure_code;
  created_at = to_date row.created_at;
  updated_at = to_date row.updated_at;
  completed_at = Option.map to_date row.completed_at;
}

abbrev pub has_key : CreateExtractionInput → ExtractionRow → Bool
has_key input e =
    e.organization_id == input.organization_id
    && e.document_id == input.document_id
    && text_eq e.idempotency_key input.idempotency_key

-- the row of the INSERT, with the defaults of the table
abbrev pub extraction_row : ℕ → ℕ → CreateExtractionInput → ExtractionRow
extraction_row now fresh input = record {
  id = fresh;
  organization_id = input.organization_id;
  document_id = input.document_id;
  status = queued;
  schema_version = input.schema_version;
  fields = [];
  failure_code = none;
  idempotency_key = input.idempotency_key;
  created_at = now;
  updated_at = now;
  completed_at = none;
}

unfoldable pub find_by_idempotency :
    (ℕ → ℕ) → CreateExtractionInput → List ExtractionRow → Option DocumentExtraction
unfolding select
find_by_idempotency to_date input rows =
    Option.map (map_extraction to_date) (first (select (has_key input) rows))

-- PRIMARY KEY (id), and UNIQUE (organization_id, document_id, idempotency_key)
abbrev pub is_taken : ℕ → CreateExtractionInput → ExtractionRow → Bool
is_taken fresh input e = e.id == fresh || has_key input e

-- `exists` says whether the organization has the document; `rows` at the lookup and `rows'` at
-- the insertion
unfoldable pub create_or_replay :
    (ℕ → ℕ)
    → ℕ
    → ℕ
    → (ℕ → ℕ → Bool)
    → CreateExtractionInput
    → List ExtractionRow
    → List ExtractionRow
    → Outcome ExtractionError DocumentExtraction × List ExtractionRow
unfolding find_by_idempotency
create_or_replay to_date now fresh exists input rows rows' =
    elim (find_by_idempotency to_date input rows) [
      | some existing ↦ (ok existing, rows')
      | none ↦
          if not (exists input.organization_id input.document_id)
          then (throws document_not_found, rows')
          else if any (is_taken fresh input) rows'
          then (throws unique_violation, rows')
          else (
            ok (map_extraction to_date (extraction_row now fresh input)),
            extraction_row now fresh input ∷ rows',
          )
    ]

abbrev pub has_id : ExtractionTarget → ExtractionRow → Bool
has_id at e =
    e.organization_id == at.organization_id
    && e.document_id == at.document_id
    && e.id == at.extraction_id

-- jsonb_set(original.value, '{value}', patch.value->'value', true)
abbrev pub set_value : ExtractionField → ReviewField → ExtractionField
set_value f q = record f { value = q.value }

-- the rows of the LEFT JOIN for one field
left_join : ExtractionField → List ReviewField → List ExtractionField
left_join f [] = f ∷ []
left_join f (q ∷ qs) = map (set_value f) (q ∷ qs)

-- the rows of the join in the order of the fields
unfoldable pub patched_fields : List ReviewField → List ExtractionField → List ExtractionField
unfolding left_join select
patched_fields patches [] = []
patched_fields patches (f ∷ fs) =
    left_join f (select (λ q. text_eq q.key f.key) patches) ++ patched_fields patches fs

-- NOT EXISTS (a requested key that no field has)
unfoldable pub covers : List ExtractionField → List ReviewField → Bool
covers fields patches = not (any (λ q. not (any (λ f. text_eq f.key q.key) fields)) patches)

-- the WHERE clause of a review
abbrev pub review_test : ExtractionTarget → ℕ → List ReviewField → ExtractionRow → Bool
review_test at token patches e = has_id at e && e.updated_at == token && covers e.fields patches

abbrev pub reviewed : ℕ → List ReviewField → ExtractionRow → ExtractionRow
reviewed now patches e = record e { fields = patched_fields patches e.fields; updated_at = now }

-- what is told of a row that the UPDATE left alone
review_error : List ReviewField → Option ExtractionRow → ExtractionError
review_error patches none = extraction_not_found
review_error patches (some e) =
    if not (covers e.fields patches) then review_field_not_found else review_conflict

abbrev pub is_review_required : ExtractionStatus → Bool
is_review_required review_required = true
is_review_required _ = false

-- the WHERE clause of a completion
abbrev pub completion_test : ExtractionTarget → ℕ → ExtractionRow → Bool
completion_test at token e = has_id at e && e.updated_at == token && is_review_required e.status

abbrev pub to_completed : ℕ → ExtractionRow → ExtractionRow
to_completed now e = record e { status = completed; completed_at = some now; updated_at = now }

completion_error : Option ExtractionRow → ExtractionError
completion_error none = extraction_not_found
completion_error (some e) =
    if not (is_review_required e.status) then completion_invalid_state else completion_conflict

-- jsonb_agg of no rows is null
aggregated :
    (ℕ → ℕ) → ExtractionRow → List ExtractionField → Outcome ExtractionError DocumentExtraction
aggregated to_date e [] = throws null_violation
aggregated to_date e (f ∷ fs) = ok (map_extraction to_date e)

module _ (p : Platform) where
  unfoldable pub review :
      ℕ
      → ExtractionTarget
      → List ReviewField
      → List ExtractionRow
      → List ExtractionRow
      → Outcome ExtractionError DocumentExtraction × List ExtractionRow
  unfolding patched_fields covers review_error aggregated update returning select
  review now at patches rows rows₂ = elim (p.timestamptz at.expected_updated_at) [
    | none ↦ (throws cast_failed, rows)
    | some token ↦
        let test = review_test at token patches in
        elim (first (returning test (reviewed now patches) rows)) [
          | none ↦ (throws (review_error patches (first (select (has_id at) rows₂))), rows)
          | some e ↦ elim (aggregated p.to_date e e.fields) [
            | throws failure ↦ (throws failure, rows)
            | ok result ↦ (ok result, update test (reviewed now patches) rows)
          ]
        ]
  ]

  unfoldable pub complete :
      ℕ
      → ExtractionTarget
      → List ExtractionRow
      → List ExtractionRow
      → Outcome ExtractionError DocumentExtraction × List ExtractionRow
  unfolding completion_error update returning select
  complete now at rows rows₂ = elim (p.timestamptz at.expected_updated_at) [
    | none ↦ (throws cast_failed, rows)
    | some token ↦
        let test = completion_test at token in
        elim (first (returning test (to_completed now) rows)) [
          | none ↦ (throws (completion_error (first (select (has_id at) rows₂))), rows)
          | some e ↦ (ok (map_extraction p.to_date e), update test (to_completed now) rows)
        ]
  ]
