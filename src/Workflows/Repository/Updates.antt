-- ===== src/Workflows/Repository/Updates.antt =====
-- Optimistic concurrency of `update`: the version is the token, and a stale token changes nothing.
use virexa_backend.Base.{
  ℕ, ◌+◌, ◌≡◌, refl, sym, subst, ◌≢◌, ap, ◌∙◌, true, Option, none, some, List, first, Bool-cases,
  inl, inr, ◌⊎◌,
}
use virexa_backend.Base.Sql.{select, IsKeyed}
use virexa_backend.Keyed.{has_id}
use virexa_backend.Keyed.Version.{
  Assigns, update_one, update_one_lem, update_one_stale, update_one_other,
}
use virexa_backend.Workflows.{WorkflowStatus, Workflow, UpdateWorkflowRequest}
use virexa_backend.Workflows.Repository.{
  WorkflowRow, columns, map_workflow, has_fields, assign, status_is, is_expected, get_by_id,
  update_workflow,
}
use mathlib.Core.Option
use virexa_backend.Base.Text.{trim}
use virexa_backend.Workflows.Repository.Fields.{
  given_or, nullable_text, plain_field, text_field, nullable_field,
}

assign-Assigns :
    (to_date : ℕ → ℕ) (now : ℕ) (input : UpdateWorkflowRequest)
    → Assigns (columns to_date) (λ w. w.version) (assign now input)
unfolding assign
assign-Assigns to_date now input = record {
  same_id = λ w. refl;
  same_organization = λ w. refl;
  next_version = λ w. refl;
}

module _ (to_date : ℕ → ℕ) (organization id : ℕ) (rows : List WorkflowRow) where
  -- the row that an update changed, as it was
  pub record Updates (now : ℕ) (input : UpdateWorkflowRequest) (expected : Option WorkflowStatus)
      (w : Workflow) (after : List WorkflowRow) : Type 0 where
    pub row : WorkflowRow
    pub read : first (select (has_id (columns to_date) organization id) rows) ≡ some row
    pub version_matches : row.version ≡ input.expected_version
    pub status_matches : status_is expected row ≡ true
    pub result : w ≡ map_workflow to_date (assign now input row)
    pub name : w.name ≡ given_or trim input.name row.name
    pub description : w.description ≡ given_or nullable_text input.description row.description
    pub status : w.status ≡ given_or (λ s. s) input.status row.status
    pub updated : w.updated_at ≡ to_date now
    pub version_grows : w.version ≡ row.version + 1
    pub stored : get_by_id to_date organization id after ≡ some w

  module _ (now : ℕ) (input : UpdateWorkflowRequest) (expected : Option WorkflowStatus)
      (keyed : IsKeyed (λ w. w.id) rows) (changes : has_fields input ≡ true) where
    -- On a table with distinct identifiers, an update that gives a field either finds the row at
    -- the expected version (and status), stores each given field as the update gives it (texts
    -- trimmed, an empty description as null) with the other fields as they were, under the next
    -- version and a new update date, and returns what is stored; or it changes nothing.
    pub update_workflow_lem :
        ((w : Workflow) × (after : List WorkflowRow) × (update_workflow to_date now organization id
              input expected rows
            ≡ (some w, after))
          × Updates now input expected w after)
        ⊎ (update_workflow to_date now organization id input expected rows ≡ (none, rows))
    unfolding update_workflow
    update_workflow_lem =
        elim (update_one_lem (columns to_date) (λ w. w.version) organization id
          input.expected_version (status_is expected) (assign now input) rows
          (assign-Assigns to_date now input) keyed) [
            | inr refused ↦ inr (rw (changes) refused)
            | inl (w, after, e, u) ↦ inl (
              w,
              after,
              rw (changes) e,
              record {
                row = u.row;
                read = u.read;
                version_matches = u.version_matches;
                status_matches = u.also_holds;
                result = u.result;
                name = rw (u.result) (unfold assign in text_field input.name u.row.name);
                description =
                    rw (u.result)
                      (unfold assign in nullable_field input.description u.row.description);
                status = rw (u.result) (unfold assign in plain_field input.status u.row.status);
                updated = rw (u.result) (unfold assign in refl);
                version_grows = rw (u.result) (unfold assign in refl);
                stored =
                    unfold get_by_id in
                    ap (Option.map (map_workflow to_date)) u.stored ∙ ap some (sym u.result);
              },
            )
          ]

opened :
    (to_date : ℕ → ℕ) (organization id : ℕ) (rows : List WorkflowRow) (now : ℕ)
    (input : UpdateWorkflowRequest) (expected : Option WorkflowStatus)
    → has_fields input ≡ true
    → update_workflow to_date now organization id input expected rows
      ≡ update_one
          (columns to_date)
          (is_expected organization id input.expected_version expected)
          (assign now input)
          rows
unfolding update_workflow
opened to_date organization id rows now input expected changes = rw (changes) refl

-- No update is lost: on a table with distinct identifiers, of two updates that give a field, with
-- one expected version, the second changes nothing, once the first has succeeded.
pub update_workflow_stale :
    (to_date : ℕ → ℕ) (organization id : ℕ) (rows after : List WorkflowRow) (now later : ℕ)
    (a b : UpdateWorkflowRequest) (expected expected' : Option WorkflowStatus) (w : Workflow)
    → IsKeyed (λ w. w.id) rows
    → has_fields a ≡ true
    → has_fields b ≡ true
    → a.expected_version ≡ b.expected_version
    → update_workflow to_date now organization id a expected rows ≡ (some w, after)
    → update_workflow to_date later organization id b expected' after ≡ (none, after)
update_workflow_stale to_date organization id rows after now later a b expected expected' w keyed ca
      cb same h =
    opened to_date organization id after later b expected' cb
    ∙ subst
        (λ v.
          update_one (columns to_date) (is_expected organization id v expected') (assign later b)
            after
          ≡ (none, after))
        same
        (update_one_stale (columns to_date) (λ w. w.version) organization id a.expected_version
          (status_is expected) (status_is expected') (assign now a) (assign later b) rows after w
          (assign-Assigns to_date now a) (assign-Assigns to_date later b) keyed
          (sym (opened to_date organization id rows now a expected ca) ∙ h))

-- An update leaves the workflows of other identifiers as they were.
pub get_by_id-update_workflow_other :
    (to_date : ℕ → ℕ) (organization id : ℕ) (rows : List WorkflowRow) (now : ℕ)
    (input : UpdateWorkflowRequest) (expected : Option WorkflowStatus) (organization' id' : ℕ)
    → id' ≢ id
    → get_by_id to_date organization' id'
        (update_workflow to_date now organization id input expected rows).1
      ≡ get_by_id to_date organization' id' rows
unfolding get_by_id update_workflow
get_by_id-update_workflow_other to_date organization id rows now input expected organization' id'
      d =
    elim (Bool-cases (has_fields input)) [
      | inr idle ↦ rw (idle) refl
      | inl changes ↦ rw (changes) (
          ap (Option.map (map_workflow to_date)) (
            update_one_other (columns to_date) (λ w. w.version) organization id
              input.expected_version (status_is expected) (assign now input) rows organization' id'
              (assign-Assigns to_date now input) d))
    ]
