-- ===== src/Extractions/Completion.antt =====
-- What the completion of an extraction answers and stores.
use virexa_backend.Base.{
  ℕ, ◌*◌, ◌/◌, ◌%◌, ◌≡◌, refl, ap, ◌∙◌, Bool, ◌&&◌, not, Option, none, some, List, arith, ◌==◌,
  first, Option-cases, Bool-cases, inl, inr, if◌then◌else◌, Outcome, ok, throws,
}
use virexa_backend.Base.Sql.{
  select, returning, keep, first-returning, first-select-update, first-select-holds, IsKeyed,
}
use virexa_backend.Base.Sql.Rows.{select-imp}
use virexa_backend.Base.Sql.Keys.{first-select-and}
use virexa_backend.Platform.{Platform, Laws}
use virexa_backend.Extractions.{
  review_required, ExtractionRow, DocumentExtraction, ExtractionTarget, ExtractionError,
  extraction_not_found, completion_invalid_state, completion_conflict, map_extraction, has_id,
  is_review_required, completion_test, to_completed, completion_error, complete,
}
use mathlib.Core.Option

-- the answer, from the row that the identifiers name
unfoldable pub completion_answer :
    (ℕ → ℕ) → ℕ → ℕ → Option ExtractionRow → Outcome ExtractionError DocumentExtraction
completion_answer to_date now token none = throws extraction_not_found
completion_answer to_date now token (some e) =
    if not (is_review_required e.status)
    then throws completion_invalid_state
    else if e.updated_at == token
    then ok (map_extraction to_date (to_completed now e))
    else throws completion_conflict

module _ (p : Platform) (now token : ℕ) (at : ExtractionTarget) (rows : List ExtractionRow)
    (cast : p.timestamptz at.expected_updated_at ≡ some token)
    (keyed : IsKeyed (λ e. e.id) rows) where
  abbrev other_tests : ExtractionRow → Bool
  other_tests e = e.updated_at == token && is_review_required e.status

  completion_row :
      first (select (completion_test at token) rows)
      ≡ keep other_tests (first (select (has_id at) rows))
  completion_row =
      ap first (select-imp _ _ rows (λ e. ground arith))
      ∙ first-select-and (λ e. e.id) at.extraction_id (has_id at) other_tests rows keyed
          (λ e h. ground arith)

  pub complete_lem :
      ((complete p now at rows rows).0
        ≡ completion_answer p.to_date now token (first (select (has_id at) rows)))
      × (first (select (has_id at) (complete p now at rows rows).1)
          ≡ Option.map
              (λ e. if other_tests e then to_completed now e else e)
              (first (select (has_id at) rows)))
  complete_lem = (answered, stored)
    where
      told :
          first (returning (completion_test at token) (to_completed now) rows)
          ≡ Option.map (to_completed now) (keep other_tests (first (select (has_id at) rows)))
      told =
          first-returning (completion_test at token) (to_completed now) rows
          ∙ ap (Option.map (to_completed now)) completion_row

      answered :
          (complete p now at rows rows).0
          ≡ completion_answer p.to_date now token (first (select (has_id at) rows))
      answered = elim (Option-cases (first (select (has_id at) rows))) [
        | inl missing ↦
            unfold complete completion_answer completion_error in
            ground (arith, cast, told, missing)
        | inr (e, found) ↦
            unfold complete completion_answer completion_error in ground (arith, cast, told, found)
      ]

      stored :
          first (select (has_id at) (complete p now at rows rows).1)
          ≡ Option.map
              (λ e. if other_tests e then to_completed now e else e)
              (first (select (has_id at) rows))
      stored =
          let seen =
            first-select-update (has_id at) (completion_test at token) (to_completed now) rows
              (λ e. refl) in
          elim (Option-cases (first (select (has_id at) rows))) [
            | inl missing ↦ unfold complete in ground (arith, cast, told, missing, seen)
            | inr (e, found) ↦
                let holds = first-select-holds (has_id at) rows e found in
                elim (Bool-cases (other_tests e)) [
                  | inl passes ↦
                      unfold complete in ground (arith, cast, told, found, seen, holds, passes)
                  | inr fails ↦
                      unfold complete in ground (arith, cast, told, found, seen, holds, fails)
                ]
          ]

-- the text of a date as the API returns it, cast by a query
pub own_token :
    (p : Platform) (t : ℕ)
    → Laws p
    → (p.timestamptz (p.iso (p.to_date t)) ≡ some (1000 * p.to_date t))
      × ((t == 1000 * p.to_date t) ≡ (t % 1000 == 0))
own_token p t laws = (
  laws.cast_iso (p.to_date t),
  elim (Bool-cases (t % 1000 == 0)) [
    | inl whole ↦
        let m = t / 1000 in
        let exact : t ≡ 1000 * m = ground arith in
        let read : p.to_date t ≡ m = ap p.to_date exact ∙ laws.date_whole m in
        ground (arith, read, exact)
    | inr cut ↦ ground arith
  ],
)

-- A completion of an extraction under review with the update date that the API last returned for the extraction succeeds only
-- if that date is a whole millisecond in the database: if not it is refused as a conflict, though
-- nothing changed the extraction.
pub complete-own_token :
    (p : Platform) (now : ℕ) (at : ExtractionTarget) (rows : List ExtractionRow) (e : ExtractionRow)
    → Laws p
    → IsKeyed (λ r. r.id) rows
    → first (select (has_id at) rows) ≡ some e
    → e.status ≡ review_required
    → at.expected_updated_at ≡ p.iso (p.to_date e.updated_at)
    → (complete p now at rows rows).0 ≡ (
        if e.updated_at % 1000 == 0
        then ok (map_extraction p.to_date (to_completed now e))
        else throws completion_conflict)
unfolding completion_answer
complete-own_token p now at rows e laws keyed found open_row last =
    let (cast, exact) = own_token p e.updated_at laws in
    (complete_lem p now (1000 * p.to_date e.updated_at) at rows (ap p.timestamptz last ∙ cast)
      keyed).0
    ∙ ground (arith, found, open_row, exact)
