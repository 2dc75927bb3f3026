-- ===== src/Extractions/Review.antt =====
-- What the review of an extraction answers and stores.
use virexa_backend.Base.{
  ℕ, ◌*◌, ◌%◌, ◌≡◌, refl, ap, ◌∙◌, Bool, true, false, ◌&&◌, not, Option, none, some, List, [], ◌∷◌,
  map, arith, ◌==◌, first, All, Option-cases, Bool-cases, inl, inr, if◌then◌else◌, Outcome, ok,
  throws,
}
use virexa_backend.Base.Text.{Text, text_eq, text_eq_iff}
use virexa_backend.Base.Sql.{
  select, returning, keep, first-returning, first-select-update, first-select-holds, IsKeyed,
}
use virexa_backend.Base.Sql.Rows.{select-imp}
use virexa_backend.Base.Sql.Keys.{first-select-and}
use virexa_backend.Platform.{Platform, Laws}
use virexa_backend.Extractions.{
  ExtractionField, ReviewField, ExtractionRow, DocumentExtraction, ExtractionTarget,
  ExtractionError, extraction_not_found, review_field_not_found, review_conflict, map_extraction,
  has_id, set_value, left_join, patched_fields, covers, review_test, reviewed, review_error,
  aggregated, review,
}
use virexa_backend.Extractions.Completion.{own_token}
use mathlib.Core.Option

-- the schema of a review: no two entries name one key
abbrev pub IsDistinct : List ReviewField → Type 0
IsDistinct [] = Unit
IsDistinct (q ∷ qs) = All (λ r. text_eq r.key q.key ≡ false) qs × IsDistinct qs

-- a field with the value that the review gives for its key
unfoldable pub correct : List ReviewField → ExtractionField → ExtractionField
correct patches f = elim (first (select (λ q. text_eq q.key f.key) patches)) [
  | none ↦ f
  | some q ↦ set_value f q
]

select-absent :
    (k : Text) (q : ReviewField) (patches : List ReviewField)
    → q.key ≡ k
    → All (λ r. text_eq r.key q.key ≡ false) patches
    → select (λ r. text_eq r.key k) patches ≡ []
unfolding select
select-absent k q [] named h = refl
select-absent k q (r ∷ patches) named h =
    ground (arith, named, h.0, select-absent k q patches named h.1)

-- a field is joined with its correction alone
left_join-correct :
    (f : ExtractionField) (patches : List ReviewField)
    → IsDistinct patches
    → left_join f (select (λ q. text_eq q.key f.key) patches) ≡ correct patches f ∷ []
unfolding left_join select correct
left_join-correct f [] h = refl
left_join-correct f (q ∷ qs) (apart, h) = elim (Bool-cases (text_eq q.key f.key)) [
  | inl here ↦
      let none_later = select-absent f.key q qs ((text_eq_iff q.key f.key).0 here) apart in
      ground (arith, here, none_later)
  | inr other ↦ ground (arith, other, left_join-correct f qs h)
]

-- The join of fields and review is, for distinct keys, a correction of each field in its place.
pub patched_fields-correct :
    (patches : List ReviewField) (fields : List ExtractionField)
    → IsDistinct patches
    → patched_fields patches fields ≡ map (correct patches) fields
unfolding patched_fields
patched_fields-correct patches [] h = refl
patched_fields-correct patches (f ∷ fs) h =
    rw (left_join-correct f patches h, patched_fields-correct patches fs h) refl

-- the row with its fields corrected
abbrev pub corrected : ℕ → List ReviewField → ExtractionRow → ExtractionRow
corrected now patches e = record e { fields = map (correct patches) e.fields; updated_at = now }

pub reviewed-corrected :
    (now : ℕ) (patches : List ReviewField) (e : ExtractionRow)
    → IsDistinct patches
    → reviewed now patches e ≡ corrected now patches e
reviewed-corrected now patches e distinct =
    ap (λ l. record e { fields = l; updated_at = now })
      (patched_fields-correct patches e.fields distinct)

-- the answer, from the row that the identifiers name
unfoldable pub review_answer :
    (ℕ → ℕ)
    → ℕ
    → ℕ
    → List ReviewField
    → Option ExtractionRow
    → Outcome ExtractionError DocumentExtraction
review_answer to_date now token patches none = throws extraction_not_found
review_answer to_date now token patches (some e) =
    if not (covers e.fields patches)
    then throws review_field_not_found
    else if e.updated_at == token
    then ok (map_extraction to_date (corrected now patches e))
    else throws review_conflict

aggregated-corrected :
    (to_date : ℕ → ℕ) (now : ℕ) (q : ReviewField) (qs : List ReviewField) (e : ExtractionRow)
    (fields : List ExtractionField)
    → covers fields (q ∷ qs) ≡ true
    → aggregated to_date e (map (correct (q ∷ qs)) fields) ≡ ok (map_extraction to_date e)
unfolding covers aggregated
aggregated-corrected to_date now q qs e [] h = absurd (ground arith)
aggregated-corrected to_date now q qs e (f ∷ fs) h = refl

module _ (p : Platform) (now token : ℕ) (at : ExtractionTarget) (q : ReviewField)
    (qs : List ReviewField) (rows : List ExtractionRow)
    (cast : p.timestamptz at.expected_updated_at ≡ some token) (keyed : IsKeyed (λ e. e.id) rows)
    (distinct : IsDistinct (q ∷ qs)) where
  abbrev other_tests : ExtractionRow → Bool
  other_tests e = e.updated_at == token && covers e.fields (q ∷ qs)

  told :
      first (returning (review_test at token (q ∷ qs)) (reviewed now (q ∷ qs)) rows)
      ≡ Option.map (corrected now (q ∷ qs)) (keep other_tests (first (select (has_id at) rows)))
  told =
      first-returning (review_test at token (q ∷ qs)) (reviewed now (q ∷ qs)) rows
      ∙ ap (Option.map (reviewed now (q ∷ qs))) (
          ap first (select-imp _ _ rows (λ e. ground arith))
          ∙ first-select-and (λ e. e.id) at.extraction_id (has_id at) other_tests rows keyed
              (λ e h. ground arith))
      ∙ elim (Option-cases (keep other_tests (first (select (has_id at) rows)))) [
        | inl missing ↦ rw missing refl
        | inr (e, found) ↦ rw (found) (ap some (reviewed-corrected now (q ∷ qs) e distinct))
      ]

  pub review_lem :
      ((review p now at (q ∷ qs) rows rows).0
        ≡ review_answer p.to_date now token (q ∷ qs) (first (select (has_id at) rows)))
      × (first (select (has_id at) (review p now at (q ∷ qs) rows rows).1)
          ≡ Option.map
              (λ e. if other_tests e then corrected now (q ∷ qs) e else e)
              (first (select (has_id at) rows)))
  review_lem = (answered, stored)
    where
      full :
          (e : ExtractionRow)
          → other_tests e ≡ true
          → aggregated p.to_date (corrected now (q ∷ qs) e) (map (correct (q ∷ qs)) e.fields)
            ≡ ok (map_extraction p.to_date (corrected now (q ∷ qs) e))
      full e h =
          aggregated-corrected p.to_date now q qs (corrected now (q ∷ qs) e) e.fields (ground arith)

      answered :
          (review p now at (q ∷ qs) rows rows).0
          ≡ review_answer p.to_date now token (q ∷ qs) (first (select (has_id at) rows))
      answered = elim (Option-cases (first (select (has_id at) rows))) [
        | inl missing ↦
            unfold review review_answer review_error in ground (arith, cast, told, missing)
        | inr (e, found) ↦ elim (Bool-cases (other_tests e)) [
          | inl passes ↦
              unfold review review_answer in
              ground (arith, cast, told, found, passes, full e passes)
          | inr fails ↦
              unfold review review_answer review_error in ground (arith, cast, told, found, fails)
        ]
      ]

      stored :
          first (select (has_id at) (review p now at (q ∷ qs) rows rows).1)
          ≡ Option.map
              (λ e. if other_tests e then corrected now (q ∷ qs) e else e)
              (first (select (has_id at) rows))
      stored =
          let seen =
            first-select-update (has_id at) (review_test at token (q ∷ qs)) (reviewed now (q ∷ qs))
              rows (λ e. refl) in
          elim (Option-cases (first (select (has_id at) rows))) [
            | inl missing ↦ unfold review in ground (arith, cast, told, missing, seen)
            | inr (e, found) ↦
                let holds = first-select-holds (has_id at) rows e found in
                let same = reviewed-corrected now (q ∷ qs) e distinct in
                elim (Bool-cases (other_tests e)) [
                  | inl passes ↦
                      unfold review in
                      ground (arith, cast, told, found, seen, holds, passes, same, full e passes)
                  | inr fails ↦
                      unfold review in ground (arith, cast, told, found, seen, holds, fails)
                ]
          ]

-- A review of known and distinct keys with the update date that the API last returned for the extraction succeeds only if
-- that date is a whole millisecond in the database: if not it is refused as a conflict, though
-- nothing changed the extraction.
pub review-own_token :
    (p : Platform) (now : ℕ) (at : ExtractionTarget) (q : ReviewField) (qs : List ReviewField)
    (rows : List ExtractionRow) (e : ExtractionRow)
    → Laws p
    → IsKeyed (λ r. r.id) rows
    → IsDistinct (q ∷ qs)
    → first (select (has_id at) rows) ≡ some e
    → covers e.fields (q ∷ qs) ≡ true
    → at.expected_updated_at ≡ p.iso (p.to_date e.updated_at)
    → (review p now at (q ∷ qs) rows rows).0 ≡ (
        if e.updated_at % 1000 == 0
        then ok (map_extraction p.to_date (corrected now (q ∷ qs) e))
        else throws review_conflict)
unfolding review_answer
review-own_token p now at q qs rows e laws keyed distinct found known last =
    let (cast, exact) = own_token p e.updated_at laws in
    (review_lem p now (1000 * p.to_date e.updated_at) at q qs rows (ap p.timestamptz last ∙ cast)
      keyed distinct).0
    ∙ ground (arith, found, known, exact)
