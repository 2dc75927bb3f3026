-- ===== src/Extractions/Tests.antt =====
-- The theorems on extractions at concrete tables.
use virexa_backend.Base.{
  ℕ, none, map, length, ◌%◌, ◌≡◌, refl, ◌&&◌, Bool, true, some, List, [], ◌∷◌, arith, ok, throws,
  ◌==◌, first, if◌then◌else◌,
}
use virexa_backend.Base.Text.{Text, codes, text_eq}
use virexa_backend.Base.Sql.{select, update, returning}
use virexa_backend.Platform.Concrete.{platform, platform-Laws}
use virexa_backend.Extractions.{
  review_required, ExtractionField, ReviewField, ExtractionRow, CreateExtractionInput,
  ExtractionTarget, review_conflict, completion_conflict, text, map_extraction, extraction_row,
  find_by_idempotency, create_or_replay, has_id, patched_fields, covers, to_completed, review,
  complete,
}
use virexa_backend.Extractions.Creation.{create_or_replay-retry}
use virexa_backend.Extractions.Completion.{completion_answer, complete-own_token}
use virexa_backend.Extractions.Review.{
  correct, corrected, review_answer, review-own_token, patched_fields-correct,
}
use virexa_backend.Base.{◌<◌, All}
use virexa_backend.Paging.{before, order_desc, insert_desc}
use virexa_backend.Paging.Walk.{follow}
use virexa_backend.Auth.{
  includes, role_permissions, require_authenticated, require_permission, is_safe_method,
  assert_trusted_origin,
}
use virexa_backend.Http.{Reply, World, writer, reader, answer, mutate}
use virexa_backend.Http.Concrete.{posted, context}
use virexa_backend.Extractions.{DocumentExtraction}
use virexa_backend.Extractions.Listing.{
  IsReadable, list_extractions, list_extractions-follow, listing,
}
use virexa_backend.Extractions.Routes.{
  extraction_event, write_checks, post_extraction, patch_review, post_complete,
}
use virexa_backend.Extractions.Routes.Isolation.{of_organization, extraction_handlers-isolated}
use mathlib.Core.Option

computed : Unit {0}
unfolding select update returning text_eq find_by_idempotency create_or_replay patched_fields covers
    review complete correct completion_answer review_answer includes role_permissions
    require_authenticated require_permission is_safe_method assert_trusted_origin writer reader
    answer mutate write_checks post_extraction patch_review post_complete before order_desc
    insert_desc extraction_event
computed = tt

abbrev input : CreateExtractionInput
input = record {
  organization_id = 4;
  document_id = 6;
  schema_version = codes "1";
  idempotency_key = codes "key-1";
}

exists : ℕ → ℕ → Bool
exists organization document = organization == 4 && document == 6

create_or_replay_test : create_or_replay platform.to_date 5000 7 exists input [] [] ≡ (
  ok (map_extraction platform.to_date (extraction_row 5000 7 input)),
  extraction_row 5000 7 input ∷ [],
)
unfolding computed exists
create_or_replay_test = refl

create_or_replay-retry_example :
    create_or_replay platform.to_date 9000 8 exists
      (record input { schema_version = codes "2" })
      (extraction_row 5000 7 input ∷ [])
      (extraction_row 5000 7 input ∷ [])
    ≡ (
      ok (map_extraction platform.to_date (extraction_row 5000 7 input)),
      extraction_row 5000 7 input ∷ [],
    )
create_or_replay-retry_example =
    create_or_replay-retry platform.to_date exists input 5000 7 9000 8 (codes "2") []
      (extraction_row 5000 7 input ∷ [])
      (map_extraction platform.to_date (extraction_row 5000 7 input)) create_or_replay_test

abbrev field : Text → ExtractionField
field key = record {
  key = key;
  value = text (codes "?");
  confidence = codes "0.5";
  source_page = some 1;
  requires_review = true;
}

abbrev correction : ReviewField
correction = record { key = codes "total"; value = text (codes "12") }

-- an extraction under review, last updated at this microsecond
abbrev open_row : ℕ → ExtractionRow
open_row updated_at = record (extraction_row 5000 7 input) {
  status = review_required;
  fields = field (codes "date") ∷ field (codes "total") ∷ [];
  updated_at = updated_at;
}

-- its token, in milliseconds
abbrev target : ℕ → ExtractionTarget
target m = record {
  organization_id = 4;
  document_id = 6;
  extraction_id = 7;
  expected_updated_at = m ∷ [];
}

abbrev other_row : ExtractionRow
other_row = record (open_row 6000) { id = 8; idempotency_key = codes "key-2" }

abbrev rows : List ExtractionRow
rows = other_row ∷ open_row 6000 ∷ []

review_test : review platform 9000 (target 6) (correction ∷ []) rows rows ≡ (
  ok (map_extraction platform.to_date (corrected 9000 (correction ∷ []) (open_row 6000))),
  other_row ∷ corrected 9000 (correction ∷ []) (open_row 6000) ∷ [],
)
unfolding computed
review_test = refl

read : first (select (has_id (target 6)) (open_row 6500 ∷ [])) ≡ some (open_row 6500)
unfolding computed
read = refl

known : covers (open_row 6500).fields (correction ∷ []) ≡ true
unfolding computed
known = refl

review-own_token_example :
    (review platform 9000 (target 6) (correction ∷ []) (open_row 6500 ∷ []) (open_row 6500 ∷ [])).0
    ≡ (if 6500 % 1000 == 0
        then ok (map_extraction platform.to_date (corrected 9000 (correction ∷ []) (open_row 6500)))
        else throws review_conflict)
review-own_token_example =
    review-own_token platform 9000 (target 6) correction [] (open_row 6500 ∷ []) (open_row 6500)
      platform-Laws (ground arith) (tt, tt) read known refl

patched_fields-correct_applied :
    patched_fields (correction ∷ []) (open_row 6000).fields
    ≡ correct (correction ∷ []) (field (codes "date"))
      ∷ correct (correction ∷ []) (field (codes "total"))
      ∷ []
patched_fields-correct_applied =
    patched_fields-correct (correction ∷ []) (open_row 6000).fields (tt, tt)

complete_test : complete platform 9000 (target 6) rows rows ≡ (
  ok (map_extraction platform.to_date (to_completed 9000 (open_row 6000))),
  other_row ∷ to_completed 9000 (open_row 6000) ∷ [],
)
unfolding computed
complete_test = refl

complete-own_token_applied :
    (complete platform 9000 (target 6) (open_row 6500 ∷ []) (open_row 6500 ∷ [])).0 ≡ (
      if 6500 % 1000 == 0
      then ok (map_extraction platform.to_date (to_completed 9000 (open_row 6500)))
      else throws completion_conflict)
complete-own_token_applied =
    complete-own_token platform 9000 (target 6) (open_row 6500 ∷ []) (open_row 6500) platform-Laws
      (ground arith) read refl refl

-- the extraction of another organization
abbrev foreign_row : ExtractionRow
foreign_row = record (open_row 6000) { id = 9; organization_id = 5 }

abbrev world : World (List ExtractionRow)
world = record { tables = foreign_row ∷ rows; audit = [] }

abbrev completed_extraction : DocumentExtraction
completed_extraction = map_extraction platform.to_date (to_completed 9000 (open_row 6000))

abbrev completed_world : World (List ExtractionRow)
completed_world = record {
  tables = foreign_row ∷ other_row ∷ to_completed 9000 (open_row 6000) ∷ [];
  audit =
      extraction_event platform posted context (codes "document.extraction_completed")
        completed_extraction []
      ∷ [];
}

abbrev completed_reply : Reply DocumentExtraction
completed_reply = record { status = 200; body = completed_extraction }

authenticated : require_authenticated posted.get_session posted.request ≡ ok context
unfolding computed
authenticated = refl

extraction_handlers-isolated_example :
    (of_organization 5
        (post_extraction platform posted 9000 8 exists
          (some 6)
          (some (codes "1"))
          (some (codes "key-3"))
          world.tables
          world).1.tables
      ≡ of_organization 5 world.tables)
    × (of_organization 5
          (patch_review platform posted 9000
            (some 6)
            (some 7)
            (some (record { expected_updated_at = 6 ∷ []; fields = correction ∷ [] }))
            world.tables
            world).1.tables
        ≡ of_organization 5 world.tables)
    × (of_organization 5
          (post_complete platform posted 9000
            (some 6)
            (some 7)
            (some (6 ∷ []))
            world.tables
            world).1.tables
        ≡ of_organization 5 world.tables)
extraction_handlers-isolated_example =
    extraction_handlers-isolated platform posted 5 9000 8 exists (some 6) (some 7)
      (some (codes "1")) (some (codes "key-3")) (some (6 ∷ []))
      (some (record { expected_updated_at = 6 ∷ []; fields = correction ∷ [] })) world.tables world
      context authenticated (ground arith)

rows-IsReadable : All (IsReadable platform) rows
rows-IsReadable = ((5, refl), ((5, refl), tt))

list_extractions-follow_example :
    follow
      (λ cursor.
        list_extractions platform
          (record {
            organization_id = 4;
            document_id = 6;
            limit = 1;
            status = none;
            cursor = cursor;
          })
          rows)
      3
      none
    ≡ some (map (map_extraction platform.to_date) (listing platform 4 6 0 none rows))
list_extractions-follow_example =
    list_extractions-follow platform 4 6 0 none rows 3 platform-Laws rows-IsReadable (ground arith)
      small
  where
    small : length (listing platform 4 6 0 none rows) < 3
    small = unfold computed in omega arith
