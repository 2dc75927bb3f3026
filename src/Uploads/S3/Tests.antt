-- ===== src/Uploads/S3/Tests.antt =====
-- The theorems on the S3 storage and its configuration at concrete values.
use virexa_backend.Base.{ℕ, ◌≡◌, refl, none, some, [], ◌∷◌, ok, throws, ◌&&◌, if◌then◌else◌}
use virexa_backend.Base.Text.{Text, codes, text_eq, trim}
use virexa_backend.Base.Sql.{select, update, returning}
use virexa_backend.Uploads.{
  Descriptor, Web, is_sha256, decimal, header, assert_upload_descriptor, create_document_object_key,
  assert_upload_target, assert_stored_object,
}
use virexa_backend.Uploads.Attempts.{
  create_or_get, get_by_id, get_by_idempotency_key, complete, fail,
}
use virexa_backend.Uploads.Service.{
  create_target, initiation_checks, initiate_persisted, verify_completion, complete_persisted,
}
use virexa_backend.Base.{◌<◌, ◌≤◌, ◌*◌, ◌+◌, ltb, leb, ◌&&◌, if◌then◌else◌}
use virexa_backend.Uploads.{decimal, target_expiry_invalid}
use virexa_backend.Uploads.Service.{create_target}
use virexa_backend.Uploads.S3.{
  natural, S3DocumentStorageConfig, HeadObject, Sdk, check_ttl, seconds, check_endpoint, construct,
  required_headers, s3_storage,
}
use virexa_backend.Uploads.S3.Config.{
  Environment, optional_trimmed, parse_upload_ttl, parse_boolean, configured, with_names,
  document_storage_config_from_env, document_storage_config_from_env-construct,
}
use virexa_backend.Uploads.S3.Laws.{Reliable, create_target-s3, verify_completion-s3}

computed : Unit {0}
unfolding select update returning text_eq trim is_sha256 decimal header assert_upload_descriptor
    create_document_object_key assert_upload_target assert_stored_object create_or_get get_by_id
    get_by_idempotency_key complete fail create_target initiate_persisted verify_completion
    complete_persisted initiation_checks
computed = tt

abbrev checksum : Text
checksum = codes "0123456789abcdef0123456789abcdef0123456789abcdef0123456789abcdef"

abbrev descriptor : Descriptor
descriptor = record {
  organization_id = 4;
  document_id = 6;
  original_file_name = codes "invoice.pdf";
  media_type = codes "application/pdf";
  size_bytes = 12;
  checksum = checksum;
}

abbrev web : Web
web = record {
  url_protocol = λ s. some (codes "https:");
  date_parse = λ s. some 1000;
  to_lower_case = λ s. s;
  organization_digest = λ o. o ∷ [];
  uuid_text = λ i. i ∷ [];
}

-- the date is its number of milliseconds
abbrev clocked_web : Web
clocked_web = record web { date_parse = λ s. elim s [ [] ↦ none | c ∷ _ ↦ some c ] }

abbrev head : HeadObject
head = record {
  content_type = some (codes "application/pdf");
  content_length = some 12;
  checksum = some checksum;
}

-- the state is the clock
abbrev sdk : Sdk ℕ
sdk = record {
  get_signed_url = λ s command ttl. ok (codes "https://objects.example.com/put");
  head_object = λ s bucket key. ok head;
  delete_object = λ s bucket key. ok s;
  clock = λ s. s;
  iso = λ ms. ms ∷ [];
}

sdk-Reliable : Reliable clocked_web sdk
sdk-Reliable = record {
  signed = λ s command ttl url h. refl;
  parsed = λ ms. refl;
  content_type = refl;
  content_length = refl;
  checksum = refl;
  metadata = refl;
}

-- the clock went on by 5 ms since the request began: too late for the longest lifetime
create_target-s3_example :
    create_target clocked_web
      (s3_storage sdk (codes "documents") 900)
      1005
      descriptor
      (codes "documents/a")
      1000
    ≡ (if ltb 1000 (1005 + 900 * 1000) && leb (1005 + 900 * 1000) (1000 + 900000)
        then ok (record {
          object_key = codes "documents/a";
          upload_url = codes "https://objects.example.com/put";
          expires_at = (1005 + 900 * 1000) ∷ [];
          required_headers = required_headers descriptor;
        })
        else throws target_expiry_invalid)
create_target-s3_example =
    create_target-s3 clocked_web sdk (codes "documents") 900 1005 descriptor (codes "documents/a")
      (codes "https://objects.example.com/put") 1000 sdk-Reliable refl

described : assert_upload_descriptor descriptor ≡ ok tt
unfolding computed
described = refl

verify_completion-s3_example :
    verify_completion (s3_storage sdk (codes "documents") 900) 1005 descriptor (codes "documents/a")
    ≡ (
      ok (record {
        object_key = codes "documents/a";
        media_type = codes "application/pdf";
        size_bytes = 12;
        checksum = checksum;
      }),
      1005,
    )
verify_completion-s3_example =
    verify_completion-s3 clocked_web sdk (codes "documents") 900 1005 descriptor
      (codes "documents/a") described refl

abbrev env : Environment
env = record {
  bucket = some (codes "documents ");
  region = some (codes "eu-west-1");
  endpoint = none;
  ttl_seconds = some (codes "900");
  force_path_style = none;
}

abbrev config : S3DocumentStorageConfig
config = record {
  bucket = codes "documents";
  region = codes "eu-west-1";
  endpoint = none;
  force_path_style = none;
  upload_ttl_seconds = some (natural 900);
}

document_storage_config_from_env_test :
    document_storage_config_from_env (λ s. natural 900) (λ s. s) (λ s. none) env ≡ ok (some config)
unfolding computed check_ttl seconds check_endpoint construct optional_trimmed parse_upload_ttl
    parse_boolean configured with_names document_storage_config_from_env
document_storage_config_from_env_test = refl

document_storage_config_from_env-construct_example :
    (ttl : ℕ) × (construct (λ s. none) config ≡ ok ttl)
    × (config.upload_ttl_seconds ≡ some (natural ttl))
    × (0 < ttl)
    × (ttl ≤ 900)
document_storage_config_from_env-construct_example =
    document_storage_config_from_env-construct (λ s. natural 900) (λ s. s) (λ s. none) env config
      document_storage_config_from_env_test
