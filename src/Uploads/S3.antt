-- ===== src/Uploads/S3.antt =====
-- S3DocumentObjectStorage of src/documents/s3-storage.ts and its configuration,
-- src/documents/storage-config.ts. The AWS SDK and the clock are parameters, over the provider's
-- state.
pub mod Config
pub mod Laws
mod Tests
use virexa_backend.Base.{
  if◌then◌else◌, ℕ, ◌+◌, ◌*◌, Bool, true, false, ◌&&◌, ◌||◌, not, Option, none, some, List, [], ◌∷◌,
  Outcome, ok, throws, ◌>>=◌, ◌>>◌, require, ltb, leb, ◌==◌, is_some,
}
use virexa_backend.Base.Text.{Text, codes, text_eq, trim, is_empty, present}
use virexa_backend.Uploads.{
  Descriptor, Target, StoredObject, UploadError, provider_fault, Storage, decimal,
}

-- a JavaScript number: a natural number, or any other
pub data Number : Type 0 where
  natural : ℕ → Number
  other : Number

pub record S3DocumentStorageConfig : Type 0 where
  pub bucket : Text
  pub region : Text
  pub endpoint : Option Text
  pub force_path_style : Option Bool
  pub upload_ttl_seconds : Option Number

pub data ConfigError : Type 0 where
  bucket_required region_required ttl_invalid not_https path_style_invalid : ConfigError
  -- `new URL` throws
  url_invalid : ConfigError

abbrev pub default_upload_ttl_seconds : ℕ
default_upload_ttl_seconds = 600

abbrev pub max_upload_ttl_seconds : ℕ
max_upload_ttl_seconds = 900

unfoldable pub check_ttl : Number → Outcome ConfigError ℕ
check_ttl other = throws ttl_invalid
check_ttl (natural n) = require (ltb 0 n && leb n max_upload_ttl_seconds) ttl_invalid >> ok n

unfoldable pub seconds : Option Number → Number
seconds none = natural default_upload_ttl_seconds
seconds (some n) = n

-- `new URL(endpoint).protocol` is https:, if there is an endpoint
unfoldable pub check_endpoint : (Text → Option Text) → Option Text → Outcome ConfigError (Unit {0})
check_endpoint url_protocol none = ok tt
check_endpoint url_protocol (some endpoint) = elim (url_protocol endpoint) [
  | none ↦ throws url_invalid
  | some protocol ↦ require (text_eq protocol (codes "https:")) not_https
]

-- the constructor: `this.uploadTtlSeconds`
unfoldable pub construct : (Text → Option Text) → S3DocumentStorageConfig → Outcome ConfigError ℕ
unfolding check_ttl seconds check_endpoint
construct url_protocol config = do
  require (not (is_empty (trim config.bucket))) bucket_required
  require (not (is_empty (trim config.region))) region_required
  ttl ← check_ttl (seconds config.upload_ttl_seconds)
  check_endpoint url_protocol (present config.endpoint)
  ok ttl

-- PutObjectCommand
pub record PutObject : Type 0 where
  pub bucket : Text
  pub key : Text
  pub content_type : Text
  pub content_length : ℕ
  -- Metadata['virexa-sha256']
  pub checksum : Text

-- the fields of a response to HeadObjectCommand that are read
pub record HeadObject : Type 0 where
  pub content_type : Option Text
  pub content_length : Option ℕ
  pub checksum : Option Text

-- what a rejected call throws: its `name` and its `$metadata.httpStatusCode`
pub record SdkError : Type 0 where
  pub name : Option Text
  pub http_status_code : Option ℕ

pub record Sdk (S : Type 0) : Type 0 where
  -- `getSignedUrl(client, command, { expiresIn })`
  pub get_signed_url : S → PutObject → ℕ → Outcome SdkError Text
  pub head_object : S → Text → Text → Outcome SdkError HeadObject
  pub delete_object : S → Text → Text → Outcome SdkError S
  -- `Date.now()` after the URL is signed
  pub clock : S → ℕ
  -- `new Date(ms).toISOString()`
  pub iso : ℕ → Text

name_is : Option Text → Text → Bool
name_is none t = false
name_is (some s) t = text_eq s t

status_is : Option ℕ → ℕ → Bool
status_is none n = false
status_is (some m) n = m == n

unfoldable pub is_not_found : SdkError → Bool
unfolding name_is status_is
is_not_found e =
    name_is e.name (codes "NotFound")
    || name_is e.name (codes "NoSuchKey")
    || status_is e.http_status_code 404

unfoldable pub with_fields : Text → Option Text → Option ℕ → Option Text → Option StoredObject
with_fields object_key (some media_type) (some size_bytes) (some checksum) = some (record {
  object_key = object_key;
  media_type = media_type;
  size_bytes = size_bytes;
  checksum = checksum;
})
with_fields object_key _ _ _ = none

-- what `inspectObject` returns for a response: null where a field is missing or its text empty
unfoldable pub stored_object : Text → HeadObject → Option StoredObject
unfolding with_fields
stored_object object_key r =
    with_fields object_key (present r.content_type) r.content_length (present r.checksum)

abbrev pub required_headers : Descriptor → List (Text × Text)
required_headers d =
    (codes "content-type", d.media_type)
    ∷ (codes "content-length", decimal d.size_bytes)
    ∷ (codes "x-virexa-sha256", d.checksum)
    ∷ (codes "x-amz-meta-virexa-sha256", d.checksum)
    ∷ []

module _ {S : Type 0} (sdk : Sdk S) (bucket : Text) (ttl : ℕ) where
  unfoldable pub create_upload_target : S → Descriptor → Text → Outcome UploadError Target
  create_upload_target s d object_key =
      let command : PutObject = record {
        bucket = bucket;
        key = object_key;
        content_type = d.media_type;
        content_length = d.size_bytes;
        checksum = d.checksum;
      } in
      elim (sdk.get_signed_url s command ttl) [
        | throws e ↦ throws provider_fault
        | ok url ↦ ok (record {
          object_key = object_key;
          upload_url = url;
          expires_at = sdk.iso (sdk.clock s + ttl * 1000);
          required_headers = required_headers d;
        })
      ]

  unfoldable pub inspect_object : S → Text → Outcome UploadError (Option StoredObject)
  unfolding stored_object is_not_found
  inspect_object s object_key = elim (sdk.head_object s bucket object_key) [
    | ok response ↦ ok (stored_object object_key response)
    | throws e ↦ if is_not_found e then ok none else throws provider_fault
  ]

  unfoldable pub delete_object : S → Text → Outcome UploadError S
  delete_object s object_key = elim (sdk.delete_object s bucket object_key) [
    | ok s' ↦ ok s'
    | throws e ↦ throws provider_fault
  ]

  -- DocumentObjectStorageLifecycle
  abbrev pub s3_storage : Storage S
  s3_storage = record {
    create_upload_target = create_upload_target;
    inspect_object = inspect_object;
    delete_object = delete_object;
  }
