-- ===== src/Uploads.antt =====
-- Binary uploads: src/documents/storage.ts. The storage provider, `URL`, `Date.parse`,
-- `toLowerCase`, SHA-256 and random identifiers are parameters.
pub mod Attempts
pub mod Service
pub mod S3
mod Tests
use virexa_backend.Base.{
  ℕ, zero, suc, ◌+◌, ◌*◌, ◌/◌, ◌%◌, Bool, true, false, ◌&&◌, ◌||◌, not, Option, none, some, List,
  [], ◌∷◌, ◌++◌, ltb, leb, ◌==◌, take, length, any, if◌then◌else◌, Outcome, ok, throws, ◌>>=◌, ◌>>◌,
  require,
}
use virexa_backend.Base.Text.{Text, codes, text_eq, trim, is_empty}

pub record Descriptor : Type 0 where
  pub organization_id : ℕ
  pub document_id : ℕ
  pub original_file_name : Text
  pub media_type : Text
  pub size_bytes : ℕ
  pub checksum : Text

pub record Target : Type 0 where
  pub object_key : Text
  pub upload_url : Text
  pub expires_at : Text
  -- the entries of the object, in order
  pub required_headers : List (Text × Text)

pub record StoredObject : Type 0 where
  pub object_key : Text
  pub media_type : Text
  pub size_bytes : ℕ
  pub checksum : Text

-- one constructor for each message
pub data UploadError : Type 0 where
  bad_checksum bad_size no_media_type no_file_name : UploadError
  target_key_mismatch target_url_invalid target_not_https target_expiry_invalid : UploadError
  target_content_type target_content_length target_integrity : UploadError
  object_missing stored_key_mismatch stored_content_type stored_content_length : UploadError
  stored_integrity : UploadError
  persistence_not_configured key_required key_bound already_completed already_failed : UploadError
  attempt_not_found attempt_failed state_changed : UploadError
  -- IdempotencyKeyConflictError, a violated constraint, and a fault of the provider
  key_conflict unique_violation provider_fault : UploadError

pub record Web : Type 0 where
  -- `new URL(text).protocol`, null where the constructor throws
  pub url_protocol : Text → Option Text
  -- `Date.parse(text)`, null where it is not finite
  pub date_parse : Text → Option ℕ
  pub to_lower_case : Text → Text
  -- hexadecimal SHA-256 of an organization's identifier
  pub organization_digest : ℕ → Text
  pub uuid_text : ℕ → Text

-- 15 * 60 * 1000
abbrev pub max_upload_target_ttl_ms : ℕ
max_upload_target_ttl_ms = 900000

-- Number.MAX_SAFE_INTEGER
abbrev pub max_safe_integer : ℕ
max_safe_integer = 9007199254740991

is_lower_hex : ℕ → Bool
is_lower_hex c = (leb 48 c && leb c 57) || (leb 97 c && leb c 102)

all_lower_hex : Text → Bool
unfolding is_lower_hex
all_lower_hex [] = true
all_lower_hex (c ∷ s) = is_lower_hex c && all_lower_hex s

-- /^[0-9a-f]{64}$/
unfoldable pub is_sha256 : Text → Bool
unfolding all_lower_hex
is_sha256 s = length s == 64 && all_lower_hex s

-- `String(n)` of a safe integer; n + 1 rounds are more than its digits
digits : ℕ → ℕ → Text → Text
digits zero n tail = tail
digits (suc rounds) n tail = elim (ltb n 10) [
  | true ↦ (48 + n) ∷ tail
  | false ↦ digits rounds (n / 10) ((48 + n % 10) ∷ tail)
]

unfoldable pub decimal : ℕ → Text
unfolding digits
decimal n = digits (suc n) n []

unfoldable pub assert_upload_descriptor : Descriptor → Outcome UploadError (Unit {0})
unfolding is_sha256 trim
assert_upload_descriptor d = do
  require (is_sha256 d.checksum) bad_checksum
  require (leb d.size_bytes max_safe_integer && ltb 0 d.size_bytes) bad_size
  require (not (is_empty (trim d.media_type))) no_media_type
  require (not (is_empty (trim d.original_file_name))) no_file_name

abbrev pub holds_text : Option Text → Text → Bool
holds_text none t = false
holds_text (some s) t = text_eq s t

module _ (web : Web) where
  unfoldable pub create_document_object_key : ℕ → ℕ → ℕ → Text
  create_document_object_key organization document random =
      codes "documents/"
      ++ take 32 (web.organization_digest organization)
      ++ codes "/"
      ++ web.uuid_text document
      ++ codes "/"
      ++ web.uuid_text random

  or_first : Option Text → Option Text → Option Text
  or_first none b = b
  or_first (some a) b = some a

  -- a property of `Object.fromEntries` over the lower-case names: the last entry wins
  unfoldable pub header : Text → List (Text × Text) → Option Text
  unfolding or_first
  header name [] = none
  header name ((n, v) ∷ rest) =
      or_first (header name rest) (if text_eq (web.to_lower_case n) name then some v else none)

  -- `expiresAtMs > nowMs && expiresAtMs <= nowMs + MAX_UPLOAD_TARGET_TTL_MS`
  abbrev pub expires_soon : ℕ → Option ℕ → Bool
  expires_soon now none = false
  expires_soon now (some at) = ltb now at && leb at (now + max_upload_target_ttl_ms)

  check_url : Option Text → Outcome UploadError (Unit {0})
  check_url none = throws target_url_invalid
  check_url (some protocol) = require (text_eq protocol (codes "https:")) target_not_https

  unfoldable pub assert_upload_target :
      Descriptor → Target → Text → ℕ → Outcome UploadError (Unit {0})
  unfolding check_url header decimal
  assert_upload_target d t expected_key now = do
    require (text_eq t.object_key expected_key) target_key_mismatch
    check_url (web.url_protocol t.upload_url)
    require (expires_soon now (web.date_parse t.expires_at)) target_expiry_invalid
    require (holds_text (header (codes "content-type") t.required_headers) d.media_type)
        target_content_type
    require (holds_text (header (codes "content-length") t.required_headers) (decimal d.size_bytes))
        target_content_length
    require (holds_text (header (codes "x-virexa-sha256") t.required_headers) d.checksum)
        target_integrity

unfoldable pub assert_stored_object :
    Descriptor → Option StoredObject → Text → Outcome UploadError StoredObject
assert_stored_object d none expected_key = throws object_missing
assert_stored_object d (some o) expected_key = do
  require (text_eq o.object_key expected_key) stored_key_mismatch
  require (text_eq o.media_type d.media_type) stored_content_type
  require (o.size_bytes == d.size_bytes) stored_content_length
  require (text_eq o.checksum d.checksum) stored_integrity
  ok o

-- DocumentObjectStorageLifecycle, over the provider's state; any call may throw
pub record Storage (S : Type 0) : Type 0 where
  pub create_upload_target : S → Descriptor → Text → Outcome UploadError Target
  pub inspect_object : S → Text → Outcome UploadError (Option StoredObject)
  pub delete_object : S → Text → Outcome UploadError S
