-- ===== src/Uploads/S3/Laws.antt =====
-- The storage of src/documents/s3-storage.ts against the checks of src/documents/storage.ts and
-- the service of src/documents/upload-service.ts.
use virexa_backend.Base.{
  ℕ, ◌+◌, ◌*◌, ◌≡◌, refl, arith, true, false, ◌&&◌, some, [], ◌∷◌, ok, throws, ltb, leb, ==_refl,
  if◌then◌else◌, Bool-cases, inl, inr,
}
use virexa_backend.Base.Text.{Text, codes, text_eq, text_eq_refl, is_empty, trim}
use virexa_backend.Uploads.{
  Descriptor, target_expiry_invalid, Web, header, check_url, assert_upload_descriptor,
  assert_upload_target, assert_stored_object, decimal, is_sha256,
}
use virexa_backend.Uploads.Service.{create_target, verify_completion, settle}
use virexa_backend.Uploads.S3.{
  PutObject, Sdk, stored_object, with_fields, required_headers, create_upload_target,
  inspect_object, s3_storage,
}

-- what the storage relies on
pub record Reliable {S : Type 0} (web : Web) (sdk : Sdk S) : Type 0 where
  -- the endpoint is https
  pub signed :
      (s : S) (command : PutObject) (ttl : ℕ) (url : Text)
      → sdk.get_signed_url s command ttl ≡ ok url
      → web.url_protocol url ≡ some (codes "https:")
  -- `Date.parse(new Date(ms).toISOString())`
  pub parsed : (ms : ℕ) → web.date_parse (sdk.iso ms) ≡ some ms
  -- `toLowerCase` of a text in lower case
  pub content_type : web.to_lower_case (codes "content-type") ≡ codes "content-type"
  pub content_length : web.to_lower_case (codes "content-length") ≡ codes "content-length"
  pub checksum : web.to_lower_case (codes "x-virexa-sha256") ≡ codes "x-virexa-sha256"
  pub metadata :
      web.to_lower_case (codes "x-amz-meta-virexa-sha256") ≡ codes "x-amz-meta-virexa-sha256"

module _ {S : Type 0} (web : Web) (sdk : Sdk S) (bucket : Text) (ttl : ℕ) where
  headers_found :
      (d : Descriptor)
      → Reliable web sdk
      → (header web (codes "content-type") (required_headers d) ≡ some d.media_type)
        × (header web (codes "content-length") (required_headers d) ≡ some (decimal d.size_bytes))
        × (header web (codes "x-virexa-sha256") (required_headers d) ≡ some d.checksum)
  unfolding header text_eq
  headers_found d r =
      rw (r.content_type, r.content_length, r.checksum, r.metadata) (refl, refl, refl)

  -- A target of the storage passes the service's checks if and only if it has not expired and does not
  -- outlive the service's clock by more than 15 minutes: its life is counted from the storage's
  -- clock, and the limit from the service's, which was read when the request began.
  pub create_target-s3 :
      (s : S) (d : Descriptor) (object_key url : Text) (now_ms : ℕ)
      → Reliable web sdk
      → sdk.get_signed_url s
          (record {
            bucket = bucket;
            key = object_key;
            content_type = d.media_type;
            content_length = d.size_bytes;
            checksum = d.checksum;
          })
          ttl
        ≡ ok url
      → create_target web (s3_storage sdk bucket ttl) s d object_key now_ms ≡ (
          if ltb now_ms (sdk.clock s + ttl * 1000)
            && leb (sdk.clock s + ttl * 1000) (now_ms + 900000)
          then ok (record {
            object_key = object_key;
            upload_url = url;
            expires_at = sdk.iso (sdk.clock s + ttl * 1000);
            required_headers = required_headers d;
          })
          else throws target_expiry_invalid)
  unfolding create_target create_upload_target assert_upload_target check_url
  create_target-s3 s d object_key url now_ms r signed =
      let https = r.signed s _ ttl url signed in
      let read = r.parsed (sdk.clock s + ttl * 1000) in
      let (typed, sized, summed) = headers_found d r in
      elim (Bool-cases (
        ltb now_ms (sdk.clock s + ttl * 1000)
        && leb (sdk.clock s + ttl * 1000) (now_ms + 900000))) [
          | inl timely ↦ ground (
            arith,
            signed,
            https,
            read,
            typed,
            sized,
            summed,
            timely,
            text_eq_refl object_key,
            text_eq_refl (codes "https:"),
            text_eq_refl d.media_type,
            text_eq_refl (decimal d.size_bytes),
            text_eq_refl d.checksum,
          )
          | inr late ↦ ground (
            arith,
            signed,
            https,
            read,
            late,
            text_eq_refl object_key,
            text_eq_refl (codes "https:"),
          )
        ]

  described :
      (d : Descriptor)
      → assert_upload_descriptor d ≡ ok tt
      → (is_empty d.media_type ≡ false) × (is_empty d.checksum ≡ false)
  unfolding assert_upload_descriptor trim is_sha256
  described d h = (nonempty d.media_type (ground arith), long d.checksum (ground arith))
    where
      nonempty : (t : Text) → is_empty (trim t) ≡ false → is_empty t ≡ false
      nonempty [] e = cc
      nonempty (c ∷ t) e = refl

      long : (t : Text) → is_sha256 t ≡ true → is_empty t ≡ false
      long [] e = cc
      long (c ∷ t) e = refl

  -- The verification of an upload that passes its checks returns the stored object, and changes
  -- nothing, where the bucket has an object of the described type, size and checksum.
  pub verify_completion-s3 :
      (s : S) (d : Descriptor) (object_key : Text)
      → assert_upload_descriptor d ≡ ok tt
      → sdk.head_object s bucket object_key
        ≡ ok (record {
          content_type = some d.media_type;
          content_length = some d.size_bytes;
          checksum = some d.checksum;
        })
      → verify_completion (s3_storage sdk bucket ttl) s d object_key ≡ (
        ok (record {
          object_key = object_key;
          media_type = d.media_type;
          size_bytes = d.size_bytes;
          checksum = d.checksum;
        }),
        s,
      )
  unfolding verify_completion settle inspect_object stored_object with_fields assert_stored_object
  verify_completion-s3 s d object_key fits head =
      let (typed, summed) = described d fits in
      ground (
        arith,
        fits,
        head,
        typed,
        summed,
        text_eq_refl object_key,
        text_eq_refl d.media_type,
        ==_refl d.size_bytes,
        text_eq_refl d.checksum,
      )
