-- ===== src/Uploads/Service/Initiation.antt =====
-- Initiation of an upload: the target that it accepts, and what a second request gets.
use virexa_backend.Base.{
  ℕ, ◌+◌, ◌<◌, ◌≤◌, ◌≡◌, refl, subst, inl, inr, true, Option, none, some, arith, Bool-cases,
  Outcome-cases, ok,
}
use virexa_backend.Base.Text.{Text, codes, text_eq, text_eq_iff}
use virexa_backend.Uploads.{
  Descriptor, Target, Web, Storage, decimal, header, holds_text, check_url, expires_soon,
  assert_upload_target,
}
use virexa_backend.Uploads.Attempts.{initiated, Attempt}
use virexa_backend.Uploads.Service.{
  PersistedDocumentUpload, create_target, require_initiated, resume_attempt, persisted,
}

holds_text_iff : (t : Option Text) (s : Text) → holds_text t s ≡ true → t ≡ some s
holds_text_iff none s h = cc
holds_text_iff (some t) s h = ground (arith, text_eq_iff t s)

-- a target that binds the upload to the object: its key, https, a short life, and the headers
pub record Binds (web : Web) (d : Descriptor) (object_key : Text) (now_ms : ℕ) (t : Target)
    : Type 0 where
  pub key : t.object_key ≡ object_key
  pub https : web.url_protocol t.upload_url ≡ some (codes "https:")
  pub expiry : ℕ
  pub expires : web.date_parse t.expires_at ≡ some expiry
  pub later : now_ms < expiry
  pub soon : expiry ≤ now_ms + 900000
  pub content_type : header web (codes "content-type") t.required_headers ≡ some d.media_type
  pub content_length :
      header web (codes "content-length") t.required_headers ≡ some (decimal d.size_bytes)
  pub checksum : header web (codes "x-virexa-sha256") t.required_headers ≡ some d.checksum

module _ (web : Web) where
  check_url_sound : (p : Option Text) → check_url web p ≡ ok tt → p ≡ some (codes "https:")
  unfolding check_url
  check_url_sound none h = cc
  check_url_sound (some p) h = ground (arith, text_eq_iff p (codes "https:"))

  expires_soon_sound :
      (now_ms : ℕ) (at : Option ℕ)
      → expires_soon web now_ms at ≡ true
      → (expiry : ℕ) × (at ≡ some expiry) × (now_ms < expiry) × (expiry ≤ now_ms + 900000)
  expires_soon_sound now_ms none h = absurd (ground arith)
  expires_soon_sound now_ms (some t) h = (t, refl, ground arith, ground arith)

  assert_upload_target_sound :
      (d : Descriptor) (t : Target) (object_key : Text) (now_ms : ℕ)
      → assert_upload_target web d t object_key now_ms ≡ ok tt
      → Binds web d object_key now_ms t
  unfolding assert_upload_target
  assert_upload_target_sound d t object_key now_ms h =
      elim (Bool-cases (text_eq t.object_key object_key)) [
        | inr other ↦ absurd (ground arith)
        | inl same ↦ elim (Outcome-cases (check_url web (web.url_protocol t.upload_url))) [
          | inr (e, bad) ↦ absurd (ground (arith, bad))
          | inl (u, good) ↦
              let (expiry, read, later, soon) =
                expires_soon_sound now_ms (web.date_parse t.expires_at) (ground (arith, good)) in
              record {
                key = (text_eq_iff t.object_key object_key).0 same;
                https = check_url_sound (web.url_protocol t.upload_url) good;
                expiry = expiry;
                expires = read;
                later = later;
                soon = soon;
                content_type =
                    holds_text_iff (header web (codes "content-type") t.required_headers)
                      d.media_type (ground (arith, good));
                content_length =
                    holds_text_iff (header web (codes "content-length") t.required_headers)
                      (decimal d.size_bytes) (ground (arith, good));
                checksum =
                    holds_text_iff (header web (codes "x-virexa-sha256") t.required_headers)
                      d.checksum (ground (arith, good));
              }
        ]
      ]

module _ {S : Type 0} (web : Web) (storage : Storage S) where
  pub create_target_sound :
      (s : S) (d : Descriptor) (object_key : Text) (now_ms : ℕ) (t : Target)
      → create_target web storage s d object_key now_ms ≡ ok t
      → Binds web d object_key now_ms t
  unfolding create_target
  create_target_sound s d object_key now_ms t h =
      elim (Outcome-cases (storage.create_upload_target s d object_key)) [
        | inr (e, fault) ↦ absurd (ground (arith, fault))
        | inl (made, e) ↦ elim (Outcome-cases (assert_upload_target web d made object_key now_ms)) [
          | inr (e', bad) ↦ absurd (ground (arith, e, bad))
          | inl (u, good) ↦
              let told : made ≡ t = ground (arith, e, good) in
              subst (Binds web d object_key now_ms) told
                (assert_upload_target_sound web d made object_key now_ms (ground (arith, good)))
        ]
      ]

  pub resume_attempt-eq-ok :
      (s : S) (d : Descriptor) (a : Attempt) (now_ms : ℕ) (r : PersistedDocumentUpload)
      → resume_attempt web storage s d a now_ms ≡ ok r
      → (a.document_id ≡ d.document_id)
        × (a.status ≡ initiated)
        × (r.attempt ≡ a)
        × (r.object_key ≡ a.object_key)
        × (create_target web storage s d a.object_key now_ms ≡ ok r.target)
  unfolding resume_attempt require_initiated
  resume_attempt-eq-ok s d a now_ms r h =
      elim (Outcome-cases (create_target web storage s d a.object_key now_ms)) [
        | inr (e, fault) ↦ absurd (ground (arith, fault))
        | inl (t, made) ↦ ground (arith, made)
      ]

  pub persisted-eq-ok :
      (s : S) (d : Descriptor) (offered : Text) (now_ms : ℕ) (a : Attempt)
      (r : PersistedDocumentUpload)
      → persisted web storage s d offered now_ms a ≡ ok r
      → (r.attempt ≡ a)
        × (r.object_key ≡ a.object_key)
        × (create_target web storage s d a.object_key now_ms ≡ ok r.target)
  unfolding persisted
  persisted-eq-ok s d offered now_ms a r h =
      elim (Outcome-cases (create_target web storage s d a.object_key now_ms)) [
        | inr (e, fault) ↦ absurd (ground (arith, fault))
        | inl (t, made) ↦ ground (arith, made)
      ]
