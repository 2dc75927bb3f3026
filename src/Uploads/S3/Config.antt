-- ===== src/Uploads/S3/Config.antt =====
-- documentStorageConfigFromEnv of src/documents/storage-config.ts. `Number(text)` and
-- `new URL(text).protocol` are parameters.
use virexa_backend.Base.{
  ℕ, ◌≡◌, ◌<◌, ◌≤◌, ltb, leb, ◌&&◌, refl, arith, Bool, true, false, Option, none, some, Outcome, ok,
  throws, if◌then◌else◌, ◌>>=◌, ◌>>◌, Outcome-cases, Option-cases, Bool-cases, inl, inr,
}
use virexa_backend.Base.Text.{Text, codes, text_eq, trim, trim-trim, is_empty, present}
use virexa_backend.Uploads.S3.{
  Number, natural, other, S3DocumentStorageConfig, ConfigError, bucket_required, region_required,
  path_style_invalid, check_ttl, ttl_invalid, seconds, check_endpoint, construct,
}
use mathlib.Core.Option

-- the variables that are read
pub record Environment : Type 0 where
  pub bucket : Option Text
  pub region : Option Text
  pub endpoint : Option Text
  pub ttl_seconds : Option Text
  pub force_path_style : Option Text

-- `value?.trim()`, none where that is empty
unfoldable pub optional_trimmed : Option Text → Option Text
optional_trimmed value = present (Option.map trim value)

abbrev default_upload_ttl_seconds : ℕ
default_upload_ttl_seconds = 600

abbrev max_upload_ttl_seconds : ℕ
max_upload_ttl_seconds = 900

unfoldable parse_seconds : Number → Outcome ConfigError ℕ
parse_seconds other = throws ttl_invalid
parse_seconds (natural n) =
    if ltb 0 n && leb n max_upload_ttl_seconds then ok n else throws ttl_invalid

module _ (to_number : Text → Number) (to_lower_case : Text → Text)
    (url_protocol : Text → Option Text) where
  unfoldable pub parse_upload_ttl : Option Text → Outcome ConfigError ℕ
  unfolding parse_seconds
  parse_upload_ttl none = ok default_upload_ttl_seconds
  parse_upload_ttl (some value) =
      if is_empty (trim value)
      then ok default_upload_ttl_seconds
      else parse_seconds (to_number value)

  unfoldable pub parse_boolean : Option Text → Outcome ConfigError (Option Bool)
  parse_boolean none = ok none
  parse_boolean (some value) =
      let normalized = to_lower_case (trim value) in
      if is_empty (trim value)
      then ok none
      else if text_eq normalized (codes "true")
      then ok (some true)
      else if text_eq normalized (codes "false")
      then ok (some false)
      else throws path_style_invalid

  -- both names are given
  unfoldable pub configured :
      Environment → Text → Text → Outcome ConfigError S3DocumentStorageConfig
  unfolding parse_upload_ttl parse_boolean optional_trimmed check_endpoint
  configured env bucket region = do
    check_endpoint url_protocol (optional_trimmed env.endpoint)
    ttl ← parse_upload_ttl env.ttl_seconds
    path_style ← parse_boolean env.force_path_style
    ok (record {
      bucket = bucket;
      region = region;
      endpoint = optional_trimmed env.endpoint;
      force_path_style = path_style;
      upload_ttl_seconds = some (natural ttl);
    })

  unfoldable pub with_names :
      Environment → Option Text → Option Text → Outcome ConfigError (Option S3DocumentStorageConfig)
  unfolding configured
  with_names env none none = ok none
  with_names env none (some region) = throws bucket_required
  with_names env (some bucket) none = throws region_required
  with_names env (some bucket) (some region) = configured env bucket region >>= λ c. ok (some c)

  unfoldable pub document_storage_config_from_env :
      Environment → Outcome ConfigError (Option S3DocumentStorageConfig)
  unfolding with_names
  document_storage_config_from_env env =
      with_names env (optional_trimmed env.bucket) (optional_trimmed env.region)

  optional_trimmed_full :
      (value : Option Text) (t : Text)
      → optional_trimmed value ≡ some t
      → (trim t ≡ t) × (is_empty t ≡ false)
  unfolding optional_trimmed
  optional_trimmed_full none t h = cc
  optional_trimmed_full (some v) t h = elim (Bool-cases (is_empty (trim v))) [
    | inl blank ↦ absurd (ground (arith, blank))
    | inr full ↦ let same : trim v ≡ t = ground (arith, full) in rw (← same) (trim-trim v, full)
  ]

  parse_seconds_bounds :
      (n : Number) (ttl : ℕ)
      → parse_seconds n ≡ ok ttl
      → (check_ttl (natural ttl) ≡ ok ttl) × (0 < ttl) × (ttl ≤ 900)
  unfolding check_ttl parse_seconds
  parse_seconds_bounds other ttl h = cc
  parse_seconds_bounds (natural n) ttl h = ground arith

  parse_upload_ttl_bounds :
      (value : Option Text) (ttl : ℕ)
      → parse_upload_ttl value ≡ ok ttl
      → (check_ttl (natural ttl) ≡ ok ttl) × (0 < ttl) × (ttl ≤ 900)
  unfolding parse_upload_ttl check_ttl
  parse_upload_ttl_bounds none ttl h = ground arith
  parse_upload_ttl_bounds (some v) ttl h = elim (Bool-cases (is_empty (trim v))) [
    | inl blank ↦ ground (arith, blank)
    | inr full ↦ parse_seconds_bounds (to_number v) ttl (ground (arith, full))
  ]

  endpoint_again : (value : Option Text) → present (optional_trimmed value) ≡ optional_trimmed value
  unfolding optional_trimmed
  endpoint_again none = refl
  endpoint_again (some v) = ground arith

  -- A configuration that the environment gives is one that the constructor of the storage accepts,
  -- with its own lifetime of upload targets, between 1 and 900 seconds.
  pub document_storage_config_from_env-construct :
      (env : Environment) (config : S3DocumentStorageConfig)
      → document_storage_config_from_env env ≡ ok (some config)
      → (ttl : ℕ) × (construct url_protocol config ≡ ok ttl)
        × (config.upload_ttl_seconds ≡ some (natural ttl))
        × (0 < ttl)
        × (ttl ≤ 900)
  unfolding document_storage_config_from_env with_names configured construct seconds
  document_storage_config_from_env-construct env config h =
      elim (Option-cases (optional_trimmed env.bucket)) [
        | inl no_bucket ↦ elim (Option-cases (optional_trimmed env.region)) [
          | inl no_region ↦ absurd (ground (arith, no_bucket, no_region))
          | inr (r, region) ↦ absurd (ground (arith, no_bucket, region))
        ]
        | inr (b, bucket) ↦ elim (Option-cases (optional_trimmed env.region)) [
          | inl no_region ↦ absurd (ground (arith, bucket, no_region))
          | inr (r, region) ↦
              let named = optional_trimmed_full env.bucket b bucket in
              let placed = optional_trimmed_full env.region r region in
              let again = endpoint_again env.endpoint in
              elim (Outcome-cases (check_endpoint url_protocol (optional_trimmed env.endpoint))) [
                | inr (e, bad) ↦ absurd (ground (arith, bucket, region, bad))
                | inl (u, reached) ↦ elim (Outcome-cases (parse_upload_ttl env.ttl_seconds)) [
                  | inr (e, bad) ↦ absurd (ground (arith, bucket, region, reached, bad))
                  | inl (ttl, lasts) ↦ elim (Outcome-cases (parse_boolean env.force_path_style)) [
                    | inr (e, bad) ↦ absurd (ground (arith, bucket, region, reached, lasts, bad))
                    | inl (style, styled) ↦
                        let bounds = parse_upload_ttl_bounds env.ttl_seconds ttl lasts in
                        (
                          ttl,
                          ground (
                            arith, bucket, region, reached, lasts, styled, named, placed, again,
                            bounds,
                          ),
                          ground (arith, bucket, region, reached, lasts, styled),
                          bounds.1,
                          bounds.2,
                        )
                  ]
                ]
              ]
        ]
      ]
