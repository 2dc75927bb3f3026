-- ===== src/Config/Production.antt =====
-- What the start-up check of a production server guarantees, and what it does not: the origin guard
-- of src/auth/origin-guard.ts compares with the variable as it is, and the check trims it.
use virexa_backend.Base.{
  ℕ, ◌≤◌, ◌≡◌, refl, arith, true, false, Option, none, some, ok, Outcome-cases, Option-cases,
  Bool-cases, inl, inr,
}
use virexa_backend.Base.Text.{Text, codes, text_eq_iff, trim, present, is_empty}
use virexa_backend.Auth.{Request, is_safe_method, assert_trusted_origin}
use virexa_backend.Config.{
  Environment, is_production, frontend_origin, all_digits, trust_proxy_hops, check_origin,
  assert_production_configuration,
}
use mathlib.Core.Option
use virexa_backend.Auth.Roles.{assert_trusted_origin_iff}
use virexa_backend.Base.{◌↔◌, sym, ap, ◌∙◌, subst}
use virexa_backend.Config.{local_frontend_origin}

pub trust_proxy_hops_bound :
    (env : Environment) (hops : ℕ) → trust_proxy_hops env ≡ ok hops → hops ≤ 10
unfolding trust_proxy_hops
trust_proxy_hops_bound env hops h =
    elim (Option-cases (present (Option.map trim env.trust_proxy_hops))) [
      | inl unset ↦ ground (arith, unset)
      | inr (text, set) ↦ elim (Bool-cases (all_digits text)) [
        | inr malformed ↦ absurd (ground (arith, set, malformed))
        | inl digits ↦ ground (arith, set, digits)
      ]
    ]

-- what a production server runs with
pub record Runs (url_protocol : Text → Option Text) (env : Environment) : Type 0 where
  pub origin : Text
  pub configured : env.frontend_origin ≡ some origin
  pub allowed : frontend_origin env ≡ ok (trim origin)
  pub https : url_protocol (trim origin) ≡ some (codes "https:")
  pub hops : ℕ
  pub proxies : trust_proxy_hops env ≡ ok hops
  pub few : hops ≤ 10

check_origin_sound :
    (protocol : Option Text) → check_origin protocol ≡ ok tt → protocol ≡ some (codes "https:")
unfolding check_origin
check_origin_sound none h = cc
check_origin_sound (some protocol) h = ground (arith, text_eq_iff protocol (codes "https:"))

-- A production server that passes its start-up check has a configured origin, whose trimmed text is
-- an https URL and what CORS allows, and trusts at most 10 proxies.
pub assert_production_configuration_sound :
    (url_protocol : Text → Option Text) (env : Environment)
    → is_production env ≡ true
    → assert_production_configuration url_protocol env ≡ ok tt
    → Runs url_protocol env
unfolding assert_production_configuration frontend_origin
assert_production_configuration_sound url_protocol env live h =
    elim (Option-cases env.frontend_origin) [
      | inl unset ↦ absurd (ground (arith, live, unset))
      | inr (origin, set) ↦ elim (Bool-cases (is_empty (trim origin))) [
        | inl blank ↦ absurd (ground (arith, live, set, blank))
        | inr full ↦ elim (Outcome-cases (check_origin (url_protocol (trim origin)))) [
          | inr (e, bad) ↦ absurd (ground (arith, live, set, full, bad))
          | inl (u, good) ↦ elim (Outcome-cases (trust_proxy_hops env)) [
            | inr (e, bad) ↦ absurd (ground (arith, live, set, full, good, bad))
            | inl (hops, proxies) ↦ record {
              origin = origin;
              configured = set;
              allowed = ground (arith, live, set, full);
              https = check_origin_sound (url_protocol (trim origin)) good;
              hops = hops;
              proxies = proxies;
              few = trust_proxy_hops_bound env hops proxies;
            }
          ]
        ]
      ]
    ]

trim-local : trim local_frontend_origin ≡ local_frontend_origin
unfolding trim
trim-local = refl

-- CORS allows a configured origin as it is exactly where it has no white space around it
frontend_origin-set :
    (env : Environment) (origin v : Text)
    → frontend_origin env ≡ ok origin
    → env.frontend_origin ≡ some v
    → is_empty v ≡ false
    → (origin ≡ v) ↔ (trim v ≡ v)
unfolding frontend_origin
frontend_origin-set env origin v allowed set full = elim (Bool-cases (is_empty (trim v))) [
  | inr kept ↦
      let told : trim v ≡ origin = ground (arith, set, kept) in
      ((λ h. told ∙ h), (λ h. sym told ∙ h))
  | inl blank ↦ elim (Bool-cases (is_production env)) [
    | inl live ↦ absurd (ground (arith, set, blank, live))
    | inr other ↦
        let told : local_frontend_origin ≡ origin = ground (arith, set, blank, other) in
        (
          (λ h. subst (λ t. trim t ≡ t) (told ∙ h) trim-local),
          (λ h. absurd (ground (arith, ap is_empty h))),
        )
  ]
]

-- A request that changes state, from the origin that CORS allows, passes the origin guard exactly if
-- FRONTEND_ORIGIN is set to a text that is not empty and has no white space around it. Where the
-- variable is not set, or has white space around it, the guard refuses the very origin that CORS
-- allows.
pub assert_trusted_origin-frontend_origin :
    (env : Environment) (request : Request) (origin : Text)
    → is_safe_method request.method ≡ false
    → frontend_origin env ≡ ok origin
    → request.origin ≡ some origin
    → (assert_trusted_origin env.frontend_origin request ≡ ok tt)
      ↔ ((v : Text) × (env.frontend_origin ≡ some v) × (trim v ≡ v) × (is_empty v ≡ false))
assert_trusted_origin-frontend_origin env request origin unsafe allowed sent = (
  (λ passed.
      let (v, site) = (assert_trusted_origin_iff env.frontend_origin request unsafe).0 passed in
      let (full, set, told) = site in
      let same : origin ≡ v = ground arith in
      (v, set, (frontend_origin-set env origin v allowed set full).0 same, full)),
  (λ (v, set, neat, full). (assert_trusted_origin_iff env.frontend_origin request unsafe).1 (
    v,
    (full, set, sent ∙ ap some ((frontend_origin-set env origin v allowed set full).1 neat)),
  )),
)
