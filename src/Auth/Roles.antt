-- ===== src/Auth/Roles.antt =====
-- What the permission table of src/auth/context.ts grants.
use virexa_backend.Base.{
  ℕ, ◌≡◌, refl, Bool, true, false, not, ◌||◌, Option, none, some, List, [], ◌∷◌, arith, ok, ◌≤◌,
  ◌↔◌, ◌>>=◌, Option-cases, inl, inr,
}
use virexa_backend.Base.Text.{present, Text, is_empty, text_eq_iff}
use virexa_backend.Auth.{
  UserRole, super_admin, admin, manager, operator, viewer, Permission, platform_read,
  platform_manage, organization_manage, audit_read, workflow_read, workflow_create, workflow_manage,
  document_read, document_create, document_manage, agent_read, agent_create, agent_manage, includes,
  role_permissions, AuthSession, AuthenticatedContext, Request, require_authenticated,
  require_permission, is_safe_method, same_origin, assert_trusted_origin,
}

-- seniority
abbrev pub rank : UserRole → ℕ
rank viewer = 0
rank operator = 1
rank manager = 2
rank admin = 3
rank super_admin = 4

abbrev implies : Bool → Bool → Bool
implies a b = not a || b

abbrev all_permissions : List Permission
all_permissions =
    platform_read ∷ platform_manage ∷ organization_manage ∷ audit_read ∷ workflow_read
    ∷ workflow_create ∷ workflow_manage ∷ document_read ∷ document_create ∷ document_manage
    ∷ agent_read ∷ agent_create ∷ agent_manage ∷ []

-- A senior role has every permission of a junior one.
pub role_permissions_mono :
    (r s : UserRole) (p : Permission)
    → rank r ≤ rank s
    → includes (role_permissions r) p ≡ true
    → includes (role_permissions s) p ≡ true
unfolding includes role_permissions
role_permissions_mono r s platform_read h g = ground arith
role_permissions_mono r s platform_manage h g = ground arith
role_permissions_mono r s organization_manage h g = ground arith
role_permissions_mono r s _ h g = ground arith

-- A guarded route goes on only for a session cookie that the repository knows, in the context of
-- that session, and only if the role of its user grants the permission.
pub require_permission_sound :
    (get_session : Text → Option AuthSession) (request : Request) (p : Permission)
    (context : AuthenticatedContext)
    → (do c ← require_authenticated get_session request; require_permission c p) ≡ ok context
    → (token : Text) × (request.session_cookie ≡ some token)
      × (get_session token ≡ some context.session)
      × (includes (role_permissions context.user.role) p ≡ true)
unfolding require_authenticated require_permission
require_permission_sound get_session request p context h =
    elim (Option-cases (request.session_cookie)) [
      | inl missing ↦ absurd (ground arith)
      | inr (token, e) ↦ (token, e, ground arith, ground arith)
    ]

abbrev pub IsSite : Option Text → Option Text → Text → Type 0
IsSite configured origin site =
    (is_empty site ≡ false) × (configured ≡ some site) × (origin ≡ some site)

same_origin_sound :
    (configured origin : Option Text)
    → same_origin (present configured) (present origin) ≡ true
    → (site : Text) × IsSite configured origin site
unfolding same_origin
same_origin_sound (some c) (some o) h = (c, (ground arith, refl, ground (arith, text_eq_iff o c)))
same_origin_sound (some c) none h = absurd (ground arith)
same_origin_sound none origin h = absurd (ground arith)

same_origin_complete :
    (site : Text)
    → is_empty site ≡ false
    → same_origin (present (some site)) (present (some site)) ≡ true
unfolding same_origin
same_origin_complete site h = ground (arith, text_eq_iff site site)

-- A request whose method may change state passes the origin guard exactly when FRONTEND_ORIGIN is
-- configured, not empty, and equal to the Origin header.
pub assert_trusted_origin_iff :
    (configured : Option Text) (request : Request)
    → is_safe_method request.method ≡ false
    → (assert_trusted_origin configured request ≡ ok tt)
      ↔ ((site : Text) × IsSite configured request.origin site)
unfolding assert_trusted_origin
assert_trusted_origin_iff configured request unsafe = (
  (λ h. same_origin_sound configured request.origin (ground arith)),
  (λ (site, (full, c, o)). rw (unsafe, c, o, same_origin_complete site full)),
)
