-- ===== src/Auth.antt =====
-- Roles, permissions and the request guards: src/contracts/auth.ts, src/auth/context.ts and
-- src/auth/origin-guard.ts. The session and account tables are the children's.
pub mod Roles
pub mod Sessions
pub mod Accounts
pub mod Passwords
pub mod Routes
mod Tests
use virexa_backend.Base.{
  ℕ, Bool, true, false, ◌||◌, not, Option, none, some, List, [], ◌∷◌, ◌==◌, any, if◌then◌else◌,
  Outcome, ok, throws,
}
use virexa_backend.Base.Text.{Text, text_eq, present, codes}

pub data UserRole : Type 0 where
  super_admin admin manager operator viewer : UserRole

pub data Permission : Type 0 where
  platform_read platform_manage organization_manage audit_read : Permission
  workflow_read workflow_create workflow_manage : Permission
  document_read document_create document_manage : Permission
  agent_read agent_create agent_manage : Permission

pub record UserSummary : Type 0 where
  pub id : ℕ
  pub email : Text
  pub display_name : Text
  pub role : UserRole
  pub organization_id : ℕ
  pub organization_name : Text

-- `expires_at` is the number of milliseconds that the ISO text stands for
pub record AuthSession : Type 0 where
  pub user : UserSummary
  pub expires_at : ℕ

pub record AuthenticatedContext : Type 0 where
  pub session : AuthSession
  pub open session use {user}
  pub permissions : List Permission

pub data AuthError : Type 0 where
  unauthenticated forbidden untrusted_origin : AuthError

abbrev pub permission_code : Permission → ℕ
permission_code platform_read = 0
permission_code platform_manage = 1
permission_code organization_manage = 2
permission_code audit_read = 3
permission_code workflow_read = 4
permission_code workflow_create = 5
permission_code workflow_manage = 6
permission_code document_read = 7
permission_code document_create = 8
permission_code document_manage = 9
permission_code agent_read = 10
permission_code agent_create = 11
permission_code agent_manage = 12

-- `permissions.includes(permission)`
unfoldable pub includes : List Permission → Permission → Bool
includes [] p = false
includes (q ∷ qs) p = permission_code q == permission_code p || includes qs p

unfoldable pub role_permissions : UserRole → List Permission
role_permissions super_admin =
    platform_read ∷ platform_manage ∷ organization_manage ∷ audit_read ∷ workflow_read
    ∷ workflow_create ∷ workflow_manage ∷ document_read ∷ document_create ∷ document_manage
    ∷ agent_read ∷ agent_create ∷ agent_manage ∷ []
role_permissions admin =
    platform_read ∷ organization_manage ∷ audit_read ∷ workflow_read ∷ workflow_create
    ∷ workflow_manage ∷ document_read ∷ document_create ∷ document_manage ∷ agent_read
    ∷ agent_create ∷ agent_manage ∷ []
role_permissions manager =
    platform_read ∷ audit_read ∷ workflow_read ∷ workflow_create ∷ workflow_manage ∷ document_read
    ∷ document_create ∷ document_manage ∷ agent_read ∷ agent_create ∷ agent_manage ∷ []
role_permissions operator =
    platform_read ∷ workflow_read ∷ workflow_create ∷ document_read ∷ document_create ∷ agent_read
    ∷ agent_create ∷ []
role_permissions viewer = platform_read ∷ workflow_read ∷ document_read ∷ agent_read ∷ []

-- What the guards read of a request. A missing cookie or header is null.
pub record Request : Type 0 where
  pub method : Text
  pub session_cookie : Option Text
  pub origin : Option Text

unfoldable pub with_session : Option AuthSession → Outcome AuthError AuthenticatedContext
unfolding role_permissions
with_session none = throws unauthenticated
with_session (some s) = ok (record { session = s; permissions = role_permissions s.user.role })

-- `get_session` is the repository's, at the time of the call
unfoldable pub require_authenticated :
    (Text → Option AuthSession) → Request → Outcome AuthError AuthenticatedContext
unfolding with_session
require_authenticated get_session request = elim (present request.session_cookie) [
  | none ↦ throws unauthenticated
  | some token ↦ with_session (get_session token)
]

unfoldable pub require_permission :
    AuthenticatedContext → Permission → Outcome AuthError AuthenticatedContext
require_permission context p =
    if includes context.permissions p then ok context else throws forbidden

unfoldable pub require_any_permission :
    AuthenticatedContext → List Permission → Outcome AuthError AuthenticatedContext
require_any_permission context ps =
    if any (includes context.permissions) ps then ok context else throws forbidden

unfoldable pub is_safe_method : Text → Bool
is_safe_method m =
    text_eq m (codes "GET") || text_eq m (codes "HEAD") || text_eq m (codes "OPTIONS")

unfoldable pub same_origin : Option Text → Option Text → Bool
same_origin (some configured) (some origin) = text_eq origin configured
same_origin _ _ = false

-- The first argument is FRONTEND_ORIGIN of the environment.
unfoldable pub assert_trusted_origin : Option Text → Request → Outcome AuthError (Unit {0})
unfolding is_safe_method same_origin
assert_trusted_origin configured request =
    if is_safe_method request.method
    then ok tt
    else if same_origin (present configured) (present request.origin)
    then ok tt
    else throws untrusted_origin
