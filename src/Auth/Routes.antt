-- ===== src/Auth/Routes.antt =====
-- The account and session routes of src/app.ts. Results of the schemas' `safeParse` are arguments.
-- A handler that reads the session and then calls the repository has the tables at both times, `t`
-- at the first and the world at the second. A cookie that a reply sets is in its body.
pub mod Laws
mod Tests
use virexa_backend.Base.{
  ℕ, Bool, true, false, Option, none, some, List, [], ◌∷◌, Outcome, ok, throws, ◌>>=◌, ◌>>◌,
  if◌then◌else◌,
}
use virexa_backend.Base.Text.{Text, codes, present}
use virexa_backend.Audit.{AuditEventInput, Value, text, number, flag, record_event}
use virexa_backend.Auth.{
  UserRole, super_admin, admin, manager, operator, viewer, UserSummary, AuthSession,
  AuthenticatedContext, platform_read, require_authenticated, require_permission,
  assert_trusted_origin,
}
use virexa_backend.Auth.Sessions.{
  SessionSummary, list_active_sessions, revoke_session, revoke_owned_session, revoke_other_sessions,
}
use virexa_backend.Auth.Accounts.{
  Crypto, Tables, Registration, Fresh, Login, AccountError, register, login, get_session,
}
use virexa_backend.Http.{
  Incoming, Failure, Reply, World, fail, guarded, parsed, not_authenticated, not_found,
  internal_error, email_already_registered, invalid_credentials,
}

abbrev pub role_text : UserRole → Text
role_text super_admin = codes "super_admin"
role_text admin = codes "admin"
role_text manager = codes "manager"
role_text operator = codes "operator"
role_text viewer = codes "viewer"

-- the parsed body of a login
pub record LoginRequest : Type 0 where
  pub email : Text
  pub password : Text

-- a reply with a new session, and the value of its cookie
pub record SignedIn : Type 0 where
  pub session : AuthSession
  pub cookie : Text

-- the reply to a revocation; the cookie is cleared if the session was the current one
pub record RevokedReply : Type 0 where
  pub current : Bool

-- `if (!token) throw new AuthenticationRequiredError()`
unfoldable pub session_token : Option Text → Outcome Failure Text
session_token cookie = elim (present cookie) [ none ↦ fail 401 not_authenticated | some t ↦ ok t ]

module _ (crypto : Crypto) (now : ℕ) (incoming : Incoming) where
  -- requireAuthenticated over the tables
  unfoldable pub authenticated : Tables → Outcome Failure AuthenticatedContext
  authenticated t =
      guarded (require_authenticated (λ token. get_session crypto now token t) incoming.request)

  unfoldable pub identity_event :
      UserSummary → Text → Text → Option ℕ → List (Text × Value) → AuditEventInput
  identity_event user action resource_type resource_id metadata = record {
    organization_id = user.organization_id;
    actor_user_id = some user.id;
    action = action;
    resource_type = resource_type;
    resource_id = resource_id;
    request_id = incoming.request_id;
    metadata = metadata;
  }

  register_checks : Option Registration → Outcome Failure Registration
  register_checks body = do
    guarded (assert_trusted_origin incoming.configured_origin incoming.request)
    parsed body

  registered :
      World Tables
      → Outcome AccountError (Login × Tables)
      → Outcome Failure (Reply SignedIn) × World Tables
  unfolding identity_event
  registered w (throws e) = (fail 409 email_already_registered, w)
  registered w (ok (result, tables)) =
      let user = result.session.user in
      (
        ok (record {
          status = 201;
          body = record { session = result.session; cookie = result.session_token };
        }),
        record {
          tables = tables;
          audit =
              record_event
                (identity_event user (codes "identity.registered") (codes "user") (some user.id)
                  ((codes "role", text (role_text user.role)) ∷ []))
                w.audit;
        },
      )

  unfoldable pub post_register :
      Fresh → Option Registration → World Tables → Outcome Failure (Reply SignedIn) × World Tables
  unfolding register_checks registered
  post_register fresh body w = elim (register_checks body) [
    | throws failure ↦ (throws failure, w)
    | ok input ↦ registered w (register crypto now fresh input w.tables)
  ]

  login_checks : Option LoginRequest → Outcome Failure LoginRequest
  login_checks body = do
    guarded (assert_trusted_origin incoming.configured_origin incoming.request)
    parsed body

  unfoldable pub logged_in :
      World Tables
      → Outcome AccountError (Option (Login × Tables))
      → Outcome Failure (Reply SignedIn) × World Tables
  unfolding identity_event
  logged_in w (throws e) = (fail 500 internal_error, w)
  logged_in w (ok none) = (fail 401 invalid_credentials, w)
  logged_in w (ok (some (result, tables))) = (
    ok (record {
      status = 200;
      body = record { session = result.session; cookie = result.session_token };
    }),
    record {
      tables = tables;
      audit =
          record_event
            (identity_event result.session.user (codes "identity.login_succeeded") (codes "session")
              none [])
            w.audit;
    },
  )

  -- `t` at the read of the candidate
  unfoldable pub post_login :
      Fresh
      → Option LoginRequest
      → Tables
      → World Tables
      → Outcome Failure (Reply SignedIn) × World Tables
  unfolding login_checks logged_in
  post_login fresh body t w = elim (login_checks body) [
    | throws failure ↦ (throws failure, w)
    | ok input ↦ logged_in w (login crypto now fresh input.email input.password t w.tables)
  ]

  unfoldable pub get_session_route : Tables → Outcome Failure (Reply AuthSession)
  unfolding session_token
  get_session_route t = do
    token ← session_token incoming.request.session_cookie
    elim (get_session crypto now token t) [
      | none ↦ fail 401 not_authenticated
      | some session ↦ ok (record { status = 200; body = session })
    ]

  unfoldable pub get_sessions : Tables → Tables → Outcome Failure (Reply (List SessionSummary))
  unfolding session_token authenticated
  get_sessions t t' = do
    token ← session_token incoming.request.session_cookie
    authenticated t
    ok (record {
      status = 200;
      body = list_active_sessions crypto.digest crypto.to_date now token t'.sessions;
    })

  -- the checks of the two revocations
  unfoldable pub revocation_checks : Tables → Outcome Failure (Text × AuthenticatedContext)
  unfolding session_token authenticated
  revocation_checks t = do
    guarded (assert_trusted_origin incoming.configured_origin incoming.request)
    token ← session_token incoming.request.session_cookie
    context ← authenticated t
    ok (token, context)

  with_id :
      Option ℕ → Text × AuthenticatedContext → Outcome Failure (Text × AuthenticatedContext × ℕ)
  with_id parsed_id (token, context) = do id ← parsed parsed_id; ok (token, context, id)

  unfoldable pub delete_session :
      Option ℕ → Tables → World Tables → Outcome Failure (Reply RevokedReply) × World Tables
  unfolding revocation_checks with_id identity_event
  delete_session parsed_id t w = elim (revocation_checks t >>= with_id parsed_id) [
    | throws failure ↦ (throws failure, w)
    | ok (token, context, id) ↦
        let r = revoke_owned_session crypto.digest now token id w.tables.sessions in
        let tables = record w.tables { sessions = r.1 } in
        if r.0.revoked
        then (
          ok (record { status = 200; body = record { current = r.0.current } }),
          record {
            tables = tables;
            audit =
                record_event
                  (identity_event context.user (codes "identity.session_revoked") (codes "session")
                    (some id) ((codes "current", flag r.0.current) ∷ []))
                  w.audit;
          },
        )
        else (fail 404 not_found, record w { tables = tables })
  ]

  -- the body is the number of revoked sessions
  unfoldable pub post_revoke_others :
      Tables → World Tables → Outcome Failure (Reply ℕ) × World Tables
  unfolding revocation_checks identity_event
  post_revoke_others t w = elim (revocation_checks t) [
    | throws failure ↦ (throws failure, w)
    | ok (token, context) ↦
        let r = revoke_other_sessions crypto.digest now token w.tables.sessions in
        (
          ok (record { status = 200; body = r.0 }),
          record {
            tables = record w.tables { sessions = r.1 };
            audit =
                record_event
                  (identity_event context.user (codes "identity.other_sessions_revoked")
                    (codes "session") none ((codes "revokedCount", number r.0) ∷ []))
                  w.audit;
          },
        )
  ]

  logout_audit : Option AuthSession → List AuditEventInput → List AuditEventInput
  unfolding identity_event
  logout_audit none trail = trail
  logout_audit (some s) trail =
      record_event (identity_event s.user (codes "identity.logout") (codes "session") none []) trail

  -- `t` at the lookup; the cookie is cleared in any case
  unfoldable pub post_logout : Tables → World Tables → Outcome Failure (Reply Bool) × World Tables
  unfolding logout_audit
  post_logout t w =
      let done = ok (record { status = 200; body = true }) in
      elim (assert_trusted_origin incoming.configured_origin incoming.request) [
        | throws e ↦ (guarded (throws e), w)
        | ok u ↦ elim (present incoming.request.session_cookie) [
          | none ↦ (done, w)
          | some token ↦ (
            done,
            record {
              tables = record w.tables {
                sessions = revoke_session crypto.digest now token w.tables.sessions;
              };
              audit = logout_audit (get_session crypto now token t) w.audit;
            },
          )
        ]
      ]

  unfoldable pub get_me : Tables → Outcome Failure (Reply AuthenticatedContext)
  unfolding authenticated
  get_me t = do
    context ← authenticated t
    guarded (require_permission context platform_read)
    ok (record { status = 200; body = context })
