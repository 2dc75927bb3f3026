-- ===== src/Auth/Tests.antt =====
-- The theorems on accounts, sessions and guards at concrete tables.
use virexa_backend.Base.{
  ℕ, ◌≡◌, refl, ◌≢◌, ◌⊎◌, ◌≤◌, ◌+◌, ◌↔◌, true, false, ◌&&◌, Option, none, some, List, [], ◌∷◌,
  arith, ok, throws, ◌==◌, length, ◌>>=◌,
}
use virexa_backend.Base.Text.{Text, codes, text_eq, trim}
use virexa_backend.Base.Sql.{select, update, returning, member}
use virexa_backend.Paging.{before, order_desc, insert_desc}
use virexa_backend.Auth.{
  admin, operator, manager, workflow_create, includes, role_permissions, AuthSession, Request,
  AuthenticatedContext, require_authenticated, require_permission, is_safe_method,
  assert_trusted_origin,
}
use virexa_backend.Auth.Roles.{
  role_permissions_mono, require_permission_sound, assert_trusted_origin_iff, IsSite,
}
use virexa_backend.Auth.Sessions.{
  SessionRow, duplicate_session, session_row, active_of, has_token, newest, revoke_surplus,
  create_bounded_session, owner, revoke_session, revoke_owned_session, revoke_other_sessions,
}
use virexa_backend.Auth.Sessions.Bound.{
  create_bounded_session-bound, create_bounded_session-others, create_bounded_session-owner,
}
use virexa_backend.Auth.Sessions.Revocation.{
  owner-revoke_session, revoke_other_sessions_lem, revoke_owned_session_lem,
  revoke_owned_session-others, Revokes,
}
use virexa_backend.Auth.Accounts.{
  Crypto, UserRow, Tables, Registration, Fresh, Login, register, login, get_session,
}
use virexa_backend.Auth.Accounts.Laws.{register-get_session, login_sound, IsFresh, Admits}
use virexa_backend.Base.{any, first}
use virexa_backend.Auth.Sessions.{clashes}
use virexa_backend.Auth.Accounts.{to_user, is_candidate}
use virexa_backend.Auth.Accounts.Access.{login_succeeds}
use virexa_backend.Auth.Sessions.Reachable.{
  Reachable, start, next, opens, logs_out, IsBounded, Reachable-IsBounded,
}

computed : Unit {0}
unfolding select update returning member before order_desc insert_desc text_eq trim includes
    role_permissions require_authenticated require_permission assert_trusted_origin newest
    revoke_surplus create_bounded_session owner revoke_session revoke_owned_session
    revoke_other_sessions register login get_session is_safe_method
computed = tt

abbrev digest : Text → Text
digest s = 7 ∷ s

abbrev crypto : Crypto
crypto = record {
  hash_password = λ password salt. password;
  verify_password = λ password stored. text_eq password stored;
  digest = digest;
  lower = λ s. s;
  to_date = λ t. t;
}

abbrev session : ℕ → ℕ → SessionRow
session id user = session_row id id user (7 ∷ id ∷ [])

-- six sessions of user 1, and one of user 2
abbrev sessions : List SessionRow
sessions = session 5 1 ∷ session 4 1 ∷ session 3 1 ∷ session 2 1 ∷ session 1 1 ∷ session 6 2 ∷ []

abbrev after_login : List SessionRow
after_login =
    session 9 1
    ∷ session 5 1
    ∷ session 4 1
    ∷ session 3 1
    ∷ session 2 1
    ∷ record (session 1 1) { revoked_at = some 9 }
    ∷ session 6 2
    ∷ []

create_bounded_session_test :
    create_bounded_session 9 9 1 (7 ∷ 9 ∷ []) sessions ≡ ok (28800000009, after_login)
unfolding computed
create_bounded_session_test = refl

create_bounded_session_taken :
    (create_bounded_session 9 3 1 (7 ∷ 9 ∷ []) sessions ≡ throws duplicate_session)
    × (create_bounded_session 9 9 1 (7 ∷ 3 ∷ []) sessions ≡ throws duplicate_session)
unfolding computed
create_bounded_session_taken = (refl, refl)

create_bounded_session-bound_applied : length (select (active_of 9 1) after_login) ≤ 5
create_bounded_session-bound_applied =
    create_bounded_session-bound 9 9 1 (7 ∷ 9 ∷ []) sessions 28800000009 after_login (ground arith)
      create_bounded_session_test

create_bounded_session-others_applied :
    select (λ s. s.user_id == 2) after_login ≡ select (λ s. s.user_id == 2) sessions
create_bounded_session-others_applied =
    create_bounded_session-others 9 9 1 (7 ∷ 9 ∷ []) sessions 2 28800000009 after_login
      (ground arith) create_bounded_session_test

create_bounded_session-owner_applied : owner digest 1000 (9 ∷ []) after_login ≡ some 1
create_bounded_session-owner_applied =
    create_bounded_session-owner 9 9 1 (7 ∷ 9 ∷ []) sessions digest (9 ∷ []) 28800000009 after_login
      refl (ground arith) create_bounded_session_test 1000 (ground arith)

owner_test : owner digest 9 (3 ∷ []) sessions ≡ some 1
unfolding computed
owner_test = refl

owner-revoke_session_applied :
    owner digest 20 (3 ∷ []) (revoke_session digest 10 (3 ∷ []) sessions) ≡ none
owner-revoke_session_applied = owner-revoke_session digest 10 (3 ∷ []) sessions 20

revoke_other_sessions_lem_applied :
    let (count, after) = revoke_other_sessions digest 9 (3 ∷ []) sessions in
    (select (active_of 9 1) after
      ≡ select (λ s. active_of 9 1 s && has_token digest (3 ∷ []) s) sessions)
    × (count + length (select (active_of 9 1) after) ≡ length (select (active_of 9 1) sessions))
    × (select (λ s. s.user_id == 2) after ≡ select (λ s. s.user_id == 2) sessions)
revoke_other_sessions_lem_applied =
    revoke_other_sessions_lem digest 9 (3 ∷ []) sessions 1 2 owner_test (ground arith)

revoke_owned_session_lem_example :
    ((user : ℕ) × (target : SessionRow) × Revokes digest 9 (3 ∷ []) sessions 5 user target)
    ⊎ (((revoke_owned_session digest 9 (3 ∷ []) 5 sessions).0
          ≡ record { revoked = false; current = false })
        × ((revoke_owned_session digest 9 (3 ∷ []) 5 sessions).1 ≡ sessions))
revoke_owned_session_lem_example = revoke_owned_session_lem digest 9 (3 ∷ []) sessions 5

revoke_owned_session_tests :
    ((revoke_owned_session digest 9 (3 ∷ []) 5 sessions).0
      ≡ record { revoked = true; current = false })
    × ((revoke_owned_session digest 9 (3 ∷ []) 3 sessions).0
        ≡ record { revoked = true; current = true })
    × ((revoke_owned_session digest 9 (3 ∷ []) 6 sessions).0
        ≡ record { revoked = false; current = false })
unfolding computed
revoke_owned_session_tests = (refl, refl, refl)

owner_not_other : owner digest 9 (3 ∷ []) sessions ≢ some 2
owner_not_other h = absurd (ground (arith, owner_test))

revoke_owned_session-others_applied :
    select (λ s. s.user_id == 2) (revoke_owned_session digest 9 (3 ∷ []) 6 sessions).1
    ≡ select (λ s. s.user_id == 2) sessions
revoke_owned_session-others_applied =
    revoke_owned_session-others digest 9 (3 ∷ []) sessions 6 2 owner_not_other

abbrev user_row : UserRow
user_row = record {
  id = 1;
  organization_id = 4;
  email = codes "ann@example.com";
  display_name = codes "Ann";
  password_hash = codes "correct horse";
  role = operator;
  disabled_at = none;
}

abbrev tables : Tables
tables = record {
  organizations = record { id = 4; name = codes "Works" } ∷ [];
  users = user_row ∷ [];
  sessions = sessions;
}

abbrev fresh : Fresh
fresh = record { organization = 8; user = 8; session = 9; token = 9 ∷ []; salt = [] }

abbrev logged_in : Login
logged_in = record {
  session = record {
    user = record {
      id = 1;
      email = codes "ann@example.com";
      display_name = codes "Ann";
      role = operator;
      organization_id = 4;
      organization_name = codes "Works";
    };
    expires_at = 28800000009;
  };
  session_token = 9 ∷ [];
}

login_test :
    login crypto 9 fresh (codes "ann@example.com") (codes "correct horse") tables tables
    ≡ ok (some (logged_in, record tables { sessions = after_login }))
unfolding computed
login_test = refl

login_refused :
    (login crypto 9 fresh (codes "ann@example.com") (codes "wrong") tables tables ≡ ok none)
    × (login crypto 9 fresh (codes "bob@example.com") (codes "correct horse") tables tables
        ≡ ok none)
    × (login crypto 9 fresh
          (codes "ann@example.com")
          (codes "correct horse")
          tables
          (record tables { users = record user_row { disabled_at = some 8 } ∷ [] })
        ≡ ok none)
unfolding computed
login_refused = (refl, refl, refl)

login_sound_example :
    Admits crypto 9 fresh (codes "ann@example.com") (codes "correct horse") tables tables logged_in
    × (length (select (active_of 9 1) after_login) ≤ 5)
login_sound_example =
    login_sound crypto 9 fresh (codes "ann@example.com") (codes "correct horse") tables tables
      logged_in (record tables { sessions = after_login }) (ground arith) login_test

-- the email of a registered user
abbrev registration : Registration
registration = record {
  display_name = codes " Ann ";
  email = codes "ann@example.com";
  password = codes "another horse";
  organization_name = codes "Other works";
}

fresh-IsFresh : IsFresh crypto 9 fresh registration tables
unfolding computed
fresh-IsFresh = record {
  organization = refl;
  users = ground arith;
  session = refl;
  clock = ground arith;
}

register-get_session_example :
    (result : Login) × (after : Tables) × (register crypto 9 fresh registration tables
      ≡ ok (result, after))
    × (result.session.user.role ≡ admin)
    × (get_session crypto 1000 (9 ∷ []) after ≡ some result.session)
register-get_session_example =
    register-get_session crypto 9 fresh registration tables 1000 fresh-IsFresh (ground arith)

role_permissions_mono_applied : includes (role_permissions manager) workflow_create ≡ true
role_permissions_mono_applied =
    role_permissions_mono operator manager workflow_create (ground arith) granted
  where
    granted : includes (role_permissions operator) workflow_create ≡ true
    granted = unfold includes role_permissions in refl

abbrev get_logged_in : Text → Option AuthSession
get_logged_in token = get_session crypto 10 token (record tables { sessions = after_login })

abbrev posted : Request
posted = record {
  method = codes "POST";
  session_cookie = some (9 ∷ []);
  origin = some (codes "https://app.example.com");
}

abbrev context : AuthenticatedContext
context = record { session = logged_in.session; permissions = role_permissions operator }

passes :
    (do c ← require_authenticated get_logged_in posted; require_permission c workflow_create)
    ≡ ok context
unfolding computed
passes = refl

require_permission_sound_example :
    (token : Text) × (posted.session_cookie ≡ some token)
    × (get_logged_in token ≡ some context.session)
    × (includes (role_permissions context.user.role) workflow_create ≡ true)
require_permission_sound_example =
    require_permission_sound get_logged_in posted workflow_create context passes

abbrev site : Text
site = codes "https://app.example.com"

assert_trusted_origin_iff_example :
    (assert_trusted_origin (some site) posted ≡ ok tt)
    ↔ ((s : Text) × IsSite (some site) posted.origin s)
assert_trusted_origin_iff_example = assert_trusted_origin_iff (some site) posted unsafe
  where
    unsafe : is_safe_method (codes "POST") ≡ false
    unsafe = unfold is_safe_method text_eq in refl

login_succeeds_example :
    (result : Login) × (after : Tables) × (login crypto 9 fresh
        (codes "ann@example.com")
        (codes "correct horse")
        tables
        tables
      ≡ ok (some (result, after)))
    × (result.session.user ≡ to_user user_row (record { id = 4; name = codes "Works" }))
    × (result.session_token ≡ fresh.token)
    × (after.users ≡ tables.users)
login_succeeds_example =
    login_succeeds crypto 9 fresh (codes "ann@example.com") (codes "correct horse") tables user_row
      (record { id = 4; name = codes "Works" }) (tt, tt) candidate verified home free
  where
    candidate :
        first (select (is_candidate crypto (codes "ann@example.com")) tables.users) ≡ some user_row
    candidate = unfold computed in refl

    verified : crypto.verify_password (codes "correct horse") user_row.password_hash ≡ true
    verified = unfold computed in refl

    home :
        first (select (λ p. p.id == user_row.organization_id) tables.organizations)
        ≡ some (record { id = 4; name = codes "Works" })
    home = unfold computed in refl

    free :
        any
          (clashes (session_row 9 fresh.session user_row.id (crypto.digest fresh.token)))
          tables.sessions
        ≡ false
    free = unfold computed in refl

-- a session of user 2 is opened, and logged out of
abbrev opened : List SessionRow
opened = session_row 5 1 2 (digest (9 ∷ [])) ∷ []

opened_test : create_bounded_session 5 1 2 (digest (9 ∷ [])) [] ≡ ok (28800000005, opened)
unfolding computed
opened_test = refl

reached : Reachable digest 8 (revoke_session digest 8 (9 ∷ []) opened)
reached =
    next (next start (opens 1 2 28800000005 (digest (9 ∷ [])) (ground arith) opened_test))
      (logs_out (9 ∷ []) (ground arith))

Reachable-IsBounded_example : IsBounded digest 8 (revoke_session digest 8 (9 ∷ []) opened)
Reachable-IsBounded_example = Reachable-IsBounded digest reached
