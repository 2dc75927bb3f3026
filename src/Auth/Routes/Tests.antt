-- ===== src/Auth/Routes/Tests.antt =====
-- The theorem on logouts at concrete tables.
use virexa_backend.Base.{ℕ, ◌≡◌, refl, true, none, List, [], ◌∷◌, ok, throws}
use virexa_backend.Base.Text.{Text, codes, text_eq, trim}
use virexa_backend.Base.Sql.{select, update, returning, member}
use virexa_backend.Paging.{before, order_desc, insert_desc}
use virexa_backend.Auth.{
  operator, includes, role_permissions, require_authenticated, require_permission, is_safe_method,
  assert_trusted_origin,
}
use virexa_backend.Auth.Sessions.{
  SessionRow, session_row, newest, revoke_surplus, create_bounded_session, owner, revoke_session,
  revoke_owned_session, revoke_other_sessions,
}
use virexa_backend.Auth.Accounts.{Crypto, UserRow, Tables, register, login, get_session}
use virexa_backend.Auth.{unauthenticated}
use virexa_backend.Http.{World}
use virexa_backend.Http.Concrete.{posted as admin_request}
use virexa_backend.Auth.Routes.{post_logout}
use virexa_backend.Auth.Routes.Laws.{post_logout_final}

computed : Unit {0}
unfolding select update returning member before order_desc insert_desc text_eq trim includes
    role_permissions require_authenticated require_permission assert_trusted_origin newest
    revoke_surplus create_bounded_session owner revoke_session revoke_owned_session
    revoke_other_sessions register login get_session is_safe_method post_logout
computed = tt

abbrev digest : Text → Text
digest s = 7 ∷ s

abbrev crypto : Crypto
crypto = record {
  hash_password = λ password salt. password;
  verify_password = λ password stored. text_eq password stored;
  digest = digest;
  lower = λ s. s;
  to_date = λ t. t;
}

abbrev session : ℕ → ℕ → SessionRow
session id user = session_row id id user (7 ∷ id ∷ [])

abbrev sessions : List SessionRow
sessions = session 5 1 ∷ session 4 1 ∷ session 3 1 ∷ session 2 1 ∷ session 1 1 ∷ session 6 2 ∷ []

abbrev user_row : UserRow
user_row = record {
  id = 1;
  organization_id = 4;
  email = codes "ann@example.com";
  display_name = codes "Ann";
  password_hash = codes "correct horse";
  role = operator;
  disabled_at = none;
}

abbrev tables : Tables
tables = record {
  organizations = record { id = 4; name = codes "Works" } ∷ [];
  users = user_row ∷ [];
  sessions = sessions;
}

-- a session with the cookie of the request
abbrev signed_in : Tables
signed_in = record tables { sessions = session_row 8 7 1 (digest (codes "token")) ∷ sessions }

abbrev signed_in_world : World Tables
signed_in_world = record { tables = signed_in; audit = [] }

abbrev signed_out_world : World Tables
signed_out_world = (post_logout crypto 9 admin_request signed_in signed_in_world).1

post_logout_test :
    post_logout crypto 9 admin_request signed_in signed_in_world
    ≡ (ok (record { status = 200; body = true }), signed_out_world)
unfolding computed
post_logout_test = refl

post_logout_final_example :
    require_authenticated
      (λ token. get_session crypto 1000 token signed_out_world.tables)
      admin_request.request
    ≡ throws unauthenticated
post_logout_final_example =
    post_logout_final crypto 9 1000 admin_request admin_request.request signed_in signed_in_world
      signed_out_world (record { status = 200; body = true }) post_logout_test refl
