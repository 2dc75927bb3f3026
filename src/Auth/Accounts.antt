-- ===== src/Auth/Accounts.antt =====
-- Registration, login and session lookup of src/auth/repository.ts, over the three tables of
-- migrations/001_auth.sql. Password hashing, digests, `lower` of PostgreSQL and the driver's dates
-- are parameters.
pub mod Laws
pub mod Access
use virexa_backend.Base.{
  ℕ, Bool, true, false, ◌&&◌, ◌||◌, not, Option, none, some, List, [], ◌∷◌, ◌==◌, any, first,
  is_some, if◌then◌else◌, Outcome, ok, throws, ◌>>=◌,
}
use virexa_backend.Base.Text.{Text, text_eq, trim}
use virexa_backend.Base.Sql.{select}
use virexa_backend.Auth.{UserRole, admin, UserSummary, AuthSession}
use virexa_backend.Auth.Sessions.{
  SessionRow, SessionError, create_bounded_session, is_active, has_token, newest,
}

pub record Crypto : Type 0 where
  -- `hashPassword` with the random salt that it draws, and `verifyPassword`
  pub hash_password : Text → Text → Text
  pub verify_password : Text → Text → Bool
  -- SHA-256, in hexadecimal
  pub digest : Text → Text
  -- `lower` of PostgreSQL
  pub lower : Text → Text
  -- the driver: a `timestamptz` as a `Date`
  pub to_date : ℕ → ℕ

pub record OrganizationRow : Type 0 where
  pub id : ℕ
  pub name : Text

pub record UserRow : Type 0 where
  pub id : ℕ
  pub organization_id : ℕ
  pub email : Text
  pub display_name : Text
  pub password_hash : Text
  pub role : UserRole
  pub disabled_at : Option ℕ

pub record Tables : Type 0 where
  pub organizations : List OrganizationRow
  pub users : List UserRow
  pub sessions : List SessionRow

pub data AccountError : Type 0 where
  -- the error 23505 of a constraint
  unique_violation : AccountError

pub record Registration : Type 0 where
  pub display_name : Text
  pub email : Text
  pub password : Text
  pub organization_name : Text

-- What the server and the database generate during a call.
pub record Fresh : Type 0 where
  pub organization : ℕ
  pub user : ℕ
  pub session : ℕ
  pub token : Text
  pub salt : Text

pub record Login : Type 0 where
  pub session : AuthSession
  pub session_token : Text

abbrev pub to_user : UserRow → OrganizationRow → UserSummary
to_user u o = record {
  id = u.id;
  email = u.email;
  display_name = u.display_name;
  role = u.role;
  organization_id = u.organization_id;
  organization_name = o.name;
}

module _ (crypto : Crypto) where
  -- PRIMARY KEY (id), and UNIQUE (organization_id, lower(email))
  abbrev pub user_clashes : UserRow → UserRow → Bool
  user_clashes u v =
      u.id == v.id
      || (u.organization_id == v.organization_id
          && text_eq (crypto.lower u.email) (crypto.lower v.email))

  abbrev pub registered_user : Registration → Fresh → UserRow
  registered_user input fresh = record {
    id = fresh.user;
    organization_id = fresh.organization;
    email = crypto.lower input.email;
    display_name = trim input.display_name;
    password_hash = crypto.hash_password input.password fresh.salt;
    role = admin;
    disabled_at = none;
  }

  abbrev pub registered_organization : Registration → Fresh → OrganizationRow
  registered_organization input fresh = record {
    id = fresh.organization;
    name = trim input.organization_name;
  }

  insert_organization : OrganizationRow → Tables → Outcome AccountError Tables
  insert_organization o t =
      if any (λ p. o.id == p.id) t.organizations
      then throws unique_violation
      else ok (record t { organizations = o ∷ t.organizations })

  insert_user : UserRow → Tables → Outcome AccountError Tables
  insert_user u t =
      if any (user_clashes u) t.users
      then throws unique_violation
      else ok (record t { users = u ∷ t.users })

  -- `createBoundedSession`, with its result as a login
  unfoldable pub open_session :
      ℕ → Fresh → UserRow → OrganizationRow → Tables → Outcome AccountError (Login × Tables)
  open_session now fresh u o t =
      elim (create_bounded_session now fresh.session u.id (crypto.digest fresh.token) t.sessions) [
        | throws e ↦ throws unique_violation
        | ok (expires, sessions) ↦ ok (
          record {
            session = record { user = to_user u o; expires_at = crypto.to_date expires };
            session_token = fresh.token;
          },
          record t { sessions = sessions },
        )
      ]

  -- The statements between BEGIN and COMMIT; a throw rolls them back.
  unfoldable pub register :
      ℕ → Fresh → Registration → Tables → Outcome AccountError (Login × Tables)
  unfolding insert_organization insert_user open_session
  register now fresh input t = do
    let o = registered_organization input fresh
    let u = registered_user input fresh
    t₁ ← insert_organization o t
    t₂ ← insert_user u t₁
    open_session now fresh u o t₂

  abbrev pub is_candidate : Text → UserRow → Bool
  is_candidate email u = text_eq u.email (crypto.lower email) && not (is_some u.disabled_at)

  abbrev pub is_unchanged : UserRow → UserRow → Bool
  is_unchanged candidate u =
      u.id == candidate.id
      && not (is_some u.disabled_at)
      && text_eq u.password_hash candidate.password_hash

  unfoldable pub organization_of : UserRow → Tables → Option OrganizationRow
  organization_of u t = first (select (λ o. o.id == u.organization_id) t.organizations)

  -- the transaction of `login`, over the tables at that time
  unfoldable pub relogin :
      ℕ → Fresh → UserRow → Tables → Outcome AccountError (Option (Login × Tables))
  unfolding organization_of open_session
  relogin now fresh candidate t = elim (first (select (is_unchanged candidate) t.users)) [
    | none ↦ ok none
    | some u ↦ elim (organization_of u t) [
      | none ↦ ok none
      | some o ↦ do opened ← open_session now fresh u o t; ok (some opened)
    ]
  ]

  -- The candidate is read before the password is checked; `t` holds the tables at that time, and
  -- `t'` those at the transaction. Null is a refused login.
  unfoldable pub login :
      ℕ → Fresh → Text → Text → Tables → Tables → Outcome AccountError (Option (Login × Tables))
  unfolding relogin
  login now fresh email password t t' = elim (first (select (is_candidate email) t.users)) [
    | none ↦ ok none
    | some candidate ↦
        if crypto.verify_password password candidate.password_hash
        then relogin now fresh candidate t'
        else ok none
  ]

  session_user : SessionRow → Tables → Option UserRow
  session_user s t = first (select (λ u. u.id == s.user_id && not (is_some u.disabled_at)) t.users)

  session_view : ℕ → SessionRow → UserRow → Option OrganizationRow → Option AuthSession
  session_view now s u none = none
  session_view now s u (some o) =
      some (record { user = to_user u o; expires_at = crypto.to_date s.expires_at })

  -- The join of a session with its user and that user's organization: each is found by a key.
  unfoldable pub get_session : ℕ → Text → Tables → Option AuthSession
  unfolding session_user session_view organization_of
  get_session now token t =
      elim (first (select (λ s. has_token crypto.digest token s && is_active now s) t.sessions)) [
        | none ↦ none
        | some s ↦ elim (session_user s t) [
          | none ↦ none
          | some u ↦ session_view now s u (organization_of u t)
        ]
      ]
