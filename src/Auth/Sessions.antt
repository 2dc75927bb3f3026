-- ===== src/Auth/Sessions.antt =====
-- The session table of src/auth/repository.ts: creation with a bound, lookup, inventory and
-- revocation. `now` is PostgreSQL's now(), which is the start of the transaction, in
-- microseconds. A token is known by
-- its digest alone; SHA-256 is the argument `digest`.
pub mod Bound
pub mod Revocation
pub mod Reachable
use virexa_backend.Base.{
  ℕ, ◌+◌, ◌*◌, Bool, true, false, ◌&&◌, ◌||◌, not, Option, none, some, List, [], ◌∷◌, map, ◌++◌,
  ltb, ◌==◌, take, length, any, first, is_some, if◌then◌else◌, Outcome, ok, throws,
}
use virexa_backend.Base.Text.{Text, text_eq}
use virexa_backend.Base.Sql.{select, update, returning, member}
use virexa_backend.Paging.{Position, order_desc}

pub record SessionRow : Type 0 where
  pub id : ℕ
  pub user_id : ℕ
  pub token_digest : Text
  pub expires_at : ℕ
  pub revoked_at : Option ℕ
  pub created_at : ℕ

pub record SessionSummary : Type 0 where
  pub id : ℕ
  pub created_at : ℕ
  pub expires_at : ℕ
  pub current : Bool

abbrev pub session_lifetime_hours : ℕ
session_lifetime_hours = 8

abbrev pub max_active_sessions_per_user : ℕ
max_active_sessions_per_user = 5

abbrev pub microseconds_per_hour : ℕ
microseconds_per_hour = 3600000000

-- `revoked_at IS NULL AND expires_at > now()`
abbrev pub is_active : ℕ → SessionRow → Bool
is_active now s = not (is_some s.revoked_at) && ltb now s.expires_at

-- `user_id = (SELECT …)`: a comparison with NULL is not true
abbrev pub owned_by : Option ℕ → SessionRow → Bool
owned_by none s = false
owned_by (some u) s = s.user_id == u

abbrev pub revoke : ℕ → SessionRow → SessionRow
revoke now s = record s { revoked_at = some now }

abbrev pub position : SessionRow → Position
position s = record { stamp = s.created_at; id = s.id }

abbrev pub active_of : ℕ → ℕ → SessionRow → Bool
active_of now user s = s.user_id == user && is_active now s

-- the ids of the subquery with ORDER BY created_at DESC, id DESC LIMIT 5
unfoldable pub newest : ℕ → ℕ → List SessionRow → List ℕ
unfolding select order_desc
newest now user sessions =
    map (λ s. s.id)
      (take max_active_sessions_per_user
        (order_desc position (select (active_of now user) sessions)))

unfoldable pub revoke_surplus : ℕ → ℕ → List SessionRow → List SessionRow
unfolding newest update member
revoke_surplus now user sessions =
    let kept = newest now user sessions in
    update (λ s. active_of now user s && not (member kept s.id)) (revoke now) sessions

-- The row of INSERT INTO sessions; `id` and the token are generated, `created_at` is now().
abbrev pub session_row : ℕ → ℕ → ℕ → Text → SessionRow
session_row now id user digested = record {
  id = id;
  user_id = user;
  token_digest = digested;
  expires_at = now + session_lifetime_hours * microseconds_per_hour;
  revoked_at = none;
  created_at = now;
}

pub data SessionError : Type 0 where
  duplicate_session : SessionError

-- PRIMARY KEY (id) and UNIQUE (token_digest)
abbrev pub clashes : SessionRow → SessionRow → Bool
clashes s t = s.id == t.id || text_eq s.token_digest t.token_digest

-- createBoundedSession, in the transaction of its caller: the result is the expiry.
unfoldable pub create_bounded_session :
    ℕ → ℕ → ℕ → Text → List SessionRow → Outcome SessionError (ℕ × List SessionRow)
unfolding revoke_surplus
create_bounded_session now id user digested sessions =
    let row = session_row now id user digested in
    if any (clashes row) sessions
    then throws duplicate_session
    else ok (row.expires_at, revoke_surplus now user (row ∷ sessions))

module _ (digest : Text → Text) where
  abbrev pub has_token : Text → SessionRow → Bool
  has_token token s = text_eq s.token_digest (digest token)

  -- SELECT user_id … WHERE token_digest = $1 AND revoked_at IS NULL AND expires_at > now()
  unfoldable pub owner : ℕ → Text → List SessionRow → Option ℕ
  unfolding select
  owner now token sessions =
      elim (first (select (λ s. has_token token s && is_active now s) sessions)) [
        | none ↦ none
        | some s ↦ some s.user_id
      ]

  summary : (ℕ → ℕ) → Text → SessionRow → SessionSummary
  summary to_date token s = record {
    id = s.id;
    created_at = to_date s.created_at;
    expires_at = to_date s.expires_at;
    current = has_token token s;
  }

  -- ORDER BY current DESC, created_at DESC, id DESC: the digest is unique, so at most one row is
  -- current, and it comes first.
  unfoldable pub list_active_sessions : (ℕ → ℕ) → ℕ → Text → List SessionRow → List SessionSummary
  unfolding owner select order_desc summary
  list_active_sessions to_date now token sessions =
      let who = owner now token sessions in
      let rows = select (λ s. owned_by who s && is_active now s) sessions in
      map (summary to_date token) (
        order_desc position (select (has_token token) rows)
        ++ order_desc position (select (λ s. not (has_token token s)) rows))

  unfoldable pub revoke_session : ℕ → Text → List SessionRow → List SessionRow
  unfolding update
  revoke_session now token sessions =
      update (λ s. has_token token s && not (is_some s.revoked_at)) (revoke now) sessions

  pub record Revoked : Type 0 where
    pub revoked : Bool
    pub current : Bool

  abbrev pub is_target : ℕ → Text → ℕ → List SessionRow → SessionRow → Bool
  is_target now token id sessions s =
      s.id == id && owned_by (owner now token sessions) s && is_active now s

  unfoldable pub revoke_owned_session : ℕ → Text → ℕ → List SessionRow → Revoked × List SessionRow
  unfolding update returning owner
  revoke_owned_session now token id sessions =
      let row = first (returning (is_target now token id sessions) (revoke now) sessions) in
      (
        record {
          revoked = is_some row;
          current = elim row [ none ↦ false | some s ↦ has_token token s ];
        },
        update (is_target now token id sessions) (revoke now) sessions,
      )

  abbrev pub is_other : ℕ → Text → List SessionRow → SessionRow → Bool
  is_other now token sessions s =
      owned_by (owner now token sessions) s && not (has_token token s) && is_active now s

  -- the number of revoked sessions, and the table
  unfoldable pub revoke_other_sessions : ℕ → Text → List SessionRow → ℕ × List SessionRow
  unfolding update owner select
  revoke_other_sessions now token sessions = (
    length (select (is_other now token sessions) sessions),
    update (is_other now token sessions) (revoke now) sessions,
  )
