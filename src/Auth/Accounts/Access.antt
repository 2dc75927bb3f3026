-- ===== src/Auth/Accounts/Access.antt =====
-- That an account can be used: a login with the right password succeeds.
use virexa_backend.Base.{
  ℕ, ◌+◌, ◌≡◌, ◌≢◌, refl, arith, Bool, true, false, some, List, [], ◌∷◌, ◌==◌, ==_refl, any, first,
  ok, Bool-cases, inl, inr,
}
use virexa_backend.Base.Text.{Text, text_eq_refl}
use virexa_backend.Base.Sql.{select, IsKeyed, first-select-holds}
use virexa_backend.Base.Sql.Rows.{All-found}
use virexa_backend.Auth.Sessions.{clashes, session_row}
use virexa_backend.Auth.Sessions.Bound.{create_bounded_session-succeeds}
use virexa_backend.Auth.Accounts.{
  Crypto, Fresh, Login, OrganizationRow, UserRow, Tables, is_candidate, is_unchanged, to_user,
  organization_of, open_session, relogin, login,
}

module _ {A : Type 0} where
  -- a row that was found is found again by its key
  pub select-again :
      (key : A → ℕ) (p q : A → Bool) (xs : List A) (x : A)
      → IsKeyed key xs
      → first (select p xs) ≡ some x
      → ((y : A) → q y ≡ true → key y ≡ key x)
      → q x ≡ true
      → first (select q xs) ≡ some x
  unfolding select
  select-again key p q [] x keyed e only holds = cc
  select-again key p q (y ∷ ys) x (apart, keyed) e only holds = elim (Bool-cases (p y)) [
    | inl here ↦ let same : y ≡ x = ground (arith, here) in ground (arith, same, holds)
    | inr other ↦
        let later : first (select p ys) ≡ some x = ground (arith, other) in
        let apart_x = All-found (λ z. key y ≢ key z) p ys x apart later in
        ground (arith, only y, apart_x, select-again key p q ys x keyed later only holds)
  ]

module _ (crypto : Crypto) (now : ℕ) (fresh : Fresh) where
  -- A login with the password of an enabled account succeeds, as its user, where the identifiers of
  -- users are distinct, the account is the first with the email, its organization exists, no other
  -- request changes the tables, and the identifier and the token of the new session are not taken.
  pub login_succeeds :
      (email password : Text) (t : Tables) (u : UserRow) (o : OrganizationRow)
      → IsKeyed (λ v. v.id) t.users
      → first (select (is_candidate crypto email) t.users) ≡ some u
      → crypto.verify_password password u.password_hash ≡ true
      → first (select (λ p. p.id == u.organization_id) t.organizations) ≡ some o
      → any (clashes (session_row now fresh.session u.id (crypto.digest fresh.token))) t.sessions
        ≡ false
      → (result : Login) × (after : Tables) × (login crypto now fresh email password t t
          ≡ ok (some (result, after)))
        × (result.session.user ≡ to_user u o)
        × (result.session_token ≡ fresh.token)
        × (after.users ≡ t.users)
  unfolding login relogin organization_of open_session
  login_succeeds email password t u o keyed found verified home free =
      let enabled = first-select-holds (is_candidate crypto email) t.users u found in
      let again =
        select-again (λ v. v.id) (is_candidate crypto email) (is_unchanged crypto u) t.users u keyed
          found (λ v h. ground arith)
          (ground (arith, enabled, ==_refl u.id, text_eq_refl u.password_hash)) in
      let (sessions, made) =
        create_bounded_session-succeeds now fresh.session u.id (crypto.digest fresh.token)
          t.sessions free in
      (
        record {
          session = record { user = to_user u o; expires_at = crypto.to_date (now + 28800000000) };
          session_token = fresh.token;
        },
        record t { sessions = sessions },
        ground (arith, found, verified, again, home, made),
        refl,
        refl,
        refl,
      )
