-- ===== src/Auth/Accounts/Laws.antt =====
-- Registration opens a session that is found again; the email does not make it fail.
use virexa_backend.Base.{
  ℕ, ◌+◌, ◌<◌, ◌≤◌, length, ◌≡◌, refl, ◌≢◌, true, false, none, some, List, [], ◌∷◌, arith, ◌==◌,
  ==_refl, any, first, All, ok, Option-cases, Outcome-cases, inl, inr,
}
use virexa_backend.Base.Text.{Text, text_eq_iff}
use virexa_backend.Base.Sql.{select, first-select-holds, IsKeyed}
use virexa_backend.Auth.{admin}
use virexa_backend.Auth.Sessions.{active_of, clashes, session_row, create_bounded_session}
use virexa_backend.Auth.Sessions.Bound.{
  create_bounded_session-succeeds, create_bounded_session-bound, create_bounded_session-row,
}
use virexa_backend.Auth.Accounts.{
  Crypto, OrganizationRow, UserRow, Tables, Registration, Fresh, Login, register, get_session,
  login, registered_user, registered_organization, user_clashes, to_user, relogin, is_candidate,
  is_unchanged, organization_of, open_session,
}

module _ (crypto : Crypto) (now : ℕ) (fresh : Fresh) (input : Registration) (t : Tables) where
  -- Generated identifiers are new, organizations of users exist (so none has the new identifier),
  -- and the clock has moved on since the last session.
  pub record IsFresh : Type 0 where
    pub organization : any (λ p. fresh.organization == p.id) t.organizations ≡ false
    pub users : All (λ u. (fresh.user ≢ u.id) × (fresh.organization ≢ u.organization_id)) t.users
    pub session :
        any
          (clashes (session_row now fresh.session fresh.user (crypto.digest fresh.token)))
          t.sessions
        ≡ false
    pub clock : All (λ s. s.created_at < now) t.sessions

  no_clash :
      (users : List UserRow)
      → All (λ u. (fresh.user ≢ u.id) × (fresh.organization ≢ u.organization_id)) users
      → any (user_clashes crypto (registered_user crypto input fresh)) users ≡ false
  no_clash [] h = refl
  no_clash (u ∷ users) h = ground (arith, no_clash users h.1)

  -- Where the identifiers of the new organization and user are fresh, no stored session has the
  -- identifier or the token of the new one, and every stored session was created strictly before
  -- the registration: it succeeds, whichever emails are registered already, and in the tables that
  -- it left the token is answered, at any time before the session's expiry, with the session that
  -- the call returned, of an administrator.
  pub register-get_session :
      (later : ℕ)
      → IsFresh
      → later < now + 28800000000
      → (result : Login) × (after : Tables) × (register crypto now fresh input t
          ≡ ok (result, after))
        × (result.session.user.role ≡ admin)
        × (get_session crypto later fresh.token after ≡ some result.session)
  unfolding register get_session
  register-get_session later h soon =
      let (sessions, e) =
        create_bounded_session-succeeds now fresh.session fresh.user (crypto.digest fresh.token)
          t.sessions h.session in
      let stored =
        create_bounded_session-row now fresh.session fresh.user (crypto.digest fresh.token)
          t.sessions crypto.digest fresh.token _ sessions refl h.clock e later (omega arith) in
      (
        record {
          session = record {
            user =
                to_user (registered_user crypto input fresh)
                  (registered_organization crypto input fresh);
            expires_at = crypto.to_date (now + 28800000000);
          };
          session_token = fresh.token;
        },
        record {
          organizations = registered_organization crypto input fresh ∷ t.organizations;
          users = registered_user crypto input fresh ∷ t.users;
          sessions = sessions;
        },
        ground (arith, h.organization, no_clash t.users h.users, e),
        refl,
        unfold select in ground (arith, stored, ==_refl fresh.user, ==_refl fresh.organization),
      )

module _ (crypto : Crypto) (now : ℕ) (fresh : Fresh) where
  -- the account behind a login, as it stood at the two reads
  pub record Admits (email password : Text) (t t' : Tables) (result : Login) : Type 0 where
    pub candidate : UserRow
    pub read : first (select (is_candidate crypto email) t.users) ≡ some candidate
    pub verified : crypto.verify_password password candidate.password_hash ≡ true
    pub current : UserRow
    pub reread : first (select (is_unchanged crypto candidate) t'.users) ≡ some current
    pub same_user : result.session.user.id ≡ candidate.id
    pub enabled : current.disabled_at ≡ none
    pub same_password : current.password_hash ≡ candidate.password_hash

  is_unchanged_sound :
      (candidate u : UserRow)
      → is_unchanged crypto candidate u ≡ true
      → (u.id ≡ candidate.id) × (u.disabled_at ≡ none) × (u.password_hash ≡ candidate.password_hash)
  is_unchanged_sound candidate u h =
      ground (arith, text_eq_iff u.password_hash candidate.password_hash)

  open_session-eq-ok :
      (u : UserRow) (o : OrganizationRow) (t' : Tables) (result : Login) (after : Tables)
      → open_session crypto now fresh u o t' ≡ ok (result, after)
      → (expires : ℕ) × (result.session.user ≡ to_user u o)
        × (create_bounded_session now fresh.session u.id (crypto.digest fresh.token) t'.sessions
            ≡ ok (expires, after.sessions))
  unfolding open_session
  open_session-eq-ok u o t' result after h =
      elim (Outcome-cases
        (create_bounded_session now fresh.session u.id (crypto.digest fresh.token) t'.sessions)) [
          | inl ((expires, sessions), e) ↦ (expires, ground (arith, e), ground (arith, e))
          | inr (failure, e) ↦ absurd (ground (arith, e))
        ]

  relogin-eq-ok :
      (candidate : UserRow) (t' : Tables) (result : Login) (after : Tables)
      → relogin crypto now fresh candidate t' ≡ ok (some (result, after))
      → (u : UserRow) × (o : OrganizationRow) × (expires : ℕ) × (first
            (select (is_unchanged crypto candidate) t'.users)
          ≡ some u)
        × (result.session.user ≡ to_user u o)
        × (create_bounded_session now fresh.session u.id (crypto.digest fresh.token) t'.sessions
            ≡ ok (expires, after.sessions))
  unfolding relogin
  relogin-eq-ok candidate t' result after h =
      elim (Option-cases (first (select (is_unchanged crypto candidate) t'.users))) [
        | inl gone ↦ absurd (ground arith)
        | inr (u, e) ↦ elim (Option-cases (organization_of crypto u t')) [
          | inl lost ↦ absurd (ground (arith, e))
          | inr (o, f) ↦
              let (expires, named, made) =
                open_session-eq-ok u o t' result after (opened u o e f) in
              (u, o, expires, e, named, made)
        ]
      ]
    where
      opened :
          (u : UserRow) (o : OrganizationRow)
          → first (select (is_unchanged crypto candidate) t'.users) ≡ some u
          → organization_of crypto u t' ≡ some o
          → open_session crypto now fresh u o t' ≡ ok (result, after)
      opened u o e f = ground (arith, h, e, f)

  -- Where the sessions have distinct identifiers, a login succeeds only with the verified password
  -- of an account that was enabled, and that is still enabled with the same password in the
  -- transaction; then the user has at most five active sessions.
  pub login_sound :
      (email password : Text) (t t' : Tables) (result : Login) (after : Tables)
      → IsKeyed (λ s. s.id) t'.sessions
      → login crypto now fresh email password t t' ≡ ok (some (result, after))
      → Admits email password t t' result
        × (length (select (active_of now result.session.user.id) after.sessions) ≤ 5)
  unfolding login
  login_sound email password t t' result after keyed h =
      elim (Option-cases (first (select (is_candidate crypto email) t.users))) [
        | inl unknown ↦ absurd (ground arith)
        | inr (candidate, e) ↦
            let (u, o, expires, found, named, made) =
              relogin-eq-ok candidate t' result after (ground (arith, e)) in
            let (same_id, enabled, same_password) =
              is_unchanged_sound candidate u (first-select-holds _ t'.users u found) in
            (
              record {
                candidate = candidate;
                read = e;
                verified = ground (arith, e);
                current = u;
                reread = found;
                same_user = ground arith;
                enabled = enabled;
                same_password = same_password;
              },
              rw (named) (
                  create_bounded_session-bound now fresh.session u.id (crypto.digest fresh.token)
                    t'.sessions expires after.sessions keyed made),
            )
      ]
