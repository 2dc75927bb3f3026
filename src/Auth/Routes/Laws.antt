-- ===== src/Auth/Routes/Laws.antt =====
-- What the session routes of src/app.ts guarantee to later requests.
use virexa_backend.Base.{
  ℕ, ◌≡◌, arith, Bool, ◌&&◌, none, first, ok, throws, Outcome-cases, Option-cases, inl, inr,
}
use virexa_backend.Base.Text.{Text, present}
use virexa_backend.Base.Sql.{select}
use virexa_backend.Auth.{
  Request, unauthenticated, with_session, require_authenticated, assert_trusted_origin,
}
use virexa_backend.Auth.Sessions.{has_token, is_active, owner, revoke_session}
use virexa_backend.Auth.Sessions.Revocation.{owner-revoke_session}
use virexa_backend.Auth.Accounts.{Crypto, Tables, get_session}
use virexa_backend.Http.{Incoming, Reply, World}
use virexa_backend.Auth.Routes.{post_logout}

module _ (crypto : Crypto) where
  get_session-owner :
      (later : ℕ) (token : Text) (t : Tables)
      → owner crypto.digest later token t.sessions ≡ none
      → get_session crypto later token t ≡ none
  unfolding owner get_session
  get_session-owner later token t h =
      elim (Option-cases
        (first (select (λ s. has_token crypto.digest token s && is_active later s) t.sessions))) [
          | inl missing ↦ ground (arith, missing)
          | inr (s, found) ↦ absurd (ground (arith, found))
        ]

  -- After a logout that is answered with success, whatever other requests did between its reads and
  -- its write, a request with the same cookie is not authenticated, at any later time.
  pub post_logout_final :
      (now later : ℕ) (incoming : Incoming) (request : Request) (t : Tables)
      (w after : World Tables) (reply : Reply Bool)
      → post_logout crypto now incoming t w ≡ (ok reply, after)
      → request.session_cookie ≡ incoming.request.session_cookie
      → require_authenticated (λ token. get_session crypto later token after.tables) request
        ≡ throws unauthenticated
  unfolding post_logout require_authenticated with_session
  post_logout_final now later incoming request t w after reply h same =
      elim (Outcome-cases (assert_trusted_origin incoming.configured_origin incoming.request)) [
        | inr (e, untrusted) ↦ absurd (ground (arith, untrusted))
        | inl (u, trusted) ↦ elim (Option-cases (present incoming.request.session_cookie)) [
          | inl none_sent ↦ ground (arith, same, none_sent)
          | inr (token, sent) ↦
              let gone =
                get_session-owner later token
                  (record w.tables {
                    sessions = revoke_session crypto.digest now token w.tables.sessions;
                  })
                  (owner-revoke_session crypto.digest now token w.tables.sessions later) in
              let stored : after.tables ≡ record w.tables {
                sessions = revoke_session crypto.digest now token w.tables.sessions;
              } =
                ground (arith, trusted, sent) in
              let lost : get_session crypto later token after.tables ≡ none = rw stored gone in
              ground (arith, same, sent, lost)
        ]
      ]
