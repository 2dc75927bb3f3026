-- ===== src/Http/Laws.antt =====
-- What the guards of src/auth/context.ts and src/auth/origin-guard.ts establish for a handler, and
-- what a handler that changes state does besides its call of the repository.
use virexa_backend.Base.{
  ◌≡◌, refl, ℕ, true, arith, List, ◌∷◌, Outcome, ok, throws, Outcome-cases, inl, inr, Option-cases,
  Bool-cases,
}
use virexa_backend.Base.Text.{present}
use virexa_backend.Auth.{
  AuthenticatedContext, Permission, includes, role_permissions, with_session, require_authenticated,
  require_permission, assert_trusted_origin,
}
use virexa_backend.Audit.{AuditEventInput}
use virexa_backend.Http.{Incoming, Failure, Reply, World, reader, writer, answer, mutate}

-- a caller whose session's role has the permission
pub record IsCaller (incoming : Incoming) (p : Permission) (context : AuthenticatedContext)
    : Type 0 where
  pub known : require_authenticated incoming.get_session incoming.request ≡ ok context
  pub permitted : includes (role_permissions context.user.role) p ≡ true

module _ (incoming : Incoming) (p : Permission) (context : AuthenticatedContext) where
  known_permissions :
      require_authenticated incoming.get_session incoming.request ≡ ok context
      → context.permissions ≡ role_permissions context.user.role
  unfolding require_authenticated with_session
  known_permissions h = elim (Option-cases (present incoming.request.session_cookie)) [
    | inl none_sent ↦ absurd (ground (arith, none_sent))
    | inr (token, sent) ↦ elim (Option-cases (incoming.get_session token)) [
      | inl unknown ↦ absurd (ground (arith, sent, unknown))
      | inr (session, found) ↦ ground (arith, sent, found)
    ]
  ]

  pub reader_sound : reader incoming p ≡ ok context → IsCaller incoming p context
  unfolding reader require_permission
  reader_sound h =
      elim (Outcome-cases (require_authenticated incoming.get_session incoming.request)) [
        | inr (e, unknown) ↦ absurd (ground (arith, unknown))
        | inl (c, known) ↦ elim (Bool-cases (includes c.permissions p)) [
          | inr denied ↦ absurd (ground (arith, known, denied))
          | inl permitted ↦
              let same : c ≡ context = ground (arith, known, permitted) in
              let here : require_authenticated incoming.get_session incoming.request ≡ ok context =
                ground (arith, known, same) in
              record {
                known = here;
                permitted = ground (arith, known_permissions here, permitted, same);
              }
        ]
      ]

  pub writer-reader :
      writer incoming p ≡ ok context
      → (assert_trusted_origin incoming.configured_origin incoming.request ≡ ok tt)
        × (reader incoming p ≡ ok context)
  unfolding writer reader
  writer-reader h =
      elim (Outcome-cases (assert_trusted_origin incoming.configured_origin incoming.request)) [
        | inr (e, untrusted) ↦ absurd (ground (arith, untrusted))
        | inl (u, trusted) ↦ (trusted, ground (arith, trusted))
      ]

answer_tables :
    {E A R : Type 0} (failure : E → Failure) (status : ℕ) (event : A → AuditEventInput)
    (r : Outcome E A × R) (audit : List AuditEventInput)
    → (answer failure status event r audit).1.tables ≡ r.1
unfolding answer
answer_tables failure status event (ok a, tables) audit = refl
answer_tables failure status event (throws e, tables) audit = refl

module _ {In E A R : Type 0} (checks : Outcome Failure In) (call : In → Outcome E A × R)
    (failure : E → Failure) (status : ℕ) (event : In → A → AuditEventInput) (w : World R) where
  -- a handler that succeeded
  pub record Succeeds (reply : Reply A) (after : World R) : Type 0 where
    pub input : In
    pub passed : checks ≡ ok input
    pub called : call input ≡ (ok reply.body, after.tables)
    pub answered : reply.status ≡ status
    pub audited : after.audit ≡ event input reply.body ∷ w.audit

  pub mutate_success :
      (reply : Reply A) (after : World R)
      → mutate checks call failure status event w ≡ (ok reply, after)
      → Succeeds reply after
  unfolding mutate answer
  mutate_success reply after h = elim (Outcome-cases checks) [
    | inr (e, refused) ↦ absurd (ground (arith, refused))
    | inl (input, passed) ↦ elim (Outcome-cases (call input).0) [
      | inr (e, failed) ↦ absurd (ground (arith, passed, failed))
      | inl (a, called) ↦ record {
        input = input;
        passed = passed;
        called = ground (arith, passed, called);
        answered = ground (arith, passed, called);
        audited = ground (arith, passed, called);
      }
    ]
  ]

  -- A handler that fails records no event.
  pub mutate_failure :
      (refusal : Failure) (after : World R)
      → mutate checks call failure status event w ≡ (throws refusal, after)
      → after.audit ≡ w.audit
  unfolding mutate answer
  mutate_failure refusal after h = elim (Outcome-cases checks) [
    | inr (e, refused) ↦ ground (arith, refused)
    | inl (input, passed) ↦ elim (Outcome-cases (call input).0) [
      | inr (e, failed) ↦ ground (arith, passed, failed)
      | inl (a, called) ↦ absurd (ground (arith, passed, called))
    ]
  ]

  -- What the calls of the repository keep of its tables, the handler keeps.
  pub mutate_keeps :
      (Keeps : R → Type 0)
      → Keeps w.tables
      → ((input : In) → checks ≡ ok input → Keeps (call input).1)
      → Keeps (mutate checks call failure status event w).1.tables
  unfolding mutate answer
  mutate_keeps Keeps start kept = elim (Outcome-cases checks) [
    | inr (e, refused) ↦ rw refused start
    | inl (input, passed) ↦
        rw (passed, answer_tables failure status (event input) (call input) w.audit)
          (kept input passed)
  ]
