-- ===== src/Audit/Listing.antt =====
-- listForOrganization of src/audit/service.ts and the audit route of src/audit/routes.ts (also
-- src/app.ts:64, with another body).
use virexa_backend.Base.{
  ℕ, ◌≤◌, ◌≡◌, refl, arith, Bool, true, Option, some, List, [], ◌∷◌, map, All, length, ltb, ◌==◌,
  if◌then◌else◌, Outcome, ok, ◌>>=◌, Outcome-cases, Option-cases, inl, inr,
}
use virexa_backend.Auth.{AuthenticatedContext, audit_read}
use virexa_backend.Audit.{AuditEventInput}
use virexa_backend.Http.{Incoming, Failure, Reply, parsed, reader}
use virexa_backend.Http.Laws.{IsCaller, reader_sound}
use virexa_backend.Paging.{Position}
use virexa_backend.Paging.Recent.{recent, recent-IsRecent}

-- a row of audit_events; the query leaves the order of rows with one date open, and `tie` fixes it
pub record AuditEvent : Type 0 where
  pub id : ℕ
  pub input : AuditEventInput
  pub created_at : ℕ
  pub tie : ℕ

abbrev pub position : AuditEvent → Position
position e = record { stamp = e.created_at; id = e.tie }

abbrev pub in_organization : ℕ → AuditEvent → Bool
in_organization organization e = e.input.organization_id == organization

-- `Math.min(Math.max(Math.trunc(limit), 1), 100)`
unfoldable pub safe_limit : ℕ → ℕ
safe_limit limit =
    let least = if ltb limit 1 then 1 else limit in if ltb 100 least then 100 else least

module _ (to_date : ℕ → ℕ) where
  abbrev map_event : AuditEvent → AuditEvent
  map_event e = record e { created_at = to_date e.created_at }

  unfoldable pub list_for_organization : ℕ → ℕ → List AuditEvent → List AuditEvent
  unfolding recent safe_limit
  list_for_organization organization limit rows =
      map map_event (recent position (in_organization organization) (safe_limit limit) rows)

  unfoldable pub get_audit_events :
      Incoming → Option ℕ → List AuditEvent → Outcome Failure (Reply (List AuditEvent))
  unfolding list_for_organization
  get_audit_events incoming limit rows = do
    context ← reader incoming audit_read
    n ← parsed limit
    ok (record { status = 200; body = list_for_organization context.user.organization_id n rows })

  map_keeps :
      (organization : ℕ) (rows : List AuditEvent)
      → All (λ e. in_organization organization e ≡ true) rows
      → All (λ e. e.input.organization_id ≡ organization) (map map_event rows)
        × (length (map map_event rows) ≡ length rows)
  map_keeps organization [] h = (tt, refl)
  map_keeps organization (e ∷ rows) h = ground (arith, map_keeps organization rows h.1)

  -- the events that a caller gets
  pub record Shows (incoming : Incoming) (limit : Option ℕ) (shown : List AuditEvent) : Type 0 where
    pub context : AuthenticatedContext
    pub caller : IsCaller incoming audit_read context
    pub own : All (λ e. e.input.organization_id ≡ context.user.organization_id) shown
    pub asked : ℕ
    pub given : limit ≡ some asked
    pub bounded : length shown ≤ safe_limit asked
    pub at_most : length shown ≤ 100

  -- When the audit events are shown, the session's role may read them, they are all of its
  -- organization, and there are at most as many as asked for, or one where none are asked for, and
  -- never more than 100.
  pub get_audit_events_sound :
      (incoming : Incoming) (limit : Option ℕ) (rows : List AuditEvent)
      (reply : Reply (List AuditEvent))
      → get_audit_events incoming limit rows ≡ ok reply
      → Shows incoming limit reply.body
  unfolding get_audit_events list_for_organization safe_limit
  get_audit_events_sound incoming limit rows reply h =
      elim (Outcome-cases (reader incoming audit_read)) [
        | inr (e, refused) ↦ absurd (ground (arith, refused))
        | inl (context, passed) ↦ elim (Option-cases limit) [
          | inl malformed ↦ absurd (ground (arith, passed, malformed))
          | inr (n, given) ↦
              let organization = context.user.organization_id in
              let told : list_for_organization organization n rows ≡ reply.body =
                ground (arith, passed, given) in
              let shown = recent position (in_organization organization) (safe_limit n) rows in
              let all =
                recent-IsRecent position (in_organization organization) (safe_limit n) rows in
              let (own, same) = map_keeps organization shown all.scoped in
              let counted : length (list_for_organization organization n rows) ≤ safe_limit n =
                ground (arith, same, all.bounded) in
              record {
                context = context;
                caller = reader_sound incoming audit_read context passed;
                own = rw (← told) own;
                asked = n;
                given = given;
                bounded = rw (← told) counted;
                at_most = rw (← told) (ground (arith, counted));
              }
        ]
      ]
