-- ===== src/Auth/Sessions/Reachable.antt =====
-- The session tables that the methods of src/auth/repository.ts can make, one after the other, from
-- no session at all. The calls take effect in the order of their now(), the start of the
-- transaction. Two transactions whose writes come in the other order are not covered.
use virexa_backend.Base.{
  ℕ, ◌≤◌, ◌≡◌, refl, arith, Bool, ◌&&◌, not, List, [], ◌∷◌, ◌==◌, length, Bool-cases, ok, inl, inr,
}
use virexa_backend.Base.Text.{Text}
use virexa_backend.Base.Sql.{select, update, member, IsKeyed, IsKeyed-update}
use virexa_backend.Base.Sql.Rows.{length-select_mono}
use virexa_backend.Auth.Sessions.{
  SessionRow, is_active, active_of, revoke, session_row, newest, revoke_surplus,
  create_bounded_session, revoke_session, revoke_owned_session, revoke_other_sessions,
}
use virexa_backend.Auth.Sessions.Bound.{
  any-clashes, create_bounded_session-bound, create_bounded_session-others,
  create_bounded_session-eq-ok,
}

module _ (digest : Text → Text) where
  -- one call that changes the table, from the time of the last one to its own
  pub data Step : ℕ → List SessionRow → ℕ → List SessionRow → Type 0 where
    opens :
        {last now : ℕ} {sessions after : List SessionRow} (id user expires : ℕ) (digested : Text)
        → last ≤ now
        → create_bounded_session now id user digested sessions ≡ ok (expires, after)
        → Step last sessions now after
    logs_out :
        {last now : ℕ} {sessions : List SessionRow} (token : Text)
        → last ≤ now
        → Step last sessions now (revoke_session digest now token sessions)
    ends :
        {last now : ℕ} {sessions : List SessionRow} (token : Text) (id : ℕ)
        → last ≤ now
        → Step last sessions now (revoke_owned_session digest now token id sessions).1
    ends_others :
        {last now : ℕ} {sessions : List SessionRow} (token : Text)
        → last ≤ now
        → Step last sessions now (revoke_other_sessions digest now token sessions).1

  pub data Reachable : ℕ → List SessionRow → Type 0 where
    start : Reachable 0 []
    next :
        {last now : ℕ} {sessions after : List SessionRow}
        → Reachable last sessions
        → Step last sessions now after
        → Reachable now after

  -- distinct identifiers, and at most five active sessions for each user
  pub record IsBounded (now : ℕ) (sessions : List SessionRow) : Type 0 where
    pub keyed : IsKeyed (λ s. s.id) sessions
    pub few : (user : ℕ) → length (select (active_of now user) sessions) ≤ 5

  later_bound :
      (last now user : ℕ) (sessions : List SessionRow)
      → last ≤ now
      → length (select (active_of last user) sessions) ≤ 5
      → length (select (active_of now user) sessions) ≤ 5
  later_bound last now user sessions le few =
      let fewer =
        length-select_mono (active_of now user) (active_of last user) sessions
          (λ s h. ground arith) in
      omega (arith, fewer)

  revoked_bound :
      (now t user : ℕ) (p : SessionRow → Bool) (sessions : List SessionRow)
      → length (select (active_of now user) (update p (revoke t) sessions))
        ≤ length (select (active_of now user) sessions)
  unfolding select update
  revoked_bound now t user p [] = omega arith
  revoked_bound now t user p (s ∷ sessions) = ground (arith, revoked_bound now t user p sessions)

  -- an UPDATE that only revokes
  revoke-IsBounded :
      (last now : ℕ) (p : SessionRow → Bool) (sessions : List SessionRow)
      → last ≤ now
      → IsBounded last sessions
      → IsBounded now (update p (revoke now) sessions)
  revoke-IsBounded last now p sessions le b = record {
    keyed = IsKeyed-update (λ s. s.id) p (revoke now) sessions (λ s. refl) b.keyed;
    few = λ user.
        let before = later_bound last now user sessions le (b.few user) in
        omega (arith, before, revoked_bound now now user p sessions);
  }

  select-active :
      (now user : ℕ) (sessions : List SessionRow)
      → select (active_of now user) sessions
        ≡ select (is_active now) (select (λ s. s.user_id == user) sessions)
  unfolding select
  select-active now user [] = refl
  select-active now user (s ∷ sessions) = ground (arith, select-active now user sessions)

  create_bounded_session-IsBounded :
      (last now id user expires : ℕ) (digested : Text) (sessions after : List SessionRow)
      → last ≤ now
      → create_bounded_session now id user digested sessions ≡ ok (expires, after)
      → IsBounded last sessions
      → IsBounded now after
  unfolding revoke_surplus
  create_bounded_session-IsBounded last now id user expires digested sessions after le h b =
      let row = session_row now id user digested in
      let (free, _, same) =
        create_bounded_session-eq-ok now id user digested sessions expires after h in
      record {
        keyed = rw same (
            IsKeyed-update (λ s. s.id)
              (λ s. active_of now user s && not (member (newest now user (row ∷ sessions)) s.id))
              (revoke now) (row ∷ sessions) (λ s. refl) (any-clashes row sessions free, b.keyed));
        few = λ other. elim (Bool-cases (other == user)) [
          | inl own ↦
              let bound =
                create_bounded_session-bound now id user digested sessions expires after b.keyed
                  h in
              ground (arith, own, bound)
          | inr differs ↦
              let kept =
                create_bounded_session-others now id user digested sessions other expires after
                  (ground arith) h in
              let seen = select-active now other after in
              let seen_before = select-active now other sessions in
              let before = later_bound last now other sessions le (b.few other) in
              rw (seen, kept, ← seen_before) before
        ];
      }

  Step-IsBounded :
      {last now : ℕ} {sessions after : List SessionRow}
      → Step last sessions now after
      → IsBounded last sessions
      → IsBounded now after
  unfolding revoke_session revoke_owned_session revoke_other_sessions
  Step-IsBounded {last} {now} {sessions} {after} (opens id user expires digested le h) b =
      create_bounded_session-IsBounded last now id user expires digested sessions after le h b
  Step-IsBounded {last} {now} {sessions} (logs_out token le) b =
      revoke-IsBounded last now _ sessions le b
  Step-IsBounded {last} {now} {sessions} (ends token id le) b =
      revoke-IsBounded last now _ sessions le b
  Step-IsBounded {last} {now} {sessions} (ends_others token le) b =
      revoke-IsBounded last now _ sessions le b

  -- Whatever calls made the session table, one after the other, where no call's now() is before that
  -- of the call before it: no user has more than five active sessions, at the time of the last call,
  -- and no two sessions have one identifier.
  pub Reachable-IsBounded :
      {now : ℕ} {sessions : List SessionRow} → Reachable now sessions → IsBounded now sessions
  unfolding select
  Reachable-IsBounded start = record { keyed = tt; few = λ user. omega arith }
  Reachable-IsBounded (next r step) = Step-IsBounded step (Reachable-IsBounded r)
