-- ===== src/Auth/Sessions/Revocation.antt =====
-- What the three revocations of src/auth/repository.ts end, and what they leave alone.
use virexa_backend.Base.{
  ℕ, ◌+◌, ◌≡◌, ◌≢◌, sym, ap, ◌∙◌, Bool, true, false, not, ◌&&◌, none, some, List, [], ◌∷◌, arith,
  ◌==◌, length, first, All, Option-cases, inl, inr, is_some, ◌⊎◌,
}
use virexa_backend.Base.Text.{Text}
use virexa_backend.Base.Sql.{select, update-none, first-returning, first-select-holds}
use virexa_backend.Base.Sql.Rows.{
  select-update_out, select-update_apart, select-imp, select-none, length-select-split,
}
use virexa_backend.Auth.Sessions.{
  SessionRow, is_active, active_of, revoke, owner, has_token, revoke_session, is_target,
  revoke_owned_session, is_other, revoke_other_sessions,
}

All-intro : {A : Type 0} {P : A → Type 0} → ((a : A) → P a) → (xs : List A) → All P xs
All-intro f [] = tt
All-intro f (x ∷ xs) = (f x, All-intro f xs)

module _ (digest : Text → Text) (now : ℕ) (token : Text) (sessions : List SessionRow) where
  -- After a logout the token is worth nothing, at any later time.
  pub owner-revoke_session :
      (later : ℕ) → owner digest later token (revoke_session digest now token sessions) ≡ none
  unfolding owner revoke_session
  owner-revoke_session later =
      let gone =
        select-update_out (λ s. has_token digest token s && is_active later s)
          (λ s. has_token digest token s && not (is_some s.revoked_at)) (revoke now) sessions
          (λ s. ground arith)
        ∙ select-none
            (λ s.
              (has_token digest token s && is_active later s)
              && not (has_token digest token s && not (is_some s.revoked_at)))
            sessions (All-intro (λ s. ground arith) sessions) in
      rw (gone, owner)

  -- Of the active sessions of its owner, revoke-others leaves exactly those of the token, and
  -- returns the number of the others; the sessions of other users are as they were.
  pub revoke_other_sessions_lem :
      (user other : ℕ)
      → owner digest now token sessions ≡ some user
      → other ≢ user
      → let (count, after) = revoke_other_sessions digest now token sessions in
        (select (active_of now user) after
          ≡ select (λ s. active_of now user s && has_token digest token s) sessions)
        × (count + length (select (active_of now user) after)
            ≡ length (select (active_of now user) sessions))
        × (select (λ s. s.user_id == other) after ≡ select (λ s. s.user_id == other) sessions)
  unfolding revoke_other_sessions
  revoke_other_sessions_lem user other e d = (left, counted, others)
    where
      left :
          select (active_of now user) (revoke_other_sessions digest now token sessions).1
          ≡ select (λ s. active_of now user s && has_token digest token s) sessions
      left =
          select-update_out (active_of now user) (is_other digest now token sessions) (revoke now)
            sessions (λ s. ground arith)
          ∙ select-imp _ _ sessions (λ s. ground (arith, e))

      counted :
          let (count, after) = revoke_other_sessions digest now token sessions in
          count + length (select (active_of now user) after)
          ≡ length (select (active_of now user) sessions)
      counted = rw (left) (
          length-select-split (is_other digest now token sessions)
            (λ s. active_of now user s && has_token digest token s) (active_of now user) sessions
            (λ s. ground (arith, e)))

      others :
          select (λ s. s.user_id == other) (revoke_other_sessions digest now token sessions).1
          ≡ select (λ s. s.user_id == other) sessions
      others =
          select-update_apart (λ s. s.user_id == other) (is_other digest now token sessions)
            (revoke now) sessions (λ s p. ground (arith, e))

  -- the sessions that a user may revoke by an id
  abbrev pub own_session : ℕ → ℕ → SessionRow → Bool
  own_session user id s = active_of now user s && s.id == id

  -- a revocation by id that found its session
  pub record Revokes (id user : ℕ) (target : SessionRow) : Type 0 where
    pub owns : owner digest now token sessions ≡ some user
    pub found : first (select (own_session user id) sessions) ≡ some target
    pub told :
        (revoke_owned_session digest now token id sessions).0
        ≡ record { revoked = true; current = has_token digest token target }
    pub ended :
        select (own_session user id) (revoke_owned_session digest now token id sessions).1 ≡ []

  is_target-owned :
      (id user : ℕ) (s : SessionRow)
      → owner digest now token sessions ≡ some user
      → is_target digest now token id sessions s ≡ own_session user id s
  is_target-owned id user s e = ground (arith, e)

  owner-is_target :
      (id : ℕ) (s : SessionRow)
      → is_target digest now token id sessions s ≡ true
      → (user : ℕ) × (owner digest now token sessions ≡ some user)
  owner-is_target id s h = elim (Option-cases (owner digest now token sessions)) [
    | inl nobody ↦ absurd (ground arith)
    | inr owns ↦ owns
  ]

  target_found :
      (id : ℕ) (target : SessionRow)
      → first (select (is_target digest now token id sessions) sessions) ≡ some target
      → (user : ℕ) × Revokes id user target
  unfolding revoke_owned_session
  target_found id target e =
      let test = is_target digest now token id sessions in
      let (user, owns) = owner-is_target id target (first-select-holds test sessions target e) in
      (
        user,
        record {
          owns = owns;
          found =
              ap first (select-imp _ _ sessions (λ s. sym (is_target-owned id user s owns))) ∙ e;
          told = ground (arith, first-returning test (revoke now) sessions);
          ended =
              select-update_out (own_session user id) test (revoke now) sessions (λ s. ground arith)
              ∙ select-none _ sessions
                  (All-intro (λ s. ground (arith, is_target-owned id user s owns)) sessions);
        },
      )

  -- Revoking a session by its id either finds an active session of the token's own user, says
  -- whether it was the current one, and leaves no active session with that id; or it reports that
  -- there is none and changes nothing.
  pub revoke_owned_session_lem :
      (id : ℕ)
      → ((user : ℕ) × (target : SessionRow) × Revokes id user target)
        ⊎ (((revoke_owned_session digest now token id sessions).0
              ≡ record { revoked = false; current = false })
            × ((revoke_owned_session digest now token id sessions).1 ≡ sessions))
  unfolding revoke_owned_session
  revoke_owned_session_lem id =
      let test = is_target digest now token id sessions in
      elim (Option-cases (first (select test sessions))) [
        | inl missing ↦ inr (
          ground (arith, first-returning test (revoke now) sessions),
          update-none test (revoke now) sessions missing,
        )
        | inr (target, e) ↦ let (user, done) = target_found id target e in inl (user, target, done)
      ]

  -- Revoking a session by its id never touches the sessions of a user who does not own the token.
  pub revoke_owned_session-others :
      (id other : ℕ)
      → owner digest now token sessions ≢ some other
      → select (λ s. s.user_id == other) (revoke_owned_session digest now token id sessions).1
        ≡ select (λ s. s.user_id == other) sessions
  unfolding revoke_owned_session
  revoke_owned_session-others id other d =
      select-update_apart (λ s. s.user_id == other) (is_target digest now token id sessions)
        (revoke now) sessions
        λ s p.
          let (user, owns) = owner-is_target id s p in
          let differs : user ≢ other = λ e. d (owns ∙ ap some e) in
          (ground (arith, owns), ground (arith, owns))
