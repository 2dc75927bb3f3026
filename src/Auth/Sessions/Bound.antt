-- ===== src/Auth/Sessions/Bound.antt =====
-- The bound on active sessions, and what a login leaves alone.
use virexa_backend.Base.{
  ℕ, ◌+◌, ◌≤◌, ◌<◌, ◌≡◌, ◌≢◌, ◌∙◌, Bool, true, false, not, ◌&&◌, some, List, [], ◌∷◌, map, arith,
  ◌==◌, take, length, any, first, All, All-imp, ==_refl, ok, Bool-cases, inl, inr,
}
use virexa_backend.Base.Text.{Text, text_eq_refl}
use virexa_backend.Base.Sql.{select, update, All-select, member, IsKeyed}
use virexa_backend.Base.Sql.Rows.{
  select-update_out, select-update_apart, length-select_mono, length-select-member,
}
use virexa_backend.Paging.{before, order_desc}
use virexa_backend.Paging.Order.{All-order_desc, insert_desc-top}
use virexa_backend.Auth.Sessions.{
  SessionRow, is_active, active_of, revoke, position, newest, revoke_surplus, session_row, clashes,
  create_bounded_session, owner, has_token,
}

length-map-take : (n : ℕ) (xs : List SessionRow) → length (map (λ s. s.id) (take n xs)) ≤ n
length-map-take ℕ.zero xs = omega arith
length-map-take (ℕ.suc n) [] = omega arith
length-map-take (ℕ.suc n) (x ∷ xs) = omega (arith, length-map-take n xs)

module _ (now user : ℕ) (sessions : List SessionRow) where
  kept_of : SessionRow → Bool
  kept_of s = member (newest now user sessions) s.id

  length-revoke_surplus :
      IsKeyed (λ s. s.id) sessions
      → length (select (active_of now user) (revoke_surplus now user sessions)) ≤ 5
  unfolding revoke_surplus newest
  length-revoke_surplus keyed =
      let ids =
        map (λ (s : SessionRow). s.id)
          (take 5 (order_desc position (select (active_of now user) sessions))) in
      rw
        (select-update_out (active_of now user) (λ s. active_of now user s && not (member ids s.id))
          (revoke now) sessions (λ s. ground arith))
        (omega (
          arith,
          length-select_mono
              (λ s. active_of now user s && not (active_of now user s && not (member ids s.id)))
              (λ s. member ids s.id) sessions (λ s h. ground arith),
          length-select-member (λ s. s.id) ids sessions keyed,
          length-map-take 5 (order_desc position (select (active_of now user) sessions)),
        ))

module _ (row : SessionRow) where
  pub any-clashes :
      (sessions : List SessionRow)
      → any (clashes row) sessions ≡ false
      → All (λ s. row.id ≢ s.id) sessions
  any-clashes [] h = tt
  any-clashes (s ∷ sessions) h = ground (arith, any-clashes sessions)

module _ (now id user : ℕ) (digested : Text) (sessions : List SessionRow) where
  abbrev pub row : SessionRow
  row = session_row now id user digested

  -- the table after a creation that does not throw
  pub create_bounded_session-eq-ok :
      (expires : ℕ) (after : List SessionRow)
      → create_bounded_session now id user digested sessions ≡ ok (expires, after)
      → (any (clashes row) sessions ≡ false)
        × (expires ≡ row.expires_at)
        × (after ≡ revoke_surplus now user (row ∷ sessions))
  unfolding create_bounded_session
  create_bounded_session-eq-ok expires after h = elim (Bool-cases (any (clashes row) sessions)) [
    | inl taken ↦ absurd (ground arith)
    | inr free ↦ (free, ground arith, ground arith)
  ]

  -- After the creation of a session, which each login and registration makes, its user has at
  -- most five active sessions.
  pub create_bounded_session-bound :
      (expires : ℕ) (after : List SessionRow)
      → IsKeyed (λ s. s.id) sessions
      → create_bounded_session now id user digested sessions ≡ ok (expires, after)
      → length (select (active_of now user) after) ≤ 5
  create_bounded_session-bound expires after keyed h =
      let (free, e, same) = create_bounded_session-eq-ok expires after h in
      rw same
        (length-revoke_surplus now user (row ∷ sessions) (any-clashes row sessions free, keyed))

  -- the tests of `revoke_surplus`
  abbrev is_surplus : SessionRow → Bool
  is_surplus s = active_of now user s && not (member (newest now user (row ∷ sessions)) s.id)

  newest-row :
      All (λ s. s.created_at < now) sessions
      → member (newest now user (row ∷ sessions)) row.id ≡ true
  unfolding newest member order_desc
  newest-row older =
      let below = λ (s : SessionRow). before (position s) (position row) ≡ true in
      let actives = select (active_of now user) sessions in
      let top = insert_desc-top position row (order_desc position actives) (
        All-order_desc position below actives (
          All-select below (active_of now user) sessions
            (All-imp (λ s. s.created_at < now) below (λ s lt. earlier s lt) sessions older))) in
      rw (selected, top) (ground (arith, ==_refl id))
    where
      earlier : (s : SessionRow) → s.created_at < now → before (position s) (position row) ≡ true
      earlier s lt = unfold before in ground arith

      selected :
          select (active_of now user) (row ∷ sessions) ≡ row ∷ select (active_of now user) sessions
      selected = unfold select in ground arith

  -- The creation of a session leaves the sessions of all other users as they are.
  pub create_bounded_session-others :
      (other expires : ℕ) (after : List SessionRow)
      → other ≢ user
      → create_bounded_session now id user digested sessions ≡ ok (expires, after)
      → select (λ s. s.user_id == other) after ≡ select (λ s. s.user_id == other) sessions
  create_bounded_session-others other expires after differs h =
      let (free, e, same) = create_bounded_session-eq-ok expires after h in
      rw same (
        unfold revoke_surplus select in
        select-update_apart (λ s. s.user_id == other) is_surplus (revoke now) (row ∷ sessions)
          (λ s p. ground arith)
        ∙ ground arith)

  -- The new session is found by its token for the stated lifetime, if every other session was
  -- created before.
  pub create_bounded_session-row :
      (digest : Text → Text) (token : Text) (expires : ℕ) (after : List SessionRow)
      → digest token ≡ digested
      → All (λ s. s.created_at < now) sessions
      → create_bounded_session now id user digested sessions ≡ ok (expires, after)
      → (later : ℕ) → later < expires
      → first (select (λ s. has_token digest token s && is_active later s) after) ≡ some row
  create_bounded_session-row digest token expires after known older h later end =
      let (free, e, same) = create_bounded_session-eq-ok expires after h in
      let stays = newest-row older in
      rw same
        (unfold revoke_surplus select update in ground (arith, stays, text_eq_refl digested, e))

  -- The token of a new session stands for its user until the stated expiry, if every other
  -- session was created before.
  pub create_bounded_session-owner :
      (digest : Text → Text) (token : Text) (expires : ℕ) (after : List SessionRow)
      → digest token ≡ digested
      → All (λ s. s.created_at < now) sessions
      → create_bounded_session now id user digested sessions ≡ ok (expires, after)
      → (later : ℕ) → later < expires
      → owner digest later token after ≡ some user
  unfolding owner
  create_bounded_session-owner digest token expires after known older h later end =
      rw (create_bounded_session-row digest token expires after known older h later end, owner)

  pub create_bounded_session-expires :
      (expires : ℕ) (after : List SessionRow)
      → create_bounded_session now id user digested sessions ≡ ok (expires, after)
      → expires ≡ now + 28800000000
  create_bounded_session-expires expires after h =
      let (free, e, same) = create_bounded_session-eq-ok expires after h in omega (arith, e)

  -- nothing but a clash of keys makes a creation fail
  pub create_bounded_session-succeeds :
      any (clashes row) sessions ≡ false
      → (after : List SessionRow) × (create_bounded_session now id user digested sessions
          ≡ ok (row.expires_at, after))
  unfolding create_bounded_session
  create_bounded_session-succeeds free = (revoke_surplus now user (row ∷ sessions), rw free)
