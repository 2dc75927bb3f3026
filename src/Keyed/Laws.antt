-- ===== src/Keyed/Laws.antt =====
-- What a second request with the same idempotency key gets.
use virexa_backend.Base.{
  ℕ, ◌≡◌, refl, subst, ◌∙◌, Bool, true, some, ◌∷◌, arith, ==_refl, any, first, ok, throws,
  Bool-cases, Option-cases, >>=-eq-ok, inl, inr, if◌then◌else◌, ◌>>=◌,
}
use virexa_backend.Base.Text.{Text, text_eq, text_eq_iff, text_eq_refl}
use virexa_backend.Base.Sql.{select, update, first-select-update, first-select-holds}
use virexa_backend.Base.Sql.Rows.{any-update}
use virexa_backend.Keyed.{
  Columns, KeyRow, Tables, idempotency_key_reused, Created, has_key, has_id, reserve, insert_row,
  replay, bind_new, resolve, create_keyed,
}

module _ {A B : Type 0} (c : Columns A B) (organization : ℕ) (key : Text) where
  -- the key is taken, by a request with this hash and for this resource
  pub record IsSettled (hashed : Text) (x : A) (t : Tables A) : Type 0 where
    pub record_of_key : KeyRow
    pub taken : any (has_key organization key) t.keys ≡ true
    pub reserved : first (select (has_key organization key) t.keys) ≡ some record_of_key
    pub hash_of_key : record_of_key.request_hash ≡ hashed
    pub resource_id : ℕ
    pub bound : record_of_key.resource_id ≡ some resource_id
    pub stored : first (select (has_id c organization resource_id) t.rows) ≡ some x

  -- a request that meets a settled key replays, or is refused
  pub settled-create_keyed :
      (hashed hashed₂ : Text) (x row : A) (t : Tables A)
      → c.organization_id row ≡ organization
      → IsSettled hashed x t
      → create_keyed c row key hashed₂ t ≡ (
          if text_eq hashed hashed₂
          then ok (record { item = c.project x; replayed = true }, t)
          else throws idempotency_key_reused)
  unfolding create_keyed reserve resolve replay
  settled-create_keyed hashed hashed₂ x row t of s = ground (arith, of)

  module _ (row : A) (hashed : Text) (of : c.organization_id row ≡ organization) where
    bind_new-eq-ok :
        (replayed : Bool) (t t' : Tables A) (r : Created B)
        → bind_new c row key replayed t ≡ ok (r, t')
        → (t'.keys
            ≡ update
                (has_key (c.organization_id row) key)
                (λ k. record k { resource_id = some (c.id row) })
                t.keys)
          × (t'.rows ≡ row ∷ t.rows)
          × (r ≡ record { item = c.project row; replayed = replayed })
    unfolding bind_new insert_row
    bind_new-eq-ok replayed t t' r h = ground arith

    bind_new-settles :
        (k : KeyRow) (replayed : Bool) (t t' : Tables A) (r : Created B)
        → any (has_key organization key) t.keys ≡ true
        → first (select (has_key organization key) t.keys) ≡ some k
        → k.request_hash ≡ hashed
        → bind_new c row key replayed t ≡ ok (r, t')
        → IsSettled hashed row t' × (r.item ≡ c.project row)
    bind_new-settles k replayed t t' r taken reserved same h =
        let (keys, rows, told) = bind_new-eq-ok replayed t t' r h in
        let test = has_key organization key in
        let bind = λ (k : KeyRow). record k { resource_id = some (c.id row) } in
        (
          record {
            record_of_key = record k { resource_id = some (c.id row) };
            taken = rw (keys, of, any-update test test bind t.keys (λ x. refl)) taken;
            reserved =
                rw (keys, of, first-select-update test test bind t.keys (λ x. refl), reserved)
                  (ground (arith, first-select-holds test t.keys k reserved));
            hash_of_key = same;
            resource_id = c.id row;
            bound = refl;
            stored =
                rw (rows)
                  (unfold select in ground (arith, of, ==_refl (c.id row), ==_refl organization));
          },
          ground (arith, told),
        )

    resolve-settles :
        (k : KeyRow) (replayed : Bool) (t t' : Tables A) (r : Created B)
        → any (has_key organization key) t.keys ≡ true
        → first (select (has_key organization key) t.keys) ≡ some k
        → resolve c row key hashed k replayed t ≡ ok (r, t')
        → (x : A) × IsSettled hashed x t' × (r.item ≡ c.project x)
    unfolding resolve replay
    resolve-settles k replayed t t' r taken reserved h =
        elim (Bool-cases (text_eq k.request_hash hashed)) [
          | inr differs ↦ absurd (ground arith)
          | inl same ↦ elim (Option-cases k.resource_id) [
            | inl unbound ↦
                let (settled, told) =
                  bind_new-settles k replayed t t' r taken reserved
                    ((text_eq_iff k.request_hash hashed).0 same) (ground arith) in
                (row, settled, told)
            | inr (id, bound) ↦
                elim (Option-cases (first (select (has_id c organization id) t.rows))) [
                  | inl lost ↦ absurd (ground (arith, of))
                  | inr (x, stored) ↦ (
                    x,
                    record {
                      record_of_key = k;
                      taken = ground (arith, of);
                      reserved = ground (arith, of);
                      hash_of_key = (text_eq_iff k.request_hash hashed).0 same;
                      resource_id = id;
                      bound = bound;
                      stored = ground (arith, of);
                    },
                    ground (arith, of),
                  )
                ]
          ]
        ]

  reserve-eq-ok :
      (hashed : Text) (t t₁ : Tables A) (k : KeyRow) (replayed : Bool)
      → reserve organization key hashed t ≡ ok (k, replayed, t₁)
      → (any (has_key organization key) t₁.keys ≡ true)
        × (first (select (has_key organization key) t₁.keys) ≡ some k)
  unfolding reserve select
  reserve-eq-ok hashed t t₁ k replayed h = ground (arith, text_eq_refl key, ==_refl organization)

  -- After a successful call the key is settled, for the resource that the call returned.
  pub create_keyed-IsSettled :
      (row : A) (hashed : Text) (t t' : Tables A) (r : Created B)
      → c.organization_id row ≡ organization
      → create_keyed c row key hashed t ≡ ok (r, t')
      → (x : A) × IsSettled hashed x t' × (r.item ≡ c.project x)
  create_keyed-IsSettled row hashed t t' r of h =
      let opened : (reserve organization key hashed t >>= λ q. resolve c row key hashed q.0 q.1 q.2)
          ≡ ok (r, t') =
        unfold create_keyed in
        subst
          (λ o. (reserve o key hashed t >>= λ q. resolve c row key hashed q.0 q.1 q.2) ≡ ok (r, t'))
          of h in
      let (q, e, g) =
        >>=-eq-ok (reserve organization key hashed t) (λ q. resolve c row key hashed q.0 q.1 q.2)
          opened in
      let (taken, reserved) = reserve-eq-ok hashed t q.2 q.0 q.1 e in
      resolve-settles row hashed of q.0 q.1 q.2 t' r taken reserved g

  -- So a second request with the key gets the resource again, if its hash is that of the first,
  -- and is refused if not.
  pub create_keyed-again :
      (row row₂ : A) (hashed hashed₂ : Text) (t t' : Tables A) (r : Created B)
      → c.organization_id row ≡ organization
      → c.organization_id row₂ ≡ organization
      → create_keyed c row key hashed t ≡ ok (r, t')
      → create_keyed c row₂ key hashed₂ t' ≡ (
          if text_eq hashed hashed₂
          then ok (record { item = r.item; replayed = true }, t')
          else throws idempotency_key_reused)
  create_keyed-again row row₂ hashed hashed₂ t t' r of of₂ h =
      let (x, settled, told) = create_keyed-IsSettled row hashed t t' r of h in
      settled-create_keyed hashed hashed₂ x row₂ t' of₂ settled ∙ ground (arith, told)
