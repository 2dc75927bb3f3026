-- ===== src/Keyed.antt =====
-- Creation under an idempotency key, as createIdempotent of src/workflows/repository.ts and of
-- src/agents/repository.ts do it: a table of resources and a table of keys, each key with the hash
-- of its request and, once it is made, its resource.
pub mod Laws
pub mod Version
use virexa_backend.Base.{
  ℕ, Bool, true, false, ◌&&◌, not, Option, none, some, List, ◌∷◌, ◌==◌, any, first, if◌then◌else◌,
  Outcome, ok, throws, ◌>>=◌,
}
use virexa_backend.Base.Text.{Text, text_eq}
use virexa_backend.Base.Sql.{select, update}

-- what the statements read of a row of the resource, and its projection
pub record Columns (A B : Type 0) : Type 0 where
  pub id : A → ℕ
  pub organization_id : A → ℕ
  pub project : A → B

pub record KeyRow : Type 0 where
  pub organization_id : ℕ
  pub idempotency_key : Text
  pub request_hash : Text
  pub resource_id : Option ℕ

pub record Tables (A : Type 0) : Type 0 where
  pub rows : List A
  pub keys : List KeyRow

pub data KeyedError : Type 0 where
  idempotency_key_reused reservation_disappeared missing_resource unique_violation : KeyedError

pub record Created (B : Type 0) : Type 0 where
  pub item : B
  pub replayed : Bool

-- the columns (organization_id, idempotency_key)
abbrev pub has_key : ℕ → Text → KeyRow → Bool
has_key organization key k = k.organization_id == organization && text_eq k.idempotency_key key

-- INSERT … ON CONFLICT DO NOTHING RETURNING, else SELECT … FOR UPDATE: the record of the key,
-- and whether it was there
unfoldable pub reserve :
    {A : Type 0} → ℕ → Text → Text → Tables A → Outcome KeyedError (KeyRow × Bool × Tables A)
unfolding select
reserve organization key hashed t =
    if any (has_key organization key) t.keys
    then elim (first (select (has_key organization key) t.keys)) [
      | none ↦ throws reservation_disappeared
      | some k ↦ ok (k, true, t)
    ]
    else let k : KeyRow = record {
      organization_id = organization;
      idempotency_key = key;
      request_hash = hashed;
      resource_id = none;
    } in
      ok (k, false, record t { keys = k ∷ t.keys })

module _ {A B : Type 0} (c : Columns A B) where
  -- the columns (organization_id, id)
  abbrev pub has_id : ℕ → ℕ → A → Bool
  has_id organization id x = c.organization_id x == organization && c.id x == id

  -- PRIMARY KEY (id)
  unfoldable pub insert_row : A → Tables A → Outcome KeyedError (Tables A)
  insert_row row t =
      if any (λ x. c.id row == c.id x) t.rows
      then throws unique_violation
      else ok (record t { rows = row ∷ t.rows })

  -- the resource that the record of the key names
  unfoldable pub replay : ℕ → ℕ → Tables A → Outcome KeyedError (Created B × Tables A)
  unfolding select
  replay organization id t = elim (first (select (has_id organization id) t.rows)) [
    | none ↦ throws missing_resource
    | some x ↦ ok (record { item = c.project x; replayed = true }, t)
  ]

  -- a new resource, bound to the key
  unfoldable pub bind_new : A → Text → Bool → Tables A → Outcome KeyedError (Created B × Tables A)
  unfolding insert_row update
  bind_new row key replayed t = do
    t' ← insert_row row t
    let bound =
        update (has_key (c.organization_id row) key)
          (λ k. record k { resource_id = some (c.id row) }) t'.keys
    ok (record { item = c.project row; replayed = replayed }, record t' { keys = bound })

  unfoldable pub resolve :
      A → Text → Text → KeyRow → Bool → Tables A → Outcome KeyedError (Created B × Tables A)
  unfolding replay bind_new
  resolve row key hashed k replayed t =
      if not (text_eq k.request_hash hashed)
      then throws idempotency_key_reused
      else elim k.resource_id [
        | some id ↦ replay (c.organization_id row) id t
        | none ↦ bind_new row key replayed t
      ]

  -- The statements between BEGIN and COMMIT, for the row that would be inserted. A throw rolls
  -- back: no tables come with it.
  unfoldable pub create_keyed :
      A → Text → Text → Tables A → Outcome KeyedError (Created B × Tables A)
  unfolding reserve resolve
  create_keyed row key hashed t =
      reserve (c.organization_id row) key hashed t >>= λ r. resolve row key hashed r.0 r.1 r.2
