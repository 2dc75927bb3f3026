-- ===== src/Keyed/Version.antt =====
-- Optimistic concurrency by a version column: UPDATE … SET …, version = version + 1 WHERE … AND
-- version = $3 RETURNING …, as update of src/workflows/repository.ts and of
-- src/agents/repository.ts do it.
use virexa_backend.Base.{
  ℕ, ◌+◌, ◌≡◌, refl, ◌≢◌, ap, sym, subst, ◌∙◌, Bool, true, ◌&&◌, Option, none, some, List, arith,
  ◌==◌, false, first, Option-cases, inl, inr, ◌⊎◌,
}
use virexa_backend.Base.Sql.Rows.{select-imp}
use virexa_backend.Base.Sql.Keys.{first-select-and}
use virexa_backend.Base.Sql.{
  select, update, returning, first-select-update, first-select-holds, first-returning, select-keyed,
  update-none, IsKeyed, IsKeyed-update,
}
use virexa_backend.Keyed.{Columns, has_id}
use mathlib.Core.Option

-- UPDATE … RETURNING of at most one row
unfoldable pub update_one :
    {A B : Type 0} → Columns A B → (A → Bool) → (A → A) → List A → Option B × List A
unfolding returning update
update_one c test assign rows =
    (Option.map c.project (first (returning test assign rows)), update test assign rows)

module _ {A B : Type 0} (c : Columns A B) (version : A → ℕ) where
  -- the WHERE clause, with what else a caller tests
  abbrev pub is_at : ℕ → ℕ → ℕ → (A → Bool) → A → Bool
  is_at organization id expected also x =
      has_id c organization id x && version x == expected && also x

  -- a SET clause: the next version, of the same resource
  pub record Assigns (assign : A → A) : Type 0 where
    pub same_id : (x : A) → c.id (assign x) ≡ c.id x
    pub same_organization : (x : A) → c.organization_id (assign x) ≡ c.organization_id x
    pub next_version : (x : A) → version (assign x) ≡ version x + 1

  module _ (organization id expected : ℕ) (also : A → Bool) (assign : A → A) (rows : List A)
      (assigns : Assigns assign) (keyed : IsKeyed c.id rows) where
    abbrev test : A → Bool
    test = is_at organization id expected also

    -- the row that an update changed, as it was
    pub record Changes (w : B) (after : List A) : Type 0 where
      pub row : A
      pub read : first (select (has_id c organization id) rows) ≡ some row
      pub version_matches : version row ≡ expected
      pub also_holds : also row ≡ true
      pub result : w ≡ c.project (assign row)
      pub stored : first (select (has_id c organization id) after) ≡ some (assign row)

    test_row :
        (row : A)
        → first (select test rows) ≡ some row
        → (first (select (has_id c organization id) rows) ≡ some row) × (test row ≡ true)
    test_row row e =
        let holds = first-select-holds test rows row e in
        (
          select-keyed c.id id test (has_id c organization id) rows row keyed (λ x h. ground arith)
                (λ x h. ground arith) e
              ∙ ground (arith, holds),
          holds,
        )

    same_row : (x : A) → has_id c organization id (assign x) ≡ has_id c organization id x
    same_row x = ground (arith, assigns.same_id x, assigns.same_organization x)

    assigned :
        (row : A)
        → test row ≡ true
        → first (select (has_id c organization id) rows) ≡ some row
        → first (select (has_id c organization id) (update test assign rows)) ≡ some (assign row)
    assigned row holds read =
        first-select-update (has_id c organization id) test assign rows same_row
        ∙ ground (arith, read, holds)

    pub update_one_lem :
        ((w : B) × (after : List A) × (update_one c test assign rows ≡ (some w, after))
          × Changes w after)
        ⊎ (update_one c test assign rows ≡ (none, rows))
    unfolding update_one
    update_one_lem = elim (Option-cases (first (select test rows))) [
      | inl missing ↦ inr (
          ground (
            arith,
            first-returning test assign rows,
            missing,
            update-none test assign rows missing,
          ))
      | inr (row, e) ↦
          let (read, holds) = test_row row e in
          inl (
            c.project (assign row),
            update test assign rows,
            ground (arith, first-returning test assign rows, e),
            record {
              row = row;
              read = read;
              version_matches = ground (arith, holds);
              also_holds = ground (arith, holds);
              result = refl;
              stored = assigned row holds read;
            },
          )
    ]

    -- an update is refused only at another version, or by what else is tested
    pub update_one_refused :
        (row : A)
        → update_one c test assign rows ≡ (none, rows)
        → first (select (has_id c organization id) rows) ≡ some row
        → (version row == expected && also row) ≡ false
    unfolding update_one
    update_one_refused row refused read =
        let told =
          ap first (
            select-imp test (λ x. has_id c organization id x && (version x == expected && also x))
              rows (λ x. ground arith))
          ∙ first-select-and c.id id (has_id c organization id)
              (λ x. version x == expected && also x) rows keyed (λ x h. ground arith) in
        ground (arith, told, read, refused, first-returning test assign rows)

    pub IsKeyed-update_one : IsKeyed c.id (update_one c test assign rows).1
    unfolding update_one
    IsKeyed-update_one = IsKeyed-update c.id test assign rows assigns.same_id keyed

  -- Of two updates of one resource with one expected version the second changes nothing, once the
  -- first has succeeded.
  pub update_one_stale :
      (organization id expected : ℕ) (also also' : A → Bool) (assign assign' : A → A)
      (rows after : List A) (w : B)
      → Assigns assign
      → Assigns assign'
      → IsKeyed c.id rows
      → update_one c (is_at organization id expected also) assign rows ≡ (some w, after)
      → update_one c (is_at organization id expected also') assign' after ≡ (none, after)
  update_one_stale organization id expected also also' assign assign' rows after w a a' keyed h =
      elim (update_one_lem organization id expected also assign rows a keyed) [
        | inr refused ↦ absurd (cc (refused, h))
        | inl (w₁, after₁, e, u) ↦
            let kept : after₁ ≡ after = cc e in
            let keyed' : IsKeyed c.id after =
              subst (IsKeyed c.id) (ap (λ (q : Option B × List A). q.1) h)
                (IsKeyed-update_one organization id expected also assign rows a keyed) in
            elim (update_one_lem organization id expected also' assign' after a' keyed') [
              | inr refused ↦ refused
              | inl (w₂, after₂, e', v) ↦ absurd (
                  let same : some (assign u.row) ≡ some v.row =
                    sym u.stored
                    ∙ ap (λ l. first (select (has_id c organization id) l)) kept
                    ∙ v.read in
                  ground (arith, same, a.next_version u.row, u.version_matches, v.version_matches))
            ]
      ]

  -- Other resources are as they were.
  pub update_one_other :
      (organization id expected : ℕ) (also : A → Bool) (assign : A → A) (rows : List A)
      (organization' id' : ℕ)
      → Assigns assign
      → id' ≢ id
      → first (
          select
            (has_id c organization' id')
            (update_one c (is_at organization id expected also) assign rows).1)
        ≡ first (select (has_id c organization' id') rows)
  unfolding update_one
  update_one_other organization id expected also assign rows organization' id' a d =
      let test = is_at organization id expected also in
      let seen =
        first-select-update (has_id c organization' id') test assign rows
          (λ x. ground (arith, a.same_id x, a.same_organization x)) in
      elim (Option-cases (first (select (has_id c organization' id') rows))) [
        | inl missing ↦ ground (arith, seen, missing)
        | inr (row, e) ↦
            let holds = first-select-holds (has_id c organization' id') rows row e in
            ground (arith, seen, e, holds)
      ]
