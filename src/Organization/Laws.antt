-- ===== src/Organization/Laws.antt =====
-- What the hierarchy route of src/organization/routes.ts shows, and to whom.
use virexa_backend.Base.{
  ℕ, ◌≤◌, ◌≡◌, refl, arith, Option, none, some, List, [], ◌∷◌, map, length, ◌==◌, ok, Outcome-cases,
  Option-cases, inl, inr,
}
use virexa_backend.Base.Sql.{select}
use virexa_backend.Auth.{AuthenticatedContext, organization_manage}
use virexa_backend.Http.{Incoming, Reply, reader}
use virexa_backend.Http.Laws.{IsCaller, reader_sound}
use virexa_backend.Paging.Recent.{recent, recent-IsRecent}
use virexa_backend.Organization.{
  OrganizationResourceStatus, Row, OrganizationTables, OrganizationHierarchy,
  OrganizationHierarchyQuery, position, in_scope, map_item, list_table, hierarchy, get_hierarchy,
}

-- the rows of one organization
abbrev pub own_rows : {B : Type 0} → ℕ → List (Row B) → List (Row B)
own_rows organization = select (λ r. r.organization_id == organization)

abbrev pub own_tables : ℕ → OrganizationTables → OrganizationTables
own_tables organization t = record {
  branches = own_rows organization t.branches;
  departments = own_rows organization t.departments;
  personas = own_rows organization t.personas;
}

select-own :
    {B : Type 0} (organization : ℕ) (status : Option OrganizationResourceStatus)
    (rows : List (Row B))
    → select (in_scope organization status) (own_rows organization rows)
      ≡ select (in_scope organization status) rows
unfolding select
select-own organization status [] = refl
select-own organization none (r ∷ rows) = ground (arith, select-own organization none rows)
select-own organization (some s) (r ∷ rows) = ground (arith, select-own organization (some s) rows)

module _ (to_date : ℕ → ℕ) (organization : ℕ) (query : OrganizationHierarchyQuery) where
  list_table-own :
      {B : Type 0} (rows : List (Row B))
      → list_table to_date organization query rows
        ≡ list_table to_date organization query (own_rows organization rows)
  unfolding list_table recent
  list_table-own rows = rw (select-own organization query.status rows) refl

  length-map_item :
      {B : Type 0} (rows : List (Row B)) → length (map (map_item to_date) rows) ≡ length rows
  length-map_item [] = refl
  length-map_item (r ∷ rows) = ground (arith, length-map_item rows)

  list_table_bound :
      {B : Type 0} (rows : List (Row B))
      → length (list_table to_date organization query rows) ≤ query.limit
  unfolding list_table
  list_table_bound rows =
      rw (length-map_item (recent position (in_scope organization query.status) query.limit rows))
        (recent-IsRecent position (in_scope organization query.status) query.limit rows).bounded

-- a hierarchy that is shown
pub record Shows (to_date : ℕ → ℕ) (incoming : Incoming) (query : Option OrganizationHierarchyQuery)
    (tables : OrganizationTables) (shown : OrganizationHierarchy) : Type 0 where
  pub context : AuthenticatedContext
  pub caller : IsCaller incoming organization_manage context
  pub asked : OrganizationHierarchyQuery
  pub given : query ≡ some asked
  -- other organizations' rows have no part in it
  pub own :
      shown
      ≡ hierarchy to_date context.user.organization_id asked
          (own_tables context.user.organization_id tables)
  pub bounded :
      (length shown.branches ≤ asked.limit)
      × (length shown.departments ≤ asked.limit)
      × (length shown.personas ≤ asked.limit)

-- When the hierarchy is shown, the session's role may manage the organization, the reply is what the
-- rows of its organization alone would give, and each of its lists keeps the limit.
pub get_hierarchy_sound :
    (to_date : ℕ → ℕ) (incoming : Incoming) (query : Option OrganizationHierarchyQuery)
    (tables : OrganizationTables) (reply : Reply OrganizationHierarchy)
    → get_hierarchy to_date incoming query tables ≡ ok reply
    → Shows to_date incoming query tables reply.body
unfolding get_hierarchy hierarchy
get_hierarchy_sound to_date incoming query tables reply h =
    elim (Outcome-cases (reader incoming organization_manage)) [
      | inr (e, refused) ↦ absurd (ground (arith, refused))
      | inl (context, passed) ↦ elim (Option-cases query) [
        | inl malformed ↦ absurd (ground (arith, passed, malformed))
        | inr (q, given) ↦
            let o = context.user.organization_id in
            let told : hierarchy to_date o q tables ≡ reply.body = ground (arith, passed, given) in
            record {
              context = context;
              caller = reader_sound incoming organization_manage context passed;
              asked = q;
              given = given;
              own =
                  rw
                    (
                      ← told,
                      list_table-own to_date o q tables.branches,
                      list_table-own to_date o q tables.departments,
                      list_table-own to_date o q tables.personas,
                    )
                    refl;
              bounded = rw (← told) (
                list_table_bound to_date o q tables.branches,
                list_table_bound to_date o q tables.departments,
                list_table_bound to_date o q tables.personas,
              );
            }
      ]
    ]
