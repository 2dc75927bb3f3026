-- ===== src/Organization.antt =====
-- The organization hierarchy: src/organization/repository.ts and src/organization/routes.ts, with
-- the data of src/contracts/organization.ts.
pub mod Laws
mod Tests
use virexa_backend.Base.{
  ℕ, ◌≤◌, ◌≡◌, refl, arith, Bool, true, ◌&&◌, Option, none, some, List, [], ◌∷◌, map, All, length,
  ◌==◌, Outcome, ok, throws, ◌>>=◌, Outcome-cases, Option-cases, inl, inr,
}
use virexa_backend.Base.Text.{Text}
use virexa_backend.Auth.{AuthenticatedContext, organization_manage}
use virexa_backend.Http.{Incoming, Failure, Reply, parsed, reader}
use virexa_backend.Http.Laws.{IsCaller, reader_sound}
use virexa_backend.Paging.{Position}
use virexa_backend.Paging.Recent.{recent, IsRecent, recent-IsRecent}

pub data OrganizationResourceStatus : Type 0 where
  active inactive : OrganizationResourceStatus

abbrev pub status_code : OrganizationResourceStatus → ℕ
status_code active = 0
status_code inactive = 1

-- the columns that the three tables share
pub record Row (B : Type 0) : Type 0 where
  pub id : ℕ
  pub organization_id : ℕ
  pub name : Text
  pub status : OrganizationResourceStatus
  pub created_at : ℕ
  pub updated_at : ℕ
  pub more : B

pub record BranchColumns : Type 0 where
  pub code : Text

pub record DepartmentColumns : Type 0 where
  pub branch_id : ℕ
  pub code : Text

pub record PersonaColumns : Type 0 where
  pub department_id : ℕ
  pub description : Option Text

-- an item of the API, with the number of milliseconds that its dates stand for
pub record Item (B : Type 0) : Type 0 where
  pub id : ℕ
  pub name : Text
  pub status : OrganizationResourceStatus
  pub created_at : ℕ
  pub updated_at : ℕ
  pub more : B

pub record OrganizationTables : Type 0 where
  pub branches : List (Row BranchColumns)
  pub departments : List (Row DepartmentColumns)
  pub personas : List (Row PersonaColumns)

pub record OrganizationHierarchy : Type 0 where
  pub branches : List (Item BranchColumns)
  pub departments : List (Item DepartmentColumns)
  pub personas : List (Item PersonaColumns)

pub record OrganizationHierarchyQuery : Type 0 where
  pub limit : ℕ
  pub status : Option OrganizationResourceStatus

abbrev pub position : {B : Type 0} → Row B → Position
position r = record { stamp = r.created_at; id = r.id }

-- the WHERE clause, with `statusPredicate`
abbrev pub in_scope : {B : Type 0} → ℕ → Option OrganizationResourceStatus → Row B → Bool
in_scope organization none r = r.organization_id == organization
in_scope organization (some s) r =
    r.organization_id == organization && status_code r.status == status_code s

module _ (to_date : ℕ → ℕ) where
  abbrev pub map_item : {B : Type 0} → Row B → Item B
  map_item r = record {
    id = r.id;
    name = r.name;
    status = r.status;
    created_at = to_date r.created_at;
    updated_at = to_date r.updated_at;
    more = r.more;
  }

  unfoldable pub list_table :
      {B : Type 0} → ℕ → OrganizationHierarchyQuery → List (Row B) → List (Item B)
  unfolding recent
  list_table organization query rows =
      map map_item (recent position (in_scope organization query.status) query.limit rows)

  unfoldable pub hierarchy :
      ℕ → OrganizationHierarchyQuery → OrganizationTables → OrganizationHierarchy
  unfolding list_table
  hierarchy organization query tables = record {
    branches = list_table organization query tables.branches;
    departments = list_table organization query tables.departments;
    personas = list_table organization query tables.personas;
  }

  unfoldable pub get_hierarchy :
      Incoming
      → Option OrganizationHierarchyQuery
      → OrganizationTables
      → Outcome Failure (Reply OrganizationHierarchy)
  unfolding hierarchy
  get_hierarchy incoming query tables = do
    context ← reader incoming organization_manage
    q ← parsed query
    ok (record { status = 200; body = hierarchy context.user.organization_id q tables })
