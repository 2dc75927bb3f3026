-- ===== src/Organization/Tests.antt =====
-- The theorem on the hierarchy at concrete tables.
use virexa_backend.Base.{ℕ, ◌≡◌, refl, Option, none, some, [], ◌∷◌, ok}
use virexa_backend.Base.Text.{codes, text_eq}
use virexa_backend.Base.Sql.{select}
use virexa_backend.Auth.{includes, role_permissions, require_authenticated, require_permission}
use virexa_backend.Http.{Reply, reader}
use virexa_backend.Http.Concrete.{posted}
use virexa_backend.Paging.{before, order_desc, insert_desc}
use virexa_backend.Paging.Recent.{recent}
use virexa_backend.Organization.{
  active, Row, BranchColumns, OrganizationTables, OrganizationHierarchyQuery, OrganizationHierarchy,
  map_item, list_table, hierarchy, get_hierarchy,
}
use virexa_backend.Organization.Laws.{Shows, get_hierarchy_sound}

computed : Unit {0}
unfolding select text_eq includes role_permissions require_authenticated require_permission reader
    before order_desc insert_desc recent list_table hierarchy get_hierarchy
computed = tt

abbrev millis : ℕ → ℕ
millis t = t

abbrev branch : ℕ → ℕ → Row BranchColumns
branch id organization = record {
  id = id;
  organization_id = organization;
  name = codes "North";
  status = active;
  created_at = id;
  updated_at = id;
  more = record { code = codes "N" };
}

abbrev tables : OrganizationTables
tables = record {
  branches = branch 1 4 ∷ branch 2 5 ∷ branch 3 4 ∷ [];
  departments = [];
  personas = [];
}

abbrev query : Option OrganizationHierarchyQuery
query = some (record { limit = 1; status = none })

abbrev shown : OrganizationHierarchy
shown = record { branches = map_item millis (branch 3 4) ∷ []; departments = []; personas = [] }

abbrev reply : Reply OrganizationHierarchy
reply = record { status = 200; body = shown }

get_hierarchy_test : get_hierarchy millis posted query tables ≡ ok reply
unfolding computed
get_hierarchy_test = refl

get_hierarchy_sound_example : Shows millis posted query tables reply.body
get_hierarchy_sound_example =
    get_hierarchy_sound millis posted query tables reply get_hierarchy_test
