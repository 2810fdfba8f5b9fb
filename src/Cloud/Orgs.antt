-- ===== src/Cloud/Orgs.antt =====
-- internal/storage/cloud_store.go: the table organizations, and the projects of organizations. Ids and
-- times are the database's.
use vaultkey.Prelude.{
  ℕ, Bool, true, false, ◌&&◌, ◌||◌, Option, none, some, List, [], ◌∷◌, ◌++◌, Bytes, bytes_eq, codes,
  ◌==◌, if◌then◌else◌,
}
use vaultkey.Prelude.Int.{ℤ, pos}
use vaultkey.Cloud.Members.{MemberRow, is_null, get_org_member}

pub record Organization : Type 0 where
  pub id : ℕ
  pub name : Bytes
  pub slug : Bytes
  pub created_by : Bytes
  pub billing_email : Bytes
  pub created_at : ℕ
  pub updated_at : ℕ
  pub deleted_at : Option ℕ

-- The primary key and the unique slug, of deleted rows too.
unfoldable pub is_taken : Organization → List Organization → Bool
is_taken new [] = false
is_taken new (o ∷ os) = o.id == new.id || bytes_eq o.slug new.slug || is_taken new os

-- `CreateOrganization`; none is an error. Its balance row is in Credits, and reads as 0 either way.
unfoldable pub create_organization :
    Bool → Organization → List Organization → Option (List Organization)
unfolding is_taken
create_organization fails new os = if fails || is_taken new os then none else some (new ∷ os)

unfoldable pub is_live : ℕ → Organization → Bool
unfolding is_null
is_live id o = o.id == id && is_null o.deleted_at

-- `GetOrganizationByID`
unfoldable pub get_organization_by_id : ℕ → List Organization → Option Organization
unfolding is_live
get_organization_by_id id [] = none
get_organization_by_id id (o ∷ os) =
    let rest = get_organization_by_id id os in if is_live id o then some o else rest

-- `GetOrganizationBySlug`
unfoldable pub get_organization_by_slug : Bytes → List Organization → Option Organization
unfolding is_null
get_organization_by_slug slug [] = none
get_organization_by_slug slug (o ∷ os) =
    let rest = get_organization_by_slug slug os in
    if bytes_eq o.slug slug && is_null o.deleted_at then some o else rest

unfoldable pub is_some {ℓ} : {A : Type ℓ} → Option A → Bool
is_some none = false
is_some (some a) = true

-- `GetOrganizationsForUser`, oldest row last in the table and first in the answer.
unfoldable pub get_organizations_for_user :
    Bytes → List MemberRow → List Organization → List Organization
unfolding is_some is_null
get_organizations_for_user user ms [] = []
get_organizations_for_user user ms (o ∷ os) =
    let rest = get_organizations_for_user user ms os in
    if is_null o.deleted_at && is_some (get_org_member o.id user ms) then rest ++ (o ∷ []) else rest

-- `UpdateOrganization`; `any_live` tells whether it returns a row.
unfoldable pub update_organization : ℕ → ℕ → Bytes → Bytes → List Organization → List Organization
unfolding is_live
update_organization now id name email [] = []
update_organization now id name email (o ∷ os) =
    let rest = update_organization now id name email os in
    if is_live id o
    then record o { name = name; billing_email = email; updated_at = now } ∷ rest
    else o ∷ rest

unfoldable pub any_live : ℕ → List Organization → Bool
unfolding is_live
any_live id [] = false
any_live id (o ∷ os) = is_live id o || any_live id os

-- `SoftDeleteOrganization`; `any_live` tells whether it finds the row.
unfoldable pub soft_delete_organization : ℕ → ℕ → List Organization → List Organization
unfolding is_live
soft_delete_organization now id [] = []
soft_delete_organization now id (o ∷ os) =
    let rest = soft_delete_organization now id os in
    if is_live id o then record o { deleted_at = some now; updated_at = now } ∷ rest else o ∷ rest

pub record OrgProject : Type 0 where
  pub id : ℕ
  pub name : Bytes
  pub rate_limit_rps : ℤ
  pub max_retries : ℤ
  pub cloud_managed : Bool
  -- none is NULL
  pub org : Option ℕ
  pub deleted_at : Option ℕ

unfoldable pub is_project_of : ℕ → OrgProject → Bool
unfolding is_null
is_project_of org p = elim p.org [ none ↦ false | some o ↦ o == org && is_null p.deleted_at ]

-- `GetOrganizationProject`
unfoldable pub get_organization_project : ℕ → List OrgProject → Option OrgProject
unfolding is_project_of
get_organization_project org [] = none
get_organization_project org (p ∷ ps) =
    let rest = get_organization_project org ps in if is_project_of org p then some p else rest

unfoldable pub org_project : ℕ → ℕ → Bytes → OrgProject
org_project id org org_name = record {
  id = id;
  name = org_name ++ codes " Project";
  rate_limit_rps = pos 10;
  max_retries = pos 3;
  cloud_managed = true;
  org = some org;
  deleted_at = none;
}

-- The INSERT of `EnsureProjectForOrg`: ON CONFLICT (org_id) DO NOTHING gives no row.
unfoldable pub insert_project :
    ℕ → ℕ → Bytes → List OrgProject → Option OrgProject × List OrgProject
unfolding org_project get_organization_project is_some
insert_project id org name ps =
    let p = org_project id org name in
    if is_some (get_organization_project org ps) then (none, ps) else (some p, p ∷ ps)
