-- ===== src/Cloud/Members.antt =====
-- internal/storage/cloud_store.go: the tables clerk_users and org_members. Times are the database's.
use vaultkey.Prelude.{
  ℕ, suc, Bool, true, false, ◌&&◌, ◌||◌, Option, none, some, List, [], ◌∷◌, Bytes, bytes_eq, codes,
  ◌==◌, if◌then◌else◌,
}

pub record ClerkUser : Type 0 where
  pub clerk_user_id : Bytes
  pub email : Bytes
  pub first_name : Bytes
  pub last_name : Bytes
  pub image_url : Bytes
  pub synced_at : ℕ

-- `UpsertClerkUser`; clerk_user_id is the primary key.
unfoldable pub upsert_clerk_user : ClerkUser → List ClerkUser → List ClerkUser
upsert_clerk_user u [] = u ∷ []
upsert_clerk_user u (v ∷ vs) =
    let rest = v ∷ upsert_clerk_user u vs in
    if bytes_eq v.clerk_user_id u.clerk_user_id then u ∷ vs else rest

-- `GetClerkUser`
unfoldable pub get_clerk_user : Bytes → List ClerkUser → Option ClerkUser
get_clerk_user user [] = none
get_clerk_user user (v ∷ vs) =
    let rest = get_clerk_user user vs in if bytes_eq v.clerk_user_id user then some v else rest

-- A row of org_members; `deleted_at` none is NULL.
pub record MemberRow : Type 0 where
  pub id : ℕ
  pub org : ℕ
  pub user : Bytes
  pub role : Bytes
  pub joined_at : ℕ
  pub deleted_at : Option ℕ

unfoldable pub is_null : Option ℕ → Bool
is_null none = true
is_null (some t) = false

-- UNIQUE (org_id, clerk_user_id)
unfoldable pub is_of : ℕ → Bytes → MemberRow → Bool
is_of org user m = m.org == org && bytes_eq m.user user

unfoldable pub is_active_of : ℕ → Bytes → MemberRow → Bool
unfolding is_of is_null
is_active_of org user m = is_of org user m && is_null m.deleted_at

-- `GetOrgMember`, without the columns of clerk_users
unfoldable pub get_org_member : ℕ → Bytes → List MemberRow → Option MemberRow
unfolding is_active_of
get_org_member org user [] = none
get_org_member org user (m ∷ ms) =
    let rest = get_org_member org user ms in if is_active_of org user m then some m else rest

unfoldable pub is_owner_of : ℕ → MemberRow → Bool
unfolding is_null
is_owner_of org m = m.org == org && bytes_eq m.role (codes "owner") && is_null m.deleted_at

-- `CountActiveOwners`
unfoldable pub count_active_owners : ℕ → List MemberRow → ℕ
unfolding is_owner_of
count_active_owners org [] = 0
count_active_owners org (m ∷ ms) =
    let n = count_active_owners org ms in if is_owner_of org m then suc n else n

unfoldable pub revived : MemberRow → MemberRow → MemberRow
revived new m = record m { deleted_at = none; role = new.role; joined_at = new.joined_at }

-- `AddOrgMember`: ON CONFLICT (org_id, clerk_user_id) DO UPDATE
unfoldable pub add_org_member : MemberRow → List MemberRow → List MemberRow
unfolding is_of revived
add_org_member new [] = new ∷ []
add_org_member new (m ∷ ms) =
    let rest = m ∷ add_org_member new ms in
    if is_of new.org new.user m then revived new m ∷ ms else rest

-- UPDATE … SET … WHERE …, on every row that meets the condition.
unfoldable pub update_where :
    (MemberRow → Bool) → (MemberRow → MemberRow) → List MemberRow → List MemberRow
update_where test f [] = []
update_where test f (m ∷ ms) =
    let rest = update_where test f ms in if test m then f m ∷ rest else m ∷ rest

-- Whether RowsAffected is not 0, or RETURNING gives a row.
unfoldable pub any_row : (MemberRow → Bool) → List MemberRow → Bool
any_row test [] = false
any_row test (m ∷ ms) = test m || any_row test ms

abbrev pub set_role : Bytes → MemberRow → MemberRow
set_role role m = record m { role = role }

abbrev pub set_deleted : ℕ → MemberRow → MemberRow
set_deleted now m = record m { deleted_at = some now }

-- `UpdateOrgMemberRole`; `any_row` tells whether it returns a member.
unfoldable pub update_org_member_role : ℕ → Bytes → Bytes → List MemberRow → List MemberRow
unfolding update_where is_active_of
update_org_member_role org user role ms = update_where (is_active_of org user) (set_role role) ms

-- `RemoveOrgMember`; `any_row` tells whether it finds the member.
unfoldable pub remove_org_member : ℕ → ℕ → Bytes → List MemberRow → List MemberRow
unfolding update_where is_active_of
remove_org_member now org user ms = update_where (is_active_of org user) (set_deleted now) ms

unfoldable pub is_active_user : Bytes → MemberRow → Bool
unfolding is_null
is_active_user user m = bytes_eq m.user user && is_null m.deleted_at

-- `DeleteClerkUser`
unfoldable pub delete_clerk_user : ℕ → Bytes → List MemberRow → List MemberRow
unfolding update_where is_active_user
delete_clerk_user now user ms = update_where (is_active_user user) (set_deleted now) ms

-- A member as the API shows it: LEFT JOIN clerk_users, with '' for what is missing.
pub record OrgMember : Type 0 where
  pub row : MemberRow
  pub email : Bytes
  pub first_name : Bytes
  pub last_name : Bytes

unfoldable pub joined : MemberRow → Option ClerkUser → OrgMember
joined m none = record { row = m; email = []; first_name = []; last_name = [] }
joined m (some u) = record {
  row = m;
  email = u.email;
  first_name = u.first_name;
  last_name = u.last_name;
}

-- `ListOrgMembers`, in the order of the table, where ORDER BY joined_at sorts.
unfoldable pub list_org_members : ℕ → List ClerkUser → List MemberRow → List OrgMember
unfolding joined is_null
list_org_members org us [] = []
list_org_members org us (m ∷ ms) =
    let rest = list_org_members org us ms in
    if m.org == org && is_null m.deleted_at
    then joined m (get_clerk_user m.user us) ∷ rest
    else rest
