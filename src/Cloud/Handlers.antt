-- ===== src/Cloud/Handlers.antt =====
-- internal/api/handlers/cloud_handlers.go: what a request does at each SQL statement, with the code up
-- to the next one. Requests of other sessions may run between two statements.
use vaultkey.Prelude.{
  ℕ, ◌+◌, Bool, not, ◌||◌, Option, none, some, List, [], ◌∷◌, Bytes, bytes_eq, codes, leb, ltb,
  if◌then◌else◌,
}
use vaultkey.Access.{Member, member_error, no_member, member_of, by_member}
use vaultkey.Cloud.Members.{
  MemberRow, is_active_of, get_org_member, count_active_owners, add_org_member, any_row,
  update_org_member_role, remove_org_member, delete_clerk_user, is_null,
}
use vaultkey.Cloud.Orgs.{
  Organization, create_organization, get_organizations_for_user, update_organization, any_live,
  soft_delete_organization, OrgProject, get_organization_project, insert_project,
}
use vaultkey.Cloud.Invites.{
  Invite, create_invite, get_invite_by_token, any_pending, accept_invite, any_open, revoke_invite,
}
use vaultkey.Cloud.Requests.{
  Action, onboarded, panicked, Pc, idle, ended, authorizing, putting_org, dropping_org,
  finding_target, setting_role, finding_leaver, counting_owners, removing, inviting, revoking,
  finding_invite, finding_existing, accepting, joining, listing_orgs, finding_project, creating_org,
  seeding_owner, ensuring_project, inserting_project, refetching_project, erasing, min_role, fail,
  enter,
}

pub record World : Type 0 where
  pub orgs : List Organization
  pub members : List MemberRow
  pub invites : List Invite
  pub projects : List OrgProject

-- What a statement meets: whether it fails, the id that it assigns, the time.
pub record Now : Type 0 where
  pub fails : Bool
  pub id : ℕ
  pub time : ℕ

abbrev pub role_of : Option MemberRow → Member
role_of none = no_member
role_of (some m) = member_of m.role

unfoldable pub member_row : Now → ℕ → Bytes → Bytes → MemberRow
member_row n org user role = record {
  id = n.id;
  org = org;
  user = user;
  role = role;
  joined_at = n.time;
  deleted_at = none;
}

unfoldable pub new_org : Now → Bytes → Bytes → Bytes → Bytes → Organization
new_org n user name email slug = record {
  id = n.id;
  name = name;
  slug = slug;
  created_by = user;
  billing_email = email;
  created_at = n.time;
  updated_at = n.time;
  deleted_at = none;
}

-- An invite lasts seven days, in seconds.
unfoldable pub new_invite : Now → ℕ → Bytes → Bytes → Bytes → Bytes → Invite
new_invite n org email token role by = record {
  id = n.id;
  org = org;
  email = email;
  token = token;
  role = role;
  created_by = by;
  expires_at = n.time + 604800;
  accepted_at = none;
  accepted_by = none;
  deleted_at = none;
}

abbrev is_owner_role : Bytes → Bool
is_owner_role role = bytes_eq role (codes "owner")

unfoldable pub after_target : ℕ → Bytes → Bytes → Option MemberRow → Pc
after_target org user role none = fail 404
after_target org user role (some m) =
    if is_owner_role m.role then fail 403 else setting_role org user role

unfoldable pub after_leaver : ℕ → Bytes → Option MemberRow → Pc
after_leaver org user none = fail 404
after_leaver org user (some m) =
    if is_owner_role m.role then counting_owners org user else removing org user

unfoldable pub after_invite : ℕ → Bytes → Option Invite → Pc
unfolding is_null
after_invite now user none = fail 404
after_invite now user (some v) =
    if not (is_null v.accepted_at)
    then fail 409
    else if ltb v.expires_at now
    then fail 410
    else finding_existing v user

abbrev pub project_id : Option OrgProject → Option ℕ
project_id none = none
project_id (some p) = some p.id

unfoldable pub after_orgs : Bytes → Bytes → Bytes → Bytes → List Organization → Pc
after_orgs user name email slug [] = creating_org user name email slug
after_orgs user name email slug (o ∷ os) = finding_project o

unfoldable pub after_inviting : World → Option (List Invite) → Pc × World
after_inviting w none = (fail 500, w)
after_inviting w (some vs) = (fail 201, record w { invites = vs })

unfoldable pub after_existing : Invite → Bytes → Option MemberRow → Pc
after_existing v user none = accepting v user
after_existing v user (some m) = fail 409

unfoldable pub after_creating :
    Organization → Bytes → World → Option (List Organization) → Pc × World
after_creating o user w none = (fail 500, w)
after_creating o user w (some os) = (seeding_owner o user, record w { orgs = os })

unfoldable pub after_ensuring : Organization → Option OrgProject → Pc
after_ensuring o none = inserting_project o
after_ensuring o (some p) = ended (onboarded 201 o.id (some p.id))

-- No row: another request has made the project.
unfoldable pub after_inserting :
    Organization → World → Option OrgProject × List OrgProject → Pc × World
after_inserting o w (none, ps) = (refetching_project o, w)
after_inserting o w (some p, ps) =
    (ended (onboarded 201 o.id (some p.id)), record w { projects = ps })

-- A project that is gone again is a nil pointer in `Onboarding`.
unfoldable pub after_refetching : Organization → Option OrgProject → Pc
after_refetching o none = ended panicked
after_refetching o (some p) = ended (onboarded 201 o.id (some p.id))

module _ (to_lower : Bytes → Bytes) where
  unfoldable pub admit : Bytes → ℕ → Action → Option ℕ → Pc
  unfolding enter
  admit user org a (some code) = fail code
  admit user org a none = enter to_lower user org a

  -- One statement.
  unfoldable pub step : Now → Pc → World → Pc × World
  unfolding admit by_member min_role member_row new_org new_invite after_target after_leaver
      after_invite after_orgs after_inviting after_existing after_creating after_ensuring
      after_inserting after_refetching
  step n idle w = (idle, w)
  step n (ended r) w = (ended r, w)
  step n (authorizing user org a) w = (
    admit user org a (
        by_member (min_role a)
          (if n.fails then member_error else role_of (get_org_member org user w.members))),
    w,
  )
  step n (putting_org org name email) w =
      if n.fails || not (any_live org w.orgs)
      then (fail 500, w)
      else (fail 200, record w { orgs = update_organization n.time org name email w.orgs })
  step n (dropping_org org) w =
      if n.fails || not (any_live org w.orgs)
      then (fail 500, w)
      else (fail 200, record w { orgs = soft_delete_organization n.time org w.orgs })
  step n (finding_target org user role) w =
      (after_target org user role (if n.fails then none else get_org_member org user w.members), w)
  step n (setting_role org user role) w =
      if n.fails || not (any_row (is_active_of org user) w.members)
      then (fail 500, w)
      else (fail 200, record w { members = update_org_member_role org user role w.members })
  step n (finding_leaver org user) w =
      (after_leaver org user (if n.fails then none else get_org_member org user w.members), w)
  step n (counting_owners org user) w =
      if n.fails
      then (fail 500, w)
      else if leb (count_active_owners org w.members) 1
      then (fail 403, w)
      else (removing org user, w)
  step n (removing org user) w =
      if n.fails || not (any_row (is_active_of org user) w.members)
      then (fail 500, w)
      else (fail 200, record w { members = remove_org_member n.time org user w.members })
  step n (inviting org email token role by) w =
      after_inviting w (create_invite n.fails (new_invite n org email token role by) w.invites)
  step n (revoking org token) w =
      if n.fails || not (any_open org token w.invites)
      then (fail 404, w)
      else (fail 200, record w { invites = revoke_invite n.time org token w.invites })
  step n (finding_invite token user) w =
      if n.fails
      then (fail 500, w)
      else (after_invite n.time user (get_invite_by_token token w.invites), w)
  step n (finding_existing v user) w =
      if n.fails
      then (fail 500, w)
      else (after_existing v user (get_org_member v.org user w.members), w)
  step n (accepting v user) w =
      if n.fails || not (any_pending v.token w.invites)
      then (fail 500, w)
      else (joining v user, record w { invites = accept_invite n.time v.token user w.invites })
  step n (joining v user) w = if n.fails then (fail 500, w) else (
    fail 200,
    record w { members = add_org_member (member_row n v.org user v.role) w.members },
  )
  step n (listing_orgs user name email slug) w =
      if n.fails
      then (fail 500, w)
      else (after_orgs user name email slug (get_organizations_for_user user w.members w.orgs), w)
  step n (finding_project o) w = (
    ended (
        onboarded 200 o.id
          (project_id (if n.fails then none else get_organization_project o.id w.projects))),
    w,
  )
  step n (creating_org user name email slug) w =
      let o = new_org n user name email slug in
      after_creating o user w (create_organization n.fails o w.orgs)
  step n (seeding_owner o user) w = if n.fails then (fail 500, w) else (
    ensuring_project o,
    record w { members = add_org_member (member_row n o.id user (codes "owner")) w.members },
  )
  step n (ensuring_project o) w =
      if n.fails
      then (fail 500, w)
      else (after_ensuring o (get_organization_project o.id w.projects), w)
  step n (inserting_project o) w =
      if n.fails
      then (fail 500, w)
      else after_inserting o w (insert_project n.id o.id o.name w.projects)
  step n (refetching_project o) w =
      if n.fails
      then (fail 500, w)
      else (after_refetching o (get_organization_project o.id w.projects), w)
  step n (erasing user) w =
      if n.fails
      then (fail 500, w)
      else (fail 204, record w { members = delete_clerk_user n.time user w.members })
