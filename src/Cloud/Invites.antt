-- ===== src/Cloud/Invites.antt =====
-- internal/storage/cloud_store.go: the table invites. Ids and times are the database's.
use vaultkey.Prelude.{
  ℕ, Bool, false, ◌&&◌, ◌||◌, Option, none, some, List, [], ◌∷◌, Bytes, bytes_eq, ◌==◌,
  if◌then◌else◌,
}
use vaultkey.Cloud.Members.{is_null}

pub record Invite : Type 0 where
  pub id : ℕ
  pub org : ℕ
  pub email : Bytes
  pub token : Bytes
  pub role : Bytes
  pub created_by : Bytes
  pub expires_at : ℕ
  pub accepted_at : Option ℕ
  pub accepted_by : Option Bytes
  pub deleted_at : Option ℕ

unfoldable pub has_token : Bytes → List Invite → Bool
has_token token [] = false
has_token token (v ∷ vs) = bytes_eq v.token token || has_token token vs

-- `CreateInvite`; none is an error, such as a token that is there.
unfoldable pub create_invite : Bool → Invite → List Invite → Option (List Invite)
unfolding has_token
create_invite fails new vs = if fails || has_token new.token vs then none else some (new ∷ vs)

unfoldable pub is_open : Bytes → Invite → Bool
unfolding is_null
is_open token v = bytes_eq v.token token && is_null v.deleted_at

-- `GetInviteByToken`: neither acceptance nor expiry is asked for.
unfoldable pub get_invite_by_token : Bytes → List Invite → Option Invite
unfolding is_open
get_invite_by_token token [] = none
get_invite_by_token token (v ∷ vs) =
    let rest = get_invite_by_token token vs in if is_open token v then some v else rest

-- `ListOrgInvites`, newest row first in the table and in the answer.
unfoldable pub list_org_invites : ℕ → List Invite → List Invite
unfolding is_null
list_org_invites org [] = []
list_org_invites org (v ∷ vs) =
    let rest = list_org_invites org vs in
    if v.org == org && is_null v.deleted_at then v ∷ rest else rest

unfoldable pub is_pending : Bytes → Invite → Bool
unfolding is_open is_null
is_pending token v = is_open token v && is_null v.accepted_at

unfoldable pub any_pending : Bytes → List Invite → Bool
unfolding is_pending
any_pending token [] = false
any_pending token (v ∷ vs) = is_pending token v || any_pending token vs

-- `AcceptInvite`; `any_pending` tells whether it returns a row.
unfoldable pub accept_invite : ℕ → Bytes → Bytes → List Invite → List Invite
unfolding is_pending
accept_invite now token user [] = []
accept_invite now token user (v ∷ vs) =
    let rest = accept_invite now token user vs in
    if is_pending token v
    then record v { accepted_at = some now; accepted_by = some user } ∷ rest
    else v ∷ rest

unfoldable pub is_open_in : ℕ → Bytes → Invite → Bool
unfolding is_open
is_open_in org token v = v.org == org && is_open token v

unfoldable pub any_open : ℕ → Bytes → List Invite → Bool
unfolding is_open_in
any_open org token [] = false
any_open org token (v ∷ vs) = is_open_in org token v || any_open org token vs

-- `RevokeInvite`; `any_open` tells whether it finds the invite.
unfoldable pub revoke_invite : ℕ → ℕ → Bytes → List Invite → List Invite
unfolding is_open_in
revoke_invite now org token [] = []
revoke_invite now org token (v ∷ vs) =
    let rest = revoke_invite now org token vs in
    if is_open_in org token v then record v { deleted_at = some now } ∷ rest else v ∷ rest
