-- ===== src/Cloud/Requests.antt =====
-- internal/api/handlers/cloud_handlers.go and webhook_handler.go: requests that write organizations,
-- members and invites, up to their first SQL statement. A body is none where it does not decode;
-- generated texts come with the request, none where the generator fails.
use vaultkey.Prelude.{
  ℕ, Bool, true, false, not, ◌&&◌, ◌||◌, Option, none, some, [], ◌∷◌, Bytes, bytes_eq, codes, ◌==◌,
  leb, if◌then◌else◌,
}
use vaultkey.Amount.{trim_space}
use vaultkey.Access.{is_empty, has_prefix}
use vaultkey.Cloud.Orgs.{Organization}
use vaultkey.Cloud.Invites.{Invite}

-- Handlers of routes with {org_id}, which run behind `OrgAuthz`.
pub data Action : Type 0 where
  update_org : Option (Bytes × Bytes) → Action
  delete_org : Action
  update_member : Bytes → Option Bytes → Action
  remove_member : Bytes → Action
  send_invite : Option (Bytes × Bytes) → Option Bytes → Action
  withdraw_invite : Bytes → Action

pub data Request : Type 0 where
  org_route : Bytes → ℕ → Action → Request
  onboarding : Bytes → Option (Bytes × Bytes) → Bytes → Request
  accept : Bytes → Bytes → Request
  user_deleted : Bytes → Request

pub data Reply : Type 0 where
  status : ℕ → Reply
  -- the status, the organization's id and the project's
  onboarded : ℕ → ℕ → Option ℕ → Reply
  panicked : Reply

-- Where a request stands: its next statement, with the local variables that are live there.
pub data Pc : Type 0 where
  idle : Pc
  ended : Reply → Pc
  authorizing : Bytes → ℕ → Action → Pc
  putting_org : ℕ → Bytes → Bytes → Pc
  dropping_org : ℕ → Pc
  finding_target : ℕ → Bytes → Bytes → Pc
  setting_role : ℕ → Bytes → Bytes → Pc
  finding_leaver : ℕ → Bytes → Pc
  counting_owners : ℕ → Bytes → Pc
  removing : ℕ → Bytes → Pc
  inviting : ℕ → Bytes → Bytes → Bytes → Bytes → Pc
  revoking : ℕ → Bytes → Pc
  finding_invite : Bytes → Bytes → Pc
  finding_existing : Invite → Bytes → Pc
  accepting : Invite → Bytes → Pc
  joining : Invite → Bytes → Pc
  listing_orgs : Bytes → Bytes → Bytes → Bytes → Pc
  finding_project : Organization → Pc
  creating_org : Bytes → Bytes → Bytes → Bytes → Pc
  seeding_owner : Organization → Bytes → Pc
  ensuring_project : Organization → Pc
  inserting_project : Organization → Pc
  refetching_project : Organization → Pc
  erasing : Bytes → Pc

-- The minimal roles of the routes in `registerCloudRoutes`.
unfoldable pub min_role : Action → Bytes
min_role delete_org = codes "owner"
min_role _ = codes "admin"

unfoldable pub is_alphanumeric : Bytes → Bool
is_alphanumeric [] = true
is_alphanumeric (c ∷ s) =
    (leb b'a' c && leb c b'z' || leb b'A' c && leb c b'Z' || leb b'0' c && leb c b'9')
    && is_alphanumeric s

unfoldable pub after_prefix : Bytes → Bytes
after_prefix (u ∷ s ∷ e ∷ r ∷ bar ∷ rest) = rest
after_prefix _ = []

-- `^user_[a-zA-Z0-9]+$`
unfoldable pub is_clerk_user_id : Bytes → Bool
unfolding is_alphanumeric after_prefix has_prefix is_empty
is_clerk_user_id s =
    has_prefix (codes "user_") s
    && not (is_empty (after_prefix s))
    && is_alphanumeric (after_prefix s)

-- `validRoles`
unfoldable pub is_valid_role : Bytes → Bool
is_valid_role role =
    bytes_eq role (codes "admin")
    || bytes_eq role (codes "developer")
    || bytes_eq role (codes "viewer")

unfoldable pub contains_byte : ℕ → Bytes → Bool
contains_byte b [] = false
contains_byte b (c ∷ s) = c == b || contains_byte b s

unfoldable pub role_or_developer : Bytes → Bytes
role_or_developer [] = codes "developer"
role_or_developer (c ∷ s) = c ∷ s

abbrev pub fail : ℕ → Pc
fail n = ended (status n)

-- `CreateInvite` up to the INSERT, on the cleaned email
unfoldable pub enter_invite : Bytes → ℕ → Bytes → Bytes → Option Bytes → Pc
unfolding is_empty contains_byte is_valid_role
enter_invite by org email role token =
    if is_empty email || not (contains_byte b'@' email)
    then fail 400
    else if is_valid_role role
    then elim token [ none ↦ fail 500 | some t ↦ inviting org email t role by ]
    else fail 400

module _ (to_lower : Bytes → Bytes) where
  -- What follows `OrgAuthz`, for the caller and the organization that it key_found.
  unfoldable pub enter : Bytes → ℕ → Action → Pc
  unfolding is_clerk_user_id is_valid_role enter_invite role_or_developer is_empty trim_space
  enter by org (update_org none) = fail 400
  enter by org (update_org (some (name, email))) =
      if is_empty (trim_space name)
      then fail 400
      else putting_org org (trim_space name) (trim_space email)
  enter by org delete_org = dropping_org org
  enter by org (update_member target none) = fail 400
  enter by org (update_member target (some role)) =
      if is_clerk_user_id target && is_valid_role role
      then finding_target org target role
      else fail 400
  enter by org (remove_member target) =
      if is_clerk_user_id target then finding_leaver org target else fail 400
  enter by org (send_invite none token) = fail 400
  enter by org (send_invite (some (email, role)) token) =
      enter_invite by org (to_lower (trim_space email)) (role_or_developer role) token
  enter by org (withdraw_invite token) = if is_empty token then fail 400 else revoking org token

-- `Onboarding` up to its first query
unfoldable pub enter_onboarding : Bytes → Option (Bytes × Bytes) → Bytes → Pc
unfolding is_empty trim_space
enter_onboarding user none slug = fail 400
enter_onboarding user (some (name, email)) slug =
    if is_empty (trim_space name)
    then fail 400
    else listing_orgs user (trim_space name) (trim_space email) slug

-- `AcceptInvite` up to its first query
unfoldable pub enter_accept : Bytes → Bytes → Pc
unfolding is_empty
enter_accept user token = if is_empty token then fail 400 else finding_invite token user

-- `handleUserDeleted` up to its UPDATE
unfoldable pub enter_deleted : Bytes → Pc
unfolding is_empty
enter_deleted user = if is_empty user then fail 400 else erasing user

unfoldable pub arrive : Request → Pc
unfolding is_empty enter_onboarding enter_accept enter_deleted
arrive (org_route user org a) = if is_empty user then fail 401 else authorizing user org a
arrive (onboarding user body slug) =
    if is_empty user then fail 401 else enter_onboarding user body slug
arrive (accept user token) = enter_accept user token
arrive (user_deleted user) = enter_deleted user
