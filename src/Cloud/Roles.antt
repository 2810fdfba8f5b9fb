-- ===== src/Cloud/Roles.antt =====
-- internal/storage/cloud_store.go: the roles of invites, and the ids of organizations, under the
-- statements that write them.
use vaultkey.Prelude.{
  ℕ, ◌≡◌, refl, Bool, true, false, ◌||◌, Bool-cases, some, inl, inr, List, [], ◌∷◌, Bytes, bytes_eq,
  ◌==◌, All, arith,
}
use vaultkey.Cloud.Orgs.{
  Organization, is_taken, is_live, update_organization, soft_delete_organization,
}
use vaultkey.Cloud.Invites.{
  Invite, get_invite_by_token, is_open, is_pending, accept_invite, is_open_in, revoke_invite,
}
use vaultkey.Cloud.Owners.{owner}

-- Invites that make nobody an owner, as the table's CHECK has it.
abbrev pub IsLow : Invite → Type 0
IsLow v = bytes_eq v.role owner ≡ false

pub accept_invite-IsLow :
    (now : ℕ) (token user : Bytes) (vs : List Invite)
    → All IsLow vs
    → All IsLow (accept_invite now token user vs)
unfolding accept_invite
accept_invite-IsLow now token user [] h = tt
accept_invite-IsLow now token user (v ∷ vs) h =
    let rest = accept_invite-IsLow now token user vs h.1 in
    elim (Bool-cases (is_pending token v)) [ inl e ↦ rw e (h.0, rest) | inr e ↦ rw e (h.0, rest) ]

pub revoke_invite-IsLow :
    (now org : ℕ) (token : Bytes) (vs : List Invite)
    → All IsLow vs
    → All IsLow (revoke_invite now org token vs)
unfolding revoke_invite
revoke_invite-IsLow now org token [] h = tt
revoke_invite-IsLow now org token (v ∷ vs) h =
    let rest = revoke_invite-IsLow now org token vs h.1 in
    elim (Bool-cases (is_open_in org token v)) [
      | inl e ↦ rw e (h.0, rest)
      | inr e ↦ rw e (h.0, rest)
    ]

pub get_invite_by_token-IsLow :
    (token : Bytes) (vs : List Invite) {v : Invite}
    → All IsLow vs
    → get_invite_by_token token vs ≡ some v
    → IsLow v
unfolding get_invite_by_token
get_invite_by_token-IsLow token [] h e = cc
get_invite_by_token-IsLow token (x ∷ vs) {v} h e = elim (Bool-cases (is_open token x)) [
  | inl hit ↦ let same : some x ≡ some v = (rw hit at e) in ground arith
  | inr miss ↦ get_invite_by_token-IsLow token vs h.1 (rw miss at e)
]

-- Whether the table has the organization, deleted or not.
unfoldable pub has_org : ℕ → List Organization → Bool
has_org o [] = false
has_org o (x ∷ xs) = x.id == o || has_org o xs

pub has_org-update :
    (o now id : ℕ) (name email : Bytes) (os : List Organization)
    → has_org o (update_organization now id name email os) ≡ has_org o os
unfolding has_org update_organization
has_org-update o now id name email [] = refl
has_org-update o now id name email (x ∷ os) =
    let rest = has_org-update o now id name email os in
    elim (Bool-cases (is_live id x)) [ inl e ↦ rw (e, rest) | inr e ↦ rw (e, rest) ]

pub has_org-delete :
    (o now id : ℕ) (os : List Organization)
    → has_org o (soft_delete_organization now id os) ≡ has_org o os
unfolding has_org soft_delete_organization
has_org-delete o now id [] = refl
has_org-delete o now id (x ∷ os) =
    let rest = has_org-delete o now id os in
    elim (Bool-cases (is_live id x)) [ inl e ↦ rw (e, rest) | inr e ↦ rw (e, rest) ]

-- A new organization has another id.
pub is_taken-ne :
    (o : ℕ) (new : Organization) (os : List Organization)
    → has_org o os ≡ true
    → is_taken new os ≡ false
    → new.id == o ≡ false
unfolding has_org is_taken
is_taken-ne o new [] h e = ground arith
is_taken-ne o new (x ∷ os) h e = ground (arith, is_taken-ne o new os)
