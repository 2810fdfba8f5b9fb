-- ===== src/Cloud/Harmless.antt =====
-- internal/api/handlers/cloud_handlers.go: what a request has made sure of when it comes to
-- a statement, for the owner of an organization.
use vaultkey.Prelude.{
  ℕ, ◌≡◌, subst, true, false, not, ◌||◌, Bool-cases, Option, none, some, inl, inr, Bytes, bytes_eq,
  bytes_eq_sound, ◌==◌, All,
}
use vaultkey.Amount.{trim_space}
use vaultkey.Access.{is_empty}
use vaultkey.Cloud.Members.{count_active_owners}
use vaultkey.Cloud.Owners.{is_pair, owner, IsSole}
use vaultkey.Cloud.Roles.{IsLow, has_org}
use vaultkey.Cloud.Requests.{
  Action, update_org, delete_org, update_member, remove_member, send_invite, withdraw_invite, Pc,
  finding_target, setting_role, removing, inviting, finding_existing, accepting, joining,
  seeding_owner, erasing, is_valid_role, is_clerk_user_id, contains_byte, role_or_developer,
  enter_invite, fail, enter,
}
use vaultkey.Cloud.Handlers.{World}

-- An organization that the user `u` alone owns.
pub record IsOwned (o : ℕ) (u : Bytes) (w : World) : Type 0 where
  pub known : has_org o w.orgs ≡ true
  pub sole : All (IsSole o u) w.members
  pub one : count_active_owners o w.members ≡ 1
  pub low : All IsLow w.invites

pub valid_role-low : (role : Bytes) → is_valid_role role ≡ true → bytes_eq role owner ≡ false
unfolding is_valid_role bytes_eq
valid_role-low role h = elim (Bool-cases (bytes_eq role owner)) [
  | inl e ↦
      let false_true : is_valid_role owner ≡ true =
        subst (λ r. is_valid_role r ≡ true) (bytes_eq_sound role owner e) h in
      cc
  | inr e ↦ e
]

module _ (o : ℕ) (u : Bytes) where
  -- What a request that has come to a statement has made sure of.
  abbrev pub IsHarmless : Pc → Type 0
  IsHarmless (finding_target org v role) = bytes_eq role owner ≡ false
  IsHarmless (setting_role org v role) = (is_pair o u org v ≡ false) × (bytes_eq role owner ≡ false)
  IsHarmless (removing org v) = is_pair o u org v ≡ false
  IsHarmless (inviting org email token role by) = bytes_eq role owner ≡ false
  IsHarmless (finding_existing v user) = IsLow v
  IsHarmless (accepting v user) = IsLow v × (is_pair o u v.org user ≡ false)
  IsHarmless (joining v user) = IsLow v × (is_pair o u v.org user ≡ false)
  IsHarmless (seeding_owner x user) = x.id == o ≡ false
  IsHarmless (erasing v) = bytes_eq v u ≡ false
  IsHarmless _ = Unit

  abbrev pub IsKept : Pc × World → Type 0
  IsKept (p, w) = IsHarmless p × IsOwned o u w

  enter_invite-IsHarmless :
      (by : Bytes) (org : ℕ) (email role : Bytes) (token : Option Bytes)
      → IsHarmless (enter_invite by org email role token)
  unfolding enter_invite
  enter_invite-IsHarmless by org email role token =
      elim (Bool-cases (is_empty email || not (contains_byte b'@' email))) [
        | inl e ↦ rw e tt
        | inr e ↦ elim (Bool-cases (is_valid_role role)) [
          | inl ok ↦ rw (e, ok) (with_token token (valid_role-low role ok))
          | inr bad ↦ rw (e, bad) tt
        ]
      ]
    where
      with_token :
          (t : Option Bytes)
          → bytes_eq role owner ≡ false
          → IsHarmless (elim t [ none ↦ fail 500 | some t ↦ inviting org email t role by ])
      with_token none h = tt
      with_token (some t) h = h

  module _ (to_lower : Bytes → Bytes) where
    pub enter-IsHarmless :
        (by : Bytes) (org : ℕ) (a : Action) → IsHarmless (enter to_lower by org a)
    unfolding enter
    enter-IsHarmless by org (update_org none) = tt
    enter-IsHarmless by org (update_org (some (name, email))) =
        elim (Bool-cases (is_empty (trim_space name))) [ inl e ↦ rw e tt | inr e ↦ rw e tt ]
    enter-IsHarmless by org delete_org = tt
    enter-IsHarmless by org (update_member target none) = tt
    enter-IsHarmless by org (update_member target (some role)) =
        elim (Bool-cases (is_clerk_user_id target)) [
          | inl e ↦ elim (Bool-cases (is_valid_role role)) [
            | inl ok ↦ rw (e, ok) (valid_role-low role ok)
            | inr bad ↦ rw (e, bad) tt
          ]
          | inr e ↦ rw e tt
        ]
    enter-IsHarmless by org (remove_member target) = elim (Bool-cases (is_clerk_user_id target)) [
      | inl e ↦ rw e tt
      | inr e ↦ rw e tt
    ]
    enter-IsHarmless by org (send_invite none token) = tt
    enter-IsHarmless by org (send_invite (some (email, role)) token) =
        enter_invite-IsHarmless by org (to_lower (trim_space email)) (role_or_developer role) token
    enter-IsHarmless by org (withdraw_invite token) = elim (Bool-cases (is_empty token)) [
      | inl e ↦ rw e tt
      | inr e ↦ rw e tt
    ]
