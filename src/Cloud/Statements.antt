-- ===== src/Cloud/Statements.antt =====
-- internal/api/handlers/cloud_handlers.go: one owner of an organization, under each statement of
-- a request.
use vaultkey.Prelude.{
  ℕ, ◌≡◌, ◌∙◌, Bool, true, false, ◌||◌, Bool-cases, Option, none, some, inl, inr, Option-cases,
  List, [], ◌∷◌, Bytes, bytes_eq, bytes_eq_sound, leb, ◌==◌, All, if◌then◌else◌, arith,
}
use vaultkey.Cloud.Members.{
  MemberRow, get_org_member, count_active_owners, add_org_member, update_org_member_role,
  remove_org_member, delete_clerk_user,
}
use vaultkey.Cloud.Orgs.{Organization, OrgProject, is_taken, create_organization}
use vaultkey.Cloud.Invites.{Invite, create_invite, has_token, get_invite_by_token}
use vaultkey.Cloud.Owners.{
  is_pair, owner, IsSole, update_where-IsSole, set_role-IsSole, set_deleted-IsSole, erased-IsSole,
  add_org_member-IsSole, get_org_member-ne-none, get_org_member-IsOther,
}
use vaultkey.Cloud.Roles.{IsLow, get_invite_by_token-IsLow, has_org, is_taken-ne}
use vaultkey.Cloud.Requests.{Action, Pc, ensuring_project, fail}
use vaultkey.Cloud.Harmless.{IsOwned, IsHarmless, IsKept, enter-IsHarmless}
use vaultkey.Cloud.Handlers.{
  World, Now, after_target, after_leaver, after_invite, after_orgs, after_inviting, after_existing,
  after_creating, after_ensuring, after_inserting, after_refetching, admit, member_row,
}

module _ (o : ℕ) (u : Bytes) (to_lower : Bytes → Bytes) where
  -- A failed statement leaves the tables.
  pub unless :
      (b : Bool) (w : World) (code : ℕ) (next : Pc × World)
      → IsOwned o u w
      → IsKept o u next
      → IsKept o u (if b then (fail code, w) else next)
  unless true w code next h k = (tt, h)
  unless false w code next h k = k

  pub with_members :
      (w : World) (ms : List MemberRow) (code : ℕ)
      → IsOwned o u w
      → All (IsSole o u) ms × (count_active_owners o ms ≡ count_active_owners o w.members)
      → IsKept o u (fail code, record w { members = ms })
  with_members w ms code h (sole, same) =
      (tt, record { known = h.known; sole = sole; one = same ∙ h.one; low = h.low })

  pub admit-IsHarmless :
      (user : Bytes) (org : ℕ) (a : Action) (verdict : Option ℕ)
      → IsHarmless o u (admit to_lower user org a verdict)
  unfolding admit
  admit-IsHarmless user org a (some code) = tt
  admit-IsHarmless user org a none = enter-IsHarmless o u to_lower user org a

  pub after_target-IsHarmless :
      (org : ℕ) (v role : Bytes) (w : World) (fails : Bool)
      → bytes_eq role owner ≡ false
      → IsOwned o u w
      → IsHarmless o u
          (after_target org v role (if fails then none else get_org_member org v w.members))
  unfolding after_target
  after_target-IsHarmless org v role w true low h = tt
  after_target-IsHarmless org v role w false low h =
      elim (Option-cases (get_org_member org v w.members)) [
        | inl e ↦ rw e tt
        | inr (m, e) ↦ elim (Bool-cases (bytes_eq m.role owner)) [
          | inl yes_owner ↦ rw (e, yes_owner) tt
          | inr no_owner ↦
              rw (e, no_owner) (get_org_member-IsOther o u org v w.members h.sole e no_owner, low)
        ]
      ]

  pub after_leaver-IsHarmless :
      (org : ℕ) (v : Bytes) (w : World) (fails : Bool)
      → IsOwned o u w
      → IsHarmless o u (after_leaver org v (if fails then none else get_org_member org v w.members))
  unfolding after_leaver
  after_leaver-IsHarmless org v w true h = tt
  after_leaver-IsHarmless org v w false h = elim (Option-cases (get_org_member org v w.members)) [
    | inl e ↦ rw e tt
    | inr (m, e) ↦ elim (Bool-cases (bytes_eq m.role owner)) [
      | inl yes_owner ↦ rw (e, yes_owner) tt
      | inr no_owner ↦
          rw (e, no_owner) (get_org_member-IsOther o u org v w.members h.sole e no_owner)
    ]
  ]

  -- Where more than one owner is counted, it is another organization.
  pub counted-IsOther :
      (org : ℕ) (v : Bytes) (w : World)
      → IsOwned o u w
      → leb (count_active_owners org w.members) 1 ≡ false
      → is_pair o u org v ≡ false
  counted-IsOther org v w h many = elim (Bool-cases (org == o)) [
    | inl same ↦
        let here : org ≡ o = ground arith in
        let one : count_active_owners org w.members ≡ 1 = rw here h.one in absurd (ground arith)
    | inr other ↦ rw other
  ]

  pub after_invite-IsHarmless :
      (now : ℕ) (user token : Bytes) (w : World)
      → IsOwned o u w
      → IsHarmless o u (after_invite now user (get_invite_by_token token w.invites))
  unfolding after_invite
  after_invite-IsHarmless now user token w h =
      elim (Option-cases (get_invite_by_token token w.invites)) [
        | inl e ↦ rw e tt
        | inr (v, e) ↦
            let low = get_invite_by_token-IsLow token w.invites h.low e in rw e (ground arith)
      ]

  -- Whoever is no member is not the owner.
  pub stranger-IsOther :
      (org : ℕ) (v : Bytes) (w : World)
      → IsOwned o u w
      → get_org_member org v w.members ≡ none
      → is_pair o u org v ≡ false
  stranger-IsOther org v w h absent = elim (Bool-cases (is_pair o u org v)) [
    | inl same ↦
        let org_same : org ≡ o = ground arith in
        let user_same : v ≡ u = bytes_eq_sound v u (ground arith) in
        let gone : get_org_member o u w.members ≡ none = rw (← org_same, ← user_same) absent in
        absurd (ground (arith, get_org_member-ne-none o u w.members h.sole gone))
    | inr other ↦ other
  ]

  pub existing-IsHarmless :
      (v : Invite) (user : Bytes) (w : World)
      → IsLow v
      → IsOwned o u w
      → IsHarmless o u (after_existing v user (get_org_member v.org user w.members))
  unfolding after_existing
  existing-IsHarmless v user w low h = elim (Option-cases (get_org_member v.org user w.members)) [
    | inl e ↦ rw e (low, stranger-IsOther v.org user w h e)
    | inr (m, e) ↦ rw e tt
  ]

  abbrev pub SoleAfter : World → List MemberRow → Type 0
  SoleAfter w ms =
      All (IsSole o u) ms × (count_active_owners o ms ≡ count_active_owners o w.members)

  pub role_set-IsSole :
      (org : ℕ) (v role : Bytes) (w : World)
      → is_pair o u org v ≡ false
      → bytes_eq role owner ≡ false
      → IsOwned o u w
      → SoleAfter w (update_org_member_role org v role w.members)
  unfolding update_org_member_role
  role_set-IsSole org v role w other low h =
      update_where-IsSole o u _ _ (λ m. set_role-IsSole o u org v role m other low) w.members h.sole

  pub removed-IsSole :
      (now org : ℕ) (v : Bytes) (w : World)
      → is_pair o u org v ≡ false
      → IsOwned o u w
      → SoleAfter w (remove_org_member now org v w.members)
  unfolding remove_org_member
  removed-IsSole now org v w other h =
      update_where-IsSole o u _ _ (λ m. set_deleted-IsSole o u now org v m other) w.members h.sole

  pub user_erased-IsSole :
      (now : ℕ) (v : Bytes) (w : World)
      → bytes_eq v u ≡ false
      → IsOwned o u w
      → SoleAfter w (delete_clerk_user now v w.members)
  unfolding delete_clerk_user
  user_erased-IsSole now v w other h =
      update_where-IsSole o u _ _ (λ m. erased-IsSole o u now v m other) w.members h.sole

  pub joined-IsSole :
      (n : Now) (v : Invite) (user : Bytes) (w : World)
      → IsLow v
      → is_pair o u v.org user ≡ false
      → IsOwned o u w
      → SoleAfter w (add_org_member (member_row n v.org user v.role) w.members)
  unfolding member_row
  joined-IsSole n v user w low other h =
      add_org_member-IsSole o u _ w.members other (ground arith) h.sole

  pub invited-IsKept :
      (fails : Bool) (new : Invite) (w : World)
      → IsLow new
      → IsOwned o u w
      → IsKept o u (after_inviting w (create_invite fails new w.invites))
  unfolding after_inviting create_invite
  invited-IsKept fails new w low h = elim (Bool-cases (fails || has_token new.token w.invites)) [
    | inl e ↦ rw e (tt, h)
    | inr e ↦ rw e (tt, record { known = h.known; sole = h.sole; one = h.one; low = (low, h.low) })
  ]

  pub created-IsKept :
      (fails : Bool) (new : Organization) (user : Bytes) (w : World)
      → IsOwned o u w
      → IsKept o u (after_creating new user w (create_organization fails new w.orgs))
  unfolding after_creating create_organization has_org
  created-IsKept fails new user w h = elim (Bool-cases (fails || is_taken new w.orgs)) [
    | inl e ↦ rw e (tt, h)
    | inr e ↦
        let other = is_taken-ne o new w.orgs h.known (ground arith) in
        rw e (other, record { known = rw other h.known; sole = h.sole; one = h.one; low = h.low })
  ]

  pub inserted-IsKept :
      (x : Organization) (w : World) (made : Option OrgProject × List OrgProject)
      → IsOwned o u w
      → IsKept o u (after_inserting x w made)
  unfolding after_inserting
  inserted-IsKept x w (none, ps) h = (tt, h)
  inserted-IsKept x w (some p, ps) h =
      (tt, record { known = h.known; sole = h.sole; one = h.one; low = h.low })

  pub key_found-IsHarmless :
      (x : Organization) (p : Option OrgProject)
      → IsHarmless o u (after_ensuring x p) × IsHarmless o u (after_refetching x p)
  unfolding after_ensuring after_refetching
  key_found-IsHarmless x none = (tt, tt)
  key_found-IsHarmless x (some p) = (tt, tt)

  pub seeded-IsKept :
      (n : Now) (x : Organization) (user : Bytes) (w : World)
      → x.id == o ≡ false
      → IsOwned o u w
      → IsKept o u (
        ensuring_project x,
        record w { members = add_org_member (member_row n x.id user owner) w.members },
      )
  unfolding member_row
  seeded-IsKept n x user w other h =
      let (sole, same) =
        add_org_member-IsSole o u (member_row n x.id user owner) w.members (rw other) (rw other)
          h.sole in
      (tt, record { known = h.known; sole = sole; one = same ∙ h.one; low = h.low })

  pub after_orgs-IsHarmless :
      (user name email slug : Bytes) (os : List Organization)
      → IsHarmless o u (after_orgs user name email slug os)
  unfolding after_orgs
  after_orgs-IsHarmless user name email slug [] = tt
  after_orgs-IsHarmless user name email slug (x ∷ os) = tt
