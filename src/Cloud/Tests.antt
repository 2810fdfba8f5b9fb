-- ===== src/Cloud/Tests.antt =====
-- Two admins who change members at once, and two sessions with one invite.
use vaultkey.Prelude.{◌≡◌, ◌≤◌, refl, some, List, [], ◌∷◌, Bytes, codes, bytes_eq}
use vaultkey.Cloud.Members.{
  MemberRow, is_owner_of, is_active_of, is_of, count_active_owners, get_org_member, any_row,
  update_org_member_role,
}
use vaultkey.Cloud.Invites.{get_invite_by_token, any_pending, accept_invite}
use vaultkey.Cloud.Owners.{owner}
use vaultkey.Cloud.Harmless.{IsOwned}
use vaultkey.Cloud.Roles.{has_org}
use vaultkey.Cloud.Ownership.{happen_all-owner}
use vaultkey.Cloud.SingleUse.{acceptances, acceptances-le-one}
use vaultkey.Cloud.Requests.{org_route, accept, remove_member, update_member, ended, status}
use vaultkey.Cloud.Sessions.{Event, arrives, advances, happen_all}
use vaultkey.Cloud.Samples.{ann, bob, eve, acme_world, acme_system, fine}

abbrev as_is : Bytes → Bytes
as_is s = s

-- Bob asks to remove Ann, and Ann to make Bob a viewer, in turns.
abbrev quarrel : List Event
quarrel =
    arrives 0 (org_route bob 1 (remove_member ann))
    ∷ arrives 1 (org_route ann 1 (update_member bob (some (codes "viewer"))))
    ∷ advances 0 (fine 0)
    ∷ advances 1 (fine 0)
    ∷ advances 0 (fine 0)
    ∷ advances 1 (fine 0)
    ∷ advances 1 (fine 0)
    ∷ advances 0 (fine 0)
    ∷ []

acme_IsOwned : IsOwned 1 ann acme_world
unfolding has_org is_owner_of is_active_of is_of count_active_owners bytes_eq
acme_IsOwned = record { known = refl; sole = (refl, (refl, tt)); one = refl; low = (refl, tt) }

happen_all-owner_example :
    let ms = (happen_all as_is quarrel acme_system).world.members in
    (count_active_owners 1 ms ≡ 1)
    × ((m : MemberRow) × (get_org_member 1 ann ms ≡ some m) × (m.role ≡ owner))
happen_all-owner_example =
    happen_all-owner 1 ann as_is quarrel acme_system acme_IsOwned (λ i. refl)
      (tt, (tt, (tt, (tt, (tt, (tt, (tt, (tt, tt))))))))

bob_is_refused : (happen_all as_is quarrel acme_system).at 0 ≡ ended (status 403)
unfolding happen_all get_org_member bytes_eq count_active_owners any_row update_org_member_role
bob_is_refused = refl

ann_succeeds : (happen_all as_is quarrel acme_system).at 1 ≡ ended (status 200)
unfolding happen_all get_org_member bytes_eq any_row
ann_succeeds = refl

abbrev race : List Event
race =
    arrives 0 (accept eve (codes "t1"))
    ∷ arrives 1 (accept (codes "user_f") (codes "t1"))
    ∷ advances 0 (fine 5)
    ∷ advances 1 (fine 6)
    ∷ advances 0 (fine 5)
    ∷ advances 1 (fine 6)
    ∷ advances 0 (fine 5)
    ∷ advances 1 (fine 6)
    ∷ []

acceptances-le-one_example : acceptances as_is (codes "t1") race acme_system ≤ 1
acceptances-le-one_example = acceptances-le-one as_is (codes "t1") race acme_system

one_accepts : acceptances as_is (codes "t1") race acme_system ≡ 1
unfolding acceptances happen_all get_invite_by_token bytes_eq get_org_member any_pending
    accept_invite
one_accepts = refl
