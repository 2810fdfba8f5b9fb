-- ===== src/Cloud/Ownership.antt =====
-- internal/api/handlers/cloud_handlers.go: who owns an organization, whatever is requested and however
-- the requests interleave.
use vaultkey.Prelude.{
  ℕ, ◌≡◌, ◌≢◌, sym, ◌∙◌, subst, Bool-cases, none, some, inl, inr, Option-cases, List, [], ◌∷◌,
  Bytes, bytes_eq, bytes_eq_sound, bytes_eq_refl, bytes_eq_iff, leb, ◌==◌, All, arith,
}
use vaultkey.Amount.{trim_space}
use vaultkey.Access.{is_empty}
use vaultkey.Cloud.Members.{MemberRow, get_org_member, count_active_owners}
use vaultkey.Cloud.Owners.{owner, get_org_member-ne-none, get_org_member-IsOther}
use vaultkey.Cloud.Roles.{accept_invite-IsLow, revoke_invite-IsLow, has_org-update, has_org-delete}
use vaultkey.Cloud.Requests.{
  Request, org_route, onboarding, accept, user_deleted, Pc, idle, ended, authorizing, putting_org,
  dropping_org, finding_target, setting_role, finding_leaver, counting_owners, removing, inviting,
  revoking, finding_invite, finding_existing, accepting, joining, listing_orgs, finding_project,
  creating_org, seeding_owner, ensuring_project, inserting_project, refetching_project, erasing,
  enter_onboarding, arrive,
}
use vaultkey.Cloud.Harmless.{IsOwned, IsHarmless, IsKept}
use vaultkey.Cloud.Handlers.{World, Now, step}
use vaultkey.Cloud.Sessions.{System, Event, arrives, advances, put_at, admitted, happen, happen_all}
use vaultkey.Cloud.Statements.{
  unless, with_members, admit-IsHarmless, after_target-IsHarmless, after_leaver-IsHarmless,
  counted-IsOther, after_invite-IsHarmless, existing-IsHarmless, role_set-IsSole, removed-IsSole,
  user_erased-IsSole, joined-IsSole, invited-IsKept, created-IsKept, inserted-IsKept,
  key_found-IsHarmless, seeded-IsKept, after_orgs-IsHarmless,
}

-- Requests other than Clerk's report that the user is deleted.
abbrev pub Spares : Bytes → Request → Type 0
Spares u (user_deleted v) = v ≢ u
Spares u _ = Unit

abbrev pub Allowed : Bytes → Event → Type 0
Allowed u (arrives i r) = Spares u r
Allowed u (advances i n) = Unit

module _ (o : ℕ) (u : Bytes) (to_lower : Bytes → Bytes) where
  step-IsKept :
      (n : Now) (p : Pc) (w : World)
      → IsHarmless o u p
      → IsOwned o u w
      → IsKept o u (step to_lower n p w)
  unfolding step
  step-IsKept n idle w s h = (tt, h)
  step-IsKept n (ended r) w s h = (tt, h)
  step-IsKept n (authorizing user org a) w s h = (admit-IsHarmless o u to_lower user org a _, h)
  step-IsKept n (putting_org org name email) w s h = unless o u to_lower _ w 500 _ h (
    tt,
    record {
      known = has_org-update o n.time org name email w.orgs ∙ h.known;
      sole = h.sole;
      one = h.one;
      low = h.low;
    },
  )
  step-IsKept n (dropping_org org) w s h = unless o u to_lower _ w 500 _ h (
    tt,
    record {
      known = has_org-delete o n.time org w.orgs ∙ h.known;
      sole = h.sole;
      one = h.one;
      low = h.low;
    },
  )
  step-IsKept n (finding_target org v role) w s h =
      (after_target-IsHarmless o u to_lower org v role w n.fails s h, h)
  step-IsKept n (setting_role org v role) w s h =
      unless o u to_lower _ w 500 _ h
        (with_members o u to_lower w _ 200 h (role_set-IsSole o u to_lower org v role w s.0 s.1 h))
  step-IsKept n (finding_leaver org v) w s h =
      (after_leaver-IsHarmless o u to_lower org v w n.fails h, h)
  step-IsKept n (counting_owners org v) w s h = elim (Bool-cases n.fails) [
    | inl e ↦ rw e (tt, h)
    | inr e ↦ elim (Bool-cases (leb (count_active_owners org w.members) 1)) [
      | inl few ↦ rw (e, few) (tt, h)
      | inr many ↦ rw (e, many) (counted-IsOther o u to_lower org v w h many, h)
    ]
  ]
  step-IsKept n (removing org v) w s h =
      unless o u to_lower _ w 500 _ h
        (with_members o u to_lower w _ 200 h (removed-IsSole o u to_lower n.time org v w s h))
  step-IsKept n (inviting org email token role by) w s h =
      invited-IsKept o u to_lower n.fails _ w s h
  step-IsKept n (revoking org token) w s h = unless o u to_lower _ w 404 _ h (
    tt,
    record {
      known = h.known;
      sole = h.sole;
      one = h.one;
      low = revoke_invite-IsLow n.time org token w.invites h.low;
    },
  )
  step-IsKept n (finding_invite token user) w s h =
      unless o u to_lower _ w 500 _ h
        (after_invite-IsHarmless o u to_lower n.time user token w h, h)
  step-IsKept n (finding_existing v user) w s h =
      unless o u to_lower _ w 500 _ h (existing-IsHarmless o u to_lower v user w s h, h)
  step-IsKept n (accepting v user) w s h = unless o u to_lower _ w 500 _ h (
    s,
    record {
      known = h.known;
      sole = h.sole;
      one = h.one;
      low = accept_invite-IsLow n.time v.token user w.invites h.low;
    },
  )
  step-IsKept n (joining v user) w s h =
      unless o u to_lower _ w 500 _ h
        (with_members o u to_lower w _ 200 h (joined-IsSole o u to_lower n v user w s.0 s.1 h))
  step-IsKept n (listing_orgs user name email slug) w s h =
      unless o u to_lower _ w 500 _ h (after_orgs-IsHarmless o u to_lower user name email slug _, h)
  step-IsKept n (finding_project x) w s h = (tt, h)
  step-IsKept n (creating_org user name email slug) w s h =
      created-IsKept o u to_lower n.fails _ user w h
  step-IsKept n (seeding_owner x user) w s h =
      unless o u to_lower _ w 500 _ h (seeded-IsKept o u to_lower n x user w s h)
  step-IsKept n (ensuring_project x) w s h =
      unless o u to_lower _ w 500 _ h ((key_found-IsHarmless o u to_lower x _).0, h)
  step-IsKept n (inserting_project x) w s h =
      unless o u to_lower _ w 500 _ h (inserted-IsKept o u to_lower x w _ h)
  step-IsKept n (refetching_project x) w s h =
      unless o u to_lower _ w 500 _ h ((key_found-IsHarmless o u to_lower x _).1, h)
  step-IsKept n (erasing v) w s h =
      unless o u to_lower _ w 500 _ h
        (with_members o u to_lower w _ 204 h (user_erased-IsSole o u to_lower n.time v w s h))

  arrive-IsHarmless : (r : Request) → Spares u r → IsHarmless o u (arrive r)
  unfolding arrive enter_onboarding
  arrive-IsHarmless (org_route user org a) h = elim (Bool-cases (is_empty user)) [
    | inl e ↦ rw e tt
    | inr e ↦ rw e tt
  ]
  arrive-IsHarmless (onboarding user none slug) h = elim (Bool-cases (is_empty user)) [
    | inl e ↦ rw e tt
    | inr e ↦ rw e tt
  ]
  arrive-IsHarmless (onboarding user (some (name, email)) slug) h =
      elim (Bool-cases (is_empty user)) [
        | inl e ↦ rw e tt
        | inr e ↦ elim (Bool-cases (is_empty (trim_space name))) [
          | inl f ↦ rw (e, f) tt
          | inr f ↦ rw (e, f) tt
        ]
      ]
  arrive-IsHarmless (accept user token) h = elim (Bool-cases (is_empty token)) [
    | inl e ↦ rw e tt
    | inr e ↦ rw e tt
  ]
  arrive-IsHarmless (user_deleted v) h = elim (Bool-cases (is_empty v)) [
    | inl e ↦ rw e tt
    | inr e ↦ rw e (ground (arith, bytes_eq_iff v u))
  ]

  admitted-IsHarmless :
      (p : Pc) (r : Request) → Spares u r → IsHarmless o u p → IsHarmless o u (admitted p r)
  unfolding admitted
  admitted-IsHarmless idle r h s = arrive-IsHarmless r h
  admitted-IsHarmless (ended x) r h s = s
  admitted-IsHarmless _ r h s = s

  put_at-IsHarmless :
      (i j : ℕ) (p : Pc) (at : ℕ → Pc)
      → IsHarmless o u p
      → IsHarmless o u (at j)
      → IsHarmless o u (put_at i p at j)
  unfolding put_at
  put_at-IsHarmless i j p at h k = elim (Bool-cases (i == j)) [ inl e ↦ rw e h | inr e ↦ rw e k ]

  run-IsOwned :
      (es : List Event) (s : System)
      → All (Allowed u) es
      → ((i : ℕ) → IsHarmless o u (s.at i))
      → IsOwned o u s.world
      → IsOwned o u (happen_all to_lower es s).world
  unfolding happen_all happen
  run-IsOwned [] s ok at h = h
  run-IsOwned (arrives i r ∷ es) s ok at h =
      run-IsOwned es _ ok.1
        (λ j. put_at-IsHarmless i j _ s.at (admitted-IsHarmless (s.at i) r ok.0 (at i)) (at j)) h
  run-IsOwned (advances i n ∷ es) s ok at h =
      let (harmless, kept) = step-IsKept n (s.at i) s.world (at i) h in
      run-IsOwned es _ ok.1 (λ j. put_at-IsHarmless i j _ s.at harmless (at j)) kept

  -- The owner's row, where the organization is the user's alone.
  owner_row :
      (w : World)
      → IsOwned o u w
      → (m : MemberRow) × (get_org_member o u w.members ≡ some m) × (m.role ≡ owner)
  owner_row w h = elim (Option-cases (get_org_member o u w.members)) [
    | inl e ↦ absurd (ground (arith, get_org_member-ne-none o u w.members h.sole e))
    | inr (m, e) ↦ (
      m,
      e,
      elim (Bool-cases (bytes_eq m.role owner)) [
        | inl same ↦ bytes_eq_sound m.role owner same
        | inr low ↦
            let other = get_org_member-IsOther o u o u w.members h.sole e low in
            absurd (ground (arith, bytes_eq_refl u))
      ],
    )
  ]

  -- An organization that one user owns alone, with no request under way: however requests to change
  -- organizations, members and invites arrive, interleave at their statements and fail, unless Clerk
  -- reports this user as deleted, the user remains an active owner and the only one.
  pub happen_all-owner :
      (es : List Event) (s : System)
      → IsOwned o u s.world
      → ((i : ℕ) → s.at i ≡ idle)
      → All (Allowed u) es
      → let ms = (happen_all to_lower es s).world.members in
        (count_active_owners o ms ≡ 1)
        × ((m : MemberRow) × (get_org_member o u ms ≡ some m) × (m.role ≡ owner))
  happen_all-owner es s h rest ok =
      let kept = run-IsOwned es s ok (λ i. subst (IsHarmless o u) (sym (rest i)) tt) h in
      (kept.one, owner_row _ kept)
