-- ===== src/Cloud/SingleUse.antt =====
-- internal/api/handlers/cloud_handlers.go: how often an invite is accepted, however requests interleave.
use vaultkey.Prelude.{
  ℕ, ◌+◌, ◌≤◌, ◌≡◌, refl, ◌∙◌, Bool, true, false, not, ◌&&◌, ◌||◌, ◌⊎◌, Bool-cases, Option, none,
  some, inl, inr, List, [], ◌∷◌, Bytes, bytes_eq, bytes_eq_sound, if◌then◌else◌, arith,
}
use vaultkey.Cloud.Members.{is_null}
use vaultkey.Cloud.Invites.{
  Invite, has_token, create_invite, is_open, is_pending, any_pending, accept_invite, is_open_in,
  revoke_invite,
}
use vaultkey.Cloud.Requests.{
  Pc, idle, inviting, revoking, accepting, joining, creating_org, inserting_project,
}
use vaultkey.Cloud.Orgs.{Organization, OrgProject, insert_project}
use vaultkey.Cloud.Handlers.{
  World, Now, after_inviting, after_creating, after_inserting, new_org, step,
}
use vaultkey.Cloud.Sessions.{System, Event, arrives, advances, happen}

-- An invite with the token is there, and none that could be accepted.
abbrev pub IsSpent : Bytes → List Invite → Type 0
IsSpent t vs = (has_token t vs ≡ true) × (any_pending t vs ≡ false)

module _ (t : Bytes) where
  pending-has_token : (vs : List Invite) → any_pending t vs ≡ true → has_token t vs ≡ true
  unfolding any_pending has_token is_pending is_open
  pending-has_token [] h = ground arith
  pending-has_token (v ∷ vs) h = ground (arith, pending-has_token vs)

  accept_invite-has_token :
      (now : ℕ) (token user : Bytes) (vs : List Invite)
      → has_token t (accept_invite now token user vs) ≡ has_token t vs
  unfolding accept_invite has_token
  accept_invite-has_token now token user [] = refl
  accept_invite-has_token now token user (v ∷ vs) =
      let rest = accept_invite-has_token now token user vs in
      elim (Bool-cases (is_pending token v)) [ inl e ↦ rw (e, rest) | inr e ↦ rw (e, rest) ]

  -- Acceptance, under this token or another, makes no invite pending.
  accept_invite-pending :
      (now : ℕ) (token user : Bytes) (vs : List Invite)
      → any_pending t vs ≡ false
      → any_pending t (accept_invite now token user vs) ≡ false
  unfolding accept_invite any_pending is_pending
  accept_invite-pending now token user [] h = h
  accept_invite-pending now token user (v ∷ vs) h =
      ground (arith, accept_invite-pending now token user vs)

  accept_invite-spends :
      (now : ℕ) (user : Bytes) (vs : List Invite)
      → any_pending t (accept_invite now t user vs) ≡ false
  unfolding accept_invite any_pending is_pending is_null
  accept_invite-spends now user [] = refl
  accept_invite-spends now user (v ∷ vs) = ground (arith, accept_invite-spends now user vs)

  revoke_invite-has_token :
      (now org : ℕ) (token : Bytes) (vs : List Invite)
      → has_token t (revoke_invite now org token vs) ≡ has_token t vs
  unfolding revoke_invite has_token
  revoke_invite-has_token now org token [] = refl
  revoke_invite-has_token now org token (v ∷ vs) =
      let rest = revoke_invite-has_token now org token vs in
      elim (Bool-cases (is_open_in org token v)) [ inl e ↦ rw (e, rest) | inr e ↦ rw (e, rest) ]

  revoke_invite-pending :
      (now org : ℕ) (token : Bytes) (vs : List Invite)
      → any_pending t vs ≡ false
      → any_pending t (revoke_invite now org token vs) ≡ false
  unfolding revoke_invite any_pending is_pending is_open is_null
  revoke_invite-pending now org token [] h = h
  revoke_invite-pending now org token (v ∷ vs) h =
      ground (arith, revoke_invite-pending now org token vs)

  create_invite-IsSpent :
      (fails : Bool) (new : Invite) (w : World)
      → IsSpent t w.invites
      → IsSpent t (after_inviting w (create_invite fails new w.invites)).1.invites
  unfolding after_inviting create_invite has_token any_pending is_pending is_open
  create_invite-IsSpent fails new w h = elim (Bool-cases (fails || has_token new.token w.invites)) [
    | inl e ↦ rw e h
    | inr e ↦ rw e (with_token (Bool-cases (bytes_eq new.token t)) e)
  ]
    where
      with_token :
          (bytes_eq new.token t ≡ true) ⊎ (bytes_eq new.token t ≡ false)
          → (fails || has_token new.token w.invites) ≡ false
          → IsSpent t (new ∷ w.invites)
      with_token (inl same) e =
          let q : new.token ≡ t = bytes_eq_sound new.token t same in
          let no : has_token t w.invites ≡ false = rw (← q) (ground arith) in absurd (ground arith)
      with_token (inr other) e = (rw other h.0, rw other h.1)

  after_creating-invites :
      (x : Organization) (user : Bytes) (w : World) (os : Option (List Organization))
      → (after_creating x user w os).1.invites ≡ w.invites
  unfolding after_creating
  after_creating-invites x user w none = refl
  after_creating-invites x user w (some os) = refl

  after_inserting-invites :
      (x : Organization) (w : World) (made : Option OrgProject × List OrgProject)
      → (after_inserting x w made).1.invites ≡ w.invites
  unfolding after_inserting
  after_inserting-invites x w (none, ps) = refl
  after_inserting-invites x w (some p, ps) = refl

  module _ (to_lower : Bytes → Bytes) where
    step-IsSpent :
        (n : Now) (p : Pc) (w : World)
        → IsSpent t w.invites
        → IsSpent t (step to_lower n p w).1.invites
    unfolding step
    step-IsSpent n (inviting org email token role by) w h = create_invite-IsSpent n.fails _ w h
    step-IsSpent n (revoking org token) w h = ground (
      arith,
      revoke_invite-pending n.time org token w.invites,
      revoke_invite-has_token n.time org token w.invites,
    )
    step-IsSpent n (accepting v user) w h = ground (
      arith,
      accept_invite-pending n.time v.token user w.invites,
      accept_invite-has_token n.time v.token user w.invites,
    )
    step-IsSpent n (creating_org user name email slug) w h =
        rw (after_creating-invites (new_org n user name email slug) user w) h
    step-IsSpent n (inserting_project x) w h =
        ground (arith, after_inserting-invites x w (insert_project n.id x.id x.name w.projects))
    step-IsSpent n _ w h = ground arith

-- Whether a step is the acceptance of an invite with the token.
unfoldable pub is_accepting : Bytes → Pc → Bool
is_accepting t (accepting v user) = bytes_eq v.token t
is_accepting t _ = false

unfoldable pub is_joining : Pc → Bool
is_joining (joining v user) = true
is_joining _ = false

abbrev pub accepted_now : Bytes → Pc → Pc → ℕ
accepted_now t p q = if is_accepting t p && is_joining q then 1 else 0

module _ (to_lower : Bytes → Bytes) (t : Bytes) where
  -- How often an invite with the token is accepted in a run.
  unfoldable pub acceptances : List Event → System → ℕ
  unfolding step is_accepting is_joining
  acceptances [] s = 0
  acceptances (arrives i r ∷ es) s = acceptances es (happen to_lower (arrives i r) s)
  acceptances (advances i n ∷ es) s =
      accepted_now t (s.at i) (step to_lower n (s.at i) s.world).0
      + acceptances es (happen to_lower (advances i n) s)

  Accepts : Now → Pc → World → Type 0
  Accepts n p w =
      (accepted_now t p (step to_lower n p w).0 ≡ 0)
      ⊎ ((accepted_now t p (step to_lower n p w).0 ≡ 1)
          × (any_pending t w.invites ≡ true)
          × IsSpent t (step to_lower n p w).1.invites)

  accepting_lem : (n : Now) (v : Invite) (user : Bytes) (w : World) → Accepts n (accepting v user) w
  unfolding Accepts step is_accepting is_joining
  accepting_lem n v user w = elim (Bool-cases (bytes_eq v.token t)) [
    | inr other ↦ inl (rw other)
    | inl same ↦ elim (Bool-cases (n.fails || not (any_pending v.token w.invites))) [
      | inl failed ↦ inl (rw (same, failed))
      | inr ok ↦
          let q : v.token ≡ t = bytes_eq_sound v.token t same in
          let pending : any_pending t w.invites ≡ true = rw (← q) (ground arith) in
          let has = pending-has_token t w.invites pending in
          let spent = accept_invite-spends t n.time user w.invites in
          inr (
            rw (same, ok),
            pending,
            rw ok (accept_invite-has_token t n.time v.token user w.invites ∙ has, rw q spent),
          )
    ]
  ]

  step-Accepts : (n : Now) (p : Pc) (w : World) → Accepts n p w
  unfolding Accepts is_accepting
  step-Accepts n (accepting v user) w = accepting_lem n v user w
  step-Accepts n idle w = inl refl
  step-Accepts n _ w = inl refl

  acceptances-spent :
      (es : List Event) (s : System) → IsSpent t s.world.invites → acceptances es s ≡ 0
  unfolding acceptances happen Accepts
  acceptances-spent [] s h = refl
  acceptances-spent (arrives i r ∷ es) s h = acceptances-spent es _ h
  acceptances-spent (advances i n ∷ es) s h = elim (step-Accepts n (s.at i) s.world) [
    | inl e ↦
        let spent = step-IsSpent t to_lower n (s.at i) s.world h in
        omega (arith, e, acceptances-spent es (happen to_lower (advances i n) s) spent)
    | inr (e, pending, spent) ↦ absurd (ground arith)
  ]

  -- Whatever requests arrive and however their statements interleave and fail, an invite's token is
  -- accepted at most once.
  pub acceptances-le-one : (es : List Event) (s : System) → acceptances es s ≤ 1
  unfolding acceptances happen Accepts
  acceptances-le-one [] s = omega arith
  acceptances-le-one (arrives i r ∷ es) s = acceptances-le-one es _
  acceptances-le-one (advances i n ∷ es) s = elim (step-Accepts n (s.at i) s.world) [
    | inl e ↦ omega (arith, e, acceptances-le-one es (happen to_lower (advances i n) s))
    | inr (e, pending, spent) ↦
        omega (arith, e, acceptances-spent es (happen to_lower (advances i n) s) spent)
  ]
