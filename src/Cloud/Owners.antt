-- ===== src/Cloud/Owners.antt =====
-- internal/storage/cloud_store.go: one owner of an organization, under the statements on org_members.
use vaultkey.Prelude.{
  ℕ, ◌≡◌, refl, Bool, true, false, ◌&&◌, Bool-cases, none, some, inl, inr, List, [], ◌∷◌, Bytes,
  bytes_eq, bytes_eq_iff, codes, ◌==◌, All, arith,
}
use vaultkey.Cloud.Members.{
  MemberRow, is_of, is_active_of, get_org_member, is_owner_of, count_active_owners, revived,
  add_org_member, update_where, set_role, set_deleted, is_active_user,
}

-- Whether a pair of an organization and a user is the given one.
abbrev pub is_pair : ℕ → Bytes → ℕ → Bytes → Bool
is_pair o u org user = org == o && bytes_eq user u

abbrev pub owner : Bytes
owner = codes "owner"

module _ (o : ℕ) (u : Bytes) where
  -- In the organization the owners' rows are the user's active rows.
  abbrev pub IsSole : MemberRow → Type 0
  IsSole m = is_owner_of o m ≡ is_active_of o u m

  pub update_where-IsSole :
      (test : MemberRow → Bool) (f : MemberRow → MemberRow)
      → ((m : MemberRow)
          → IsSole m
          → test m ≡ true
          → IsSole (f m) × (is_owner_of o (f m) ≡ is_owner_of o m))
      → (ms : List MemberRow) → All IsSole ms
      → All IsSole (update_where test f ms)
        × (count_active_owners o (update_where test f ms) ≡ count_active_owners o ms)
  unfolding update_where count_active_owners
  update_where-IsSole test f keep [] h = (tt, refl)
  update_where-IsSole test f keep (m ∷ ms) h =
      let (rest, same) = update_where-IsSole test f keep ms h.1 in
      elim (Bool-cases (test m)) [
        | inl hit ↦ let (sole, kept) = keep m h.0 hit in rw hit ((sole, rest), rw (kept, same))
        | inr miss ↦ rw miss ((h.0, rest), rw same)
      ]

  other_user :
      (org : ℕ) (v : Bytes) (m : MemberRow)
      → is_pair o u org v ≡ false
      → is_of org v m ≡ true
      → is_of o u m ≡ false
  unfolding is_of
  other_user org v m other hit =
      ground (arith, bytes_eq_iff m.user v, bytes_eq_iff m.user u, bytes_eq_iff v u)

  pub set_role-IsSole :
      (org : ℕ) (v role : Bytes) (m : MemberRow)
      → is_pair o u org v ≡ false
      → bytes_eq role owner ≡ false
      → IsSole m
      → is_active_of org v m ≡ true
      → IsSole (set_role role m) × (is_owner_of o (set_role role m) ≡ is_owner_of o m)
  unfolding is_active_of is_owner_of
  set_role-IsSole org v role m other low sole hit = ground (arith, other_user org v m other)

  pub set_deleted-IsSole :
      (now org : ℕ) (v : Bytes) (m : MemberRow)
      → is_pair o u org v ≡ false
      → IsSole m
      → is_active_of org v m ≡ true
      → IsSole (set_deleted now m) × (is_owner_of o (set_deleted now m) ≡ is_owner_of o m)
  unfolding is_active_of is_owner_of
  set_deleted-IsSole now org v m other sole hit = ground (arith, other_user org v m other)

  pub erased-IsSole :
      (now : ℕ) (v : Bytes) (m : MemberRow)
      → bytes_eq v u ≡ false
      → IsSole m
      → is_active_user v m ≡ true
      → IsSole (set_deleted now m) × (is_owner_of o (set_deleted now m) ≡ is_owner_of o m)
  unfolding is_active_of is_owner_of is_active_user is_of
  erased-IsSole now v m other sole hit =
      ground (arith, bytes_eq_iff m.user v, bytes_eq_iff m.user u, bytes_eq_iff v u)

  revived-IsSole :
      (new m : MemberRow)
      → is_pair o u new.org new.user ≡ false
      → new.org == o && bytes_eq new.role owner ≡ false
      → IsSole m
      → is_of new.org new.user m ≡ true
      → IsSole (revived new m) × (is_owner_of o (revived new m) ≡ is_owner_of o m)
  unfolding is_active_of is_owner_of revived
  revived-IsSole new m other low sole hit =
      ground (arith, other_user new.org new.user m other, same_org)
    where
      same_org : m.org ≡ new.org
      same_org = ground arith

  new-IsSole :
      (new : MemberRow)
      → is_pair o u new.org new.user ≡ false
      → new.org == o && bytes_eq new.role owner ≡ false
      → IsSole new × (is_owner_of o new ≡ false)
  unfolding is_active_of is_owner_of is_of
  new-IsSole new other low = ground arith

  -- A membership that is given to somebody else, and not as an owner.
  pub add_org_member-IsSole :
      (new : MemberRow) (ms : List MemberRow)
      → is_pair o u new.org new.user ≡ false
      → new.org == o && bytes_eq new.role owner ≡ false
      → All IsSole ms
      → All IsSole (add_org_member new ms)
        × (count_active_owners o (add_org_member new ms) ≡ count_active_owners o ms)
  unfolding add_org_member count_active_owners
  add_org_member-IsSole new [] other low h =
      let (sole, none_more) = new-IsSole new other low in ((sole, tt), rw none_more)
  add_org_member-IsSole new (m ∷ ms) other low h =
      let (rest, same) = add_org_member-IsSole new ms other low h.1 in
      elim (Bool-cases (is_of new.org new.user m)) [
        | inl hit ↦
            let (sole, kept) = revived-IsSole new m other low h.0 hit in
            rw hit ((sole, h.1), rw kept)
        | inr miss ↦ rw miss ((h.0, rest), rw same)
      ]

  -- The user has an active row as long as the organization has an owner.
  pub get_org_member-ne-none :
      (ms : List MemberRow)
      → All IsSole ms
      → get_org_member o u ms ≡ none
      → count_active_owners o ms ≡ 0
  unfolding get_org_member count_active_owners
  get_org_member-ne-none [] h e = refl
  get_org_member-ne-none (m ∷ ms) h e = elim (Bool-cases (is_active_of o u m)) [
    | inl hit ↦ absurd (ground arith)
    | inr miss ↦
        let rest : get_org_member o u ms ≡ none = (rw miss at e) in
        rw (h.0, miss) (get_org_member-ne-none ms h.1 rest)
  ]

  other_role :
      (org : ℕ) (v : Bytes) (x : MemberRow)
      → IsSole x
      → is_active_of org v x ≡ true
      → bytes_eq x.role owner ≡ false
      → is_pair o u org v ≡ false
  unfolding is_active_of is_owner_of is_of
  other_role org v x sole hit low =
      ground (arith, bytes_eq_iff x.user v, bytes_eq_iff x.user u, bytes_eq_iff v u)

  -- A member of the organization with another role is somebody else.
  pub get_org_member-IsOther :
      (org : ℕ) (v : Bytes) (ms : List MemberRow) {m : MemberRow}
      → All IsSole ms
      → get_org_member org v ms ≡ some m
      → bytes_eq m.role owner ≡ false
      → is_pair o u org v ≡ false
  unfolding get_org_member
  get_org_member-IsOther org v [] h e low = cc
  get_org_member-IsOther org v (x ∷ ms) {m} h e low = elim (Bool-cases (is_active_of org v x)) [
    | inl hit ↦
        let same : some x ≡ some m = (rw hit at e) in other_role org v x h.0 hit (ground arith)
    | inr miss ↦ get_org_member-IsOther org v ms h.1 (rw miss at e) low
  ]
