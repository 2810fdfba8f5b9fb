-- ===== src/Cloud/Revocation.antt =====
-- internal/storage/cloud_store.go and api_key_cache.go: keys after their revocation.
use vaultkey.Prelude.{
  ℕ, ◌≡◌, refl, ◌∙◌, Bool, true, false, ◌||◌, Bool-cases, Option-cases, none, some, inl, inr, List,
  [], ◌∷◌, Bytes, bytes_eq, bytes_eq_iff, bytes_eq_refl, arith,
}
use vaultkey.Access.{Entry, Request, auth}
use vaultkey.Access.Routes.{is_admitted, is_key, auth-no_key}
use vaultkey.Stablecoin.Cache.{Cache}
use vaultkey.Cloud.Orgs.{OrgProject, get_organization_project}
use vaultkey.Cloud.Keys.{
  KeyRow, KeyEntry, has_key, get_api_key_by_key, is_usable, is_key_of, select_key, deactivate,
  KeyCall, KeyCodec, cache_key, lookup_of, KeyStore, from_row, or_from_db,
  get_api_key_by_key_cached, invalidate_api_key_cache,
}
use vaultkey.Cloud.KeyRoutes.{revoke_key_route, revoke_in, revoke_selected}
use vaultkey.Cloud.KeyCache.{entry_at, entry_at-set_ne, entry_at-del_self, entry_at-del}
use vaultkey.Cloud.KeyEffects.{
  KeyOp, apply_all, Effect, keeps, adds, deactivates, fills, forgets, apply-Effect,
}

unfoldable pub any_usable : Bytes → List KeyRow → Bool
any_usable key [] = false
any_usable key (k ∷ ks) = is_usable key k || any_usable key ks

-- UNIQUE (key)
abbrev pub IsUnique : List KeyRow → Type 0
IsUnique [] = Unit
IsUnique (k ∷ ks) = (has_key k.key ks ≡ false) × IsUnique ks

-- A key that is known, and that no row lets in.
abbrev pub IsRevoked : Bytes → List KeyRow → Type 0
IsRevoked key ks = (has_key key ks ≡ true) × (any_usable key ks ≡ false)

get_api_key_by_key-unusable :
    (key : Bytes) (ps : List OrgProject) (ks : List KeyRow)
    → any_usable key ks ≡ false
    → get_api_key_by_key key ps ks ≡ none
unfolding get_api_key_by_key any_usable
get_api_key_by_key-unusable key ps [] h = refl
get_api_key_by_key-unusable key ps (k ∷ ks) h =
    let rest = get_api_key_by_key-unusable key ps ks (ground arith) in
    let here : is_usable key k ≡ false = ground arith in rw here rest

deactivate-has_key :
    (now project id : ℕ) (key : Bytes) (ks : List KeyRow)
    → has_key key (deactivate now project id ks) ≡ has_key key ks
unfolding has_key deactivate
deactivate-has_key now project id key [] = refl
deactivate-has_key now project id key (k ∷ ks) =
    let rest = deactivate-has_key now project id key ks in
    elim (Bool-cases (is_key_of project id k)) [ inl e ↦ rw (e, rest) | inr e ↦ rw (e, rest) ]

deactivate-unusable :
    (now project id : ℕ) (key : Bytes) (ks : List KeyRow)
    → any_usable key ks ≡ false
    → any_usable key (deactivate now project id ks) ≡ false
unfolding any_usable deactivate is_usable
deactivate-unusable now project id key [] h = h
deactivate-unusable now project id key (k ∷ ks) h =
    ground (arith, deactivate-unusable now project id key ks)

unknown-unusable :
    (key : Bytes) (ks : List KeyRow) → has_key key ks ≡ false → any_usable key ks ≡ false
unfolding any_usable has_key is_usable
unknown-unusable key [] h = refl
unknown-unusable key (k ∷ ks) h = ground (arith, unknown-unusable key ks)

select_key-has_key :
    (project id : ℕ) (key : Bytes) (ks : List KeyRow)
    → select_key project id ks ≡ some key
    → has_key key ks ≡ true
unfolding select_key has_key
select_key-has_key project id key [] h = cc
select_key-has_key project id key (k ∷ ks) h =
    ground (arith, select_key-has_key project id key ks, bytes_eq_refl key)

-- The row that is revoked is the only one of its key.
deactivate-select_key :
    (now project id : ℕ) (key : Bytes) (ks : List KeyRow)
    → IsUnique ks
    → select_key project id ks ≡ some key
    → any_usable key (deactivate now project id ks) ≡ false
unfolding select_key any_usable deactivate is_usable
deactivate-select_key now project id key [] u h = cc
deactivate-select_key now project id key (k ∷ ks) u h = elim (Bool-cases (is_key_of project id k)) [
  | inl hit ↦
      let same : some k.key ≡ some key = (rw hit at h) in
      let q : k.key ≡ key = cc in
      let gone : has_key key ks ≡ false = rw (← q) u.0 in
      rw hit
        (ground (arith, deactivate-unusable now project id key ks (unknown-unusable key ks gone)))
  | inr miss ↦
      let later : select_key project id ks ≡ some key = (rw miss at h) in
      let known = select_key-has_key project id key ks later in
      let other : bytes_eq k.key key ≡ false = elim (Bool-cases (bytes_eq k.key key)) [
        | inl same ↦
            let q : k.key ≡ key = (bytes_eq_iff k.key key).0 same in
            let no : has_key key ks ≡ false = rw (← q) u.0 in absurd (ground arith)
        | inr e ↦ e
      ] in
      rw (miss, other) (deactivate-select_key now project id key ks u.1 later)
]

module _ (cache : Cache) (codec : KeyCodec) where
  open cache use {State, get, set, del}

  abbrev Ring : Type 0
  Ring = KeyStore cache codec

  -- Neither the table nor the cache has the key for use.
  abbrev pub IsGone : Bytes → Ring → Type 0
  IsGone key s = IsRevoked key s.keys × (entry_at cache codec key s.redis ≡ none)

  fills-IsGone :
      (key j : Bytes) (e : KeyEntry) (ps : List OrgProject) (s : Ring)
      → IsGone key s
      → get_api_key_by_key j ps s.keys ≡ some e
      → entry_at cache codec key (set (cache_key j) (codec.encode e) s.redis) ≡ none
  fills-IsGone key j e ps s h row = elim (Bool-cases (bytes_eq j key)) [
    | inl same ↦
        let q : j ≡ key = (bytes_eq_iff j key).0 same in
        let absent = get_api_key_by_key-unusable key ps s.keys h.0.1 in
        let present : get_api_key_by_key key ps s.keys ≡ some e = rw (← q) row in
        absurd (ground (arith, absent, present))
    | inr other ↦ entry_at-set_ne cache codec j key (codec.encode e) s.redis other ∙ h.1
  ]

  del-IsGone :
      (key j : Bytes) (s : Ring)
      → entry_at cache codec key s.redis ≡ none
      → entry_at cache codec key (del (cache_key j) s.redis) ≡ none
  del-IsGone key j s h =
      elim (Option-cases (entry_at cache codec key (del (cache_key j) s.redis))) [
        | inl e ↦ e
        | inr (x, e) ↦
            let back = entry_at-del cache codec j key s.redis x e in
            absurd (ground (arith, h, back))
      ]

  adds-IsRevoked :
      (key : Bytes) (new : KeyRow) (ks : List KeyRow)
      → has_key new.key ks ≡ false
      → IsRevoked key ks
      → IsRevoked key (new ∷ ks)
  unfolding has_key any_usable is_usable
  adds-IsRevoked key new ks fresh h = elim (Bool-cases (bytes_eq new.key key)) [
    | inl same ↦
        let q : new.key ≡ key = (bytes_eq_iff new.key key).0 same in
        let no : has_key key ks ≡ false = rw (← q) fresh in absurd (ground arith)
    | inr other ↦ rw other h
  ]

  Effect-IsGone :
      (key : Bytes) {s s' : Ring} → Effect cache codec s s' → IsGone key s → IsGone key s'
  Effect-IsGone key (keeps k r) h = (rw k h.0, rw r h.1)
  Effect-IsGone key {s} (adds new k fresh r) h =
      (rw k (adds-IsRevoked key new s.keys fresh h.0), rw r h.1)
  Effect-IsGone key {s} (deactivates now project id k r) h = (
    rw k (
      deactivate-has_key now project id key s.keys ∙ h.0.0,
      deactivate-unusable now project id key s.keys h.0.1,
    ),
    elim r [ inl same ↦ rw same h.1 | inr (j, e) ↦ rw e (del-IsGone key j s h.1) ],
  )
  Effect-IsGone key {s} (fills j e ps k row r) h =
      (rw k h.0, rw r (fills-IsGone key j e ps s h row))
  Effect-IsGone key {s} (forgets j k r) h = (rw k h.0, rw r (del-IsGone key j s h.1))

  run-IsGone :
      (key : Bytes) (ops : List (KeyOp cache codec)) (s : Ring)
      → IsGone key s
      → IsGone key (apply_all cache codec ops s)
  unfolding apply_all
  run-IsGone key [] s h = h
  run-IsGone key (op ∷ ops) s h =
      run-IsGone key ops _ (Effect-IsGone key (apply-Effect cache codec op s) h)

  from_db-no_key :
      (c : KeyCall) (key : Bytes) (s : Ring)
      → any_usable key s.keys ≡ false
      → is_key (lookup_of (or_from_db cache codec c key none s).0) ≡ false
  unfolding or_from_db from_row lookup_of is_key
  from_db-no_key c key s h = elim (Bool-cases c.db_up) [
    | inl up ↦ rw (up, get_api_key_by_key-unusable key s.projects s.keys h) refl
    | inr down ↦ rw down refl
  ]

  answer-no_key :
      (c : KeyCall) (key : Bytes) (s : Ring)
      → IsGone key s
      → is_key (lookup_of (get_api_key_by_key_cached cache codec c key s).0) ≡ false
  unfolding get_api_key_by_key_cached
  answer-no_key c key s h = elim (Bool-cases c.get_up) [
    | inl up ↦ rw (up, h.1) (from_db-no_key c key s h.0.1)
    | inr down ↦ rw down (from_db-no_key c key s h.0.1)
  ]

  revoke_selected-IsGone :
      (c : KeyCall) (now project id : ℕ) (uf : Bool) (s : Ring) (key : Bytes)
      → IsUnique s.keys
      → c.del_up ≡ true
      → select_key project id s.keys ≡ some key
      → (revoke_selected cache codec c now project id uf (some key) s).0 ≡ 200
      → IsGone key (revoke_selected cache codec c now project id uf (some key) s).1
  unfolding revoke_selected invalidate_api_key_cache
  revoke_selected-IsGone c now project id true s key u up row done = absurd (omega (arith, done))
  revoke_selected-IsGone c now project id false s key u up row done = rw up (
    (
      deactivate-has_key now project id key s.keys ∙ select_key-has_key project id key s.keys row,
      deactivate-select_key now project id key s.keys u row,
    ),
    entry_at-del_self cache codec key s.redis,
  )

  revoke-IsGone :
      (c : KeyCall) (now org id : ℕ) (pf uf : Bool) (s : Ring) (p : OrgProject) (key : Bytes)
      → IsUnique s.keys
      → c.del_up ≡ true
      → get_organization_project org s.projects ≡ some p
      → select_key p.id id s.keys ≡ some key
      → (revoke_key_route cache codec c now org id pf uf s).0 ≡ 200
      → IsGone key (revoke_key_route cache codec c now org id pf uf s).1
  unfolding revoke_key_route revoke_in revoke_selected
  revoke-IsGone c now org id true uf s p key u up has row done = absurd (omega (arith, done))
  revoke-IsGone c now org id false uf s p key u up has row done = elim (Bool-cases c.db_up) [
    | inl db ↦
        rw (has, db, row)
          (revoke_selected-IsGone c now p.id id uf s key u up row (rw (has, db, row) at done))
    | inr down ↦ absurd (omega (arith, (rw (has, down) at done)))
  ]

  -- A key of the organization's project that is revoked with status 200, where keys are unique and
  -- the DEL reaches Redis: after any calls that follow one after the other, lookups, creations,
  -- revocations and expiries, `Auth` lets no request with this key through.
  pub revoke-auth :
      (bcrypt : Bytes → Bytes → Bool) (environment : Bytes) (r : Request) (es : List Entry)
      (c c' : KeyCall) (now org id : ℕ) (pf uf : Bool) (ops : List (KeyOp cache codec)) (s : Ring)
      (p : OrgProject)
      → IsUnique s.keys
      → c.del_up ≡ true
      → get_organization_project org s.projects ≡ some p
      → select_key p.id id s.keys ≡ some r.api_key
      → (revoke_key_route cache codec c now org id pf uf s).0 ≡ 200
      → let t = apply_all cache codec ops (revoke_key_route cache codec c now org id pf uf s).1 in
        let reply = (get_api_key_by_key_cached cache codec c' r.api_key t).0 in
        is_admitted (auth bcrypt environment (record r { lookup = lookup_of reply }) es).0 ≡ false
  revoke-auth bcrypt environment r es c c' now org id pf uf ops s p u up has row done =
      let gone = revoke-IsGone c now org id pf uf s p r.api_key u up has row done in
      auth-no_key bcrypt environment _ es
        (answer-no_key c' r.api_key _ (run-IsGone r.api_key ops _ gone))
