-- ===== src/Cloud/KeyEffects.antt =====
-- internal/storage/cloud_store.go, api_key_cache.go and the key routes: what each call does to the rows of
-- keys and to the cache.
use vaultkey.Prelude.{
  ℕ, ◌≡◌, ◌⊎◌, refl, Bool, true, false, ◌||◌, Bool-cases, Option-cases, Option, none, some, inl,
  inr, List, [], ◌∷◌, Bytes, arith,
}
use vaultkey.Stablecoin.Cache.{Cache}
use vaultkey.Cloud.Orgs.{Organization, OrgProject}
use vaultkey.Cloud.Keys.{
  KeyRow, KeyEntry, has_key, create_api_key, get_api_key_by_key, deactivate, KeyCall, KeyCodec,
  cache_key, KeyStore, from_row, or_from_db, get_api_key_by_key_cached, invalidate_api_key_cache,
}
use vaultkey.Cloud.KeyRoutes.{
  KeyConfig, KeyCreation, at_limit, generated, ensure_project_for_org, stored_key, insert_key,
  create_in_project, create_in_org, create_key_route, revoke_selected, revoke_in, revoke_key_route,
  key_row,
}

module _ (cache : Cache) (codec : KeyCodec) where
  open cache use {State, get, set, del}

  abbrev pub Ring : Type 0
  Ring = KeyStore cache codec

  -- Calls that do not overlap, and expiries of cached entries.
  pub data KeyOp : Type 0 where
    looks_up : KeyCall → Bytes → KeyOp
    creates : KeyConfig → KeyCreation → List Organization → KeyOp
    revokes : KeyCall → ℕ → ℕ → ℕ → Bool → Bool → KeyOp
    expires : Bytes → KeyOp

  unfoldable pub apply : KeyOp → Ring → Ring
  apply (looks_up c key) s = (get_api_key_by_key_cached cache codec c key s).1
  apply (creates g q os) s = (create_key_route cache codec g q os s).1
  apply (revokes c now org id pf uf) s = (revoke_key_route cache codec c now org id pf uf s).1
  apply (expires key) s = record s { redis = del (cache_key key) s.redis }

  unfoldable pub apply_all : List KeyOp → Ring → Ring
  unfolding apply
  apply_all [] s = s
  apply_all (op ∷ ops) s = apply_all ops (apply op s)

  abbrev pub Forgets : Ring → Ring → Type 0
  Forgets s s' = (s'.redis ≡ s.redis) ⊎ ((key : Bytes) × (s'.redis ≡ del (cache_key key) s.redis))

  pub data Effect (s s' : Ring) : Type 0 where
    keeps : s'.keys ≡ s.keys → s'.redis ≡ s.redis → Effect s s'
    adds :
        (new : KeyRow)
        → s'.keys ≡ new ∷ s.keys
        → has_key new.key s.keys ≡ false
        → s'.redis ≡ s.redis
        → Effect s s'
    deactivates :
        (now project id : ℕ)
        → s'.keys ≡ deactivate now project id s.keys
        → Forgets s s'
        → Effect s s'
    fills :
        (key : Bytes) (e : KeyEntry) (ps : List OrgProject)
        → s'.keys ≡ s.keys
        → get_api_key_by_key key ps s.keys ≡ some e
        → s'.redis ≡ set (cache_key key) (codec.encode e) s.redis
        → Effect s s'
    forgets :
        (key : Bytes) → s'.keys ≡ s.keys → s'.redis ≡ del (cache_key key) s.redis → Effect s s'

  from_row-Effect :
      (c : KeyCall) (key : Bytes) (s : Ring) (e : Option KeyEntry)
      → get_api_key_by_key key s.projects s.keys ≡ e
      → Effect s (from_row cache codec c key e s).1
  unfolding from_row
  from_row-Effect c key s none q = keeps refl refl
  from_row-Effect c key s (some e) q = elim (Bool-cases c.set_up) [
    | inl up ↦ fills key e s.projects (rw up) q (rw up)
    | inr down ↦ keeps (rw down) (rw down)
  ]

  or_from_db-Effect :
      (c : KeyCall) (key : Bytes) (s : Ring) (e : Option KeyEntry)
      → Effect s (or_from_db cache codec c key e s).1
  unfolding or_from_db
  or_from_db-Effect c key s (some e) = keeps refl refl
  or_from_db-Effect c key s none = elim (Bool-cases c.db_up) [
    | inl up ↦ rw up (from_row-Effect c key s _ refl)
    | inr down ↦ rw down (keeps refl refl)
  ]

  stored_key-Effect :
      (s : Ring) (fails : Bool) (new : KeyRow)
      → Effect s (stored_key cache codec s (create_api_key fails new s.keys)).1
  unfolding stored_key create_api_key
  stored_key-Effect s fails new = elim (Bool-cases (fails || has_key new.key s.keys)) [
    | inl e ↦ rw e (keeps refl refl)
    | inr e ↦
        let fresh : has_key new.key s.keys ≡ false = ground arith in rw e (adds new refl fresh refl)
  ]

  insert_key-Effect :
      (g : KeyConfig) (q : KeyCreation) (name : Bytes) (project : ℕ) (made : Option (Bytes × Bytes))
      (s : Ring)
      → Effect s (insert_key cache codec g q name project made s).1
  unfolding insert_key
  insert_key-Effect g q name project none s = keeps refl refl
  insert_key-Effect g q name project (some (t, h)) s =
      stored_key-Effect s q.insert_fails (key_row g q project name t h)

  create_in_project-Effect :
      (g : KeyConfig) (q : KeyCreation) (name : Bytes) (p : Option OrgProject) (s : Ring)
      → Effect s (create_in_project cache codec g q name p s).1
  unfolding create_in_project
  create_in_project-Effect g q name none s = keeps refl refl
  create_in_project-Effect g q name (some p) s = elim (Bool-cases (at_limit g q p.id s.keys)) [
    | inl e ↦ rw e (keeps refl refl)
    | inr e ↦ rw e (insert_key-Effect g q name p.id (generated q) s)
  ]

  -- Effects are on keys and cache: a project that is made does not show.
  with_projects :
      (s t : Ring) (ps : List OrgProject) → Effect (record s { projects = ps }) t → Effect s t
  with_projects s t ps (keeps k r) = keeps k r
  with_projects s t ps (adds new k fresh r) = adds new k fresh r
  with_projects s t ps (deactivates now project id k r) = deactivates now project id k r
  with_projects s t ps (fills key e qs k key_found r) = fills key e qs k key_found r
  with_projects s t ps (forgets key k r) = forgets key k r

  create_in_org-Effect :
      (g : KeyConfig) (q : KeyCreation) (name : Bytes) (o : Option Organization) (s : Ring)
      → Effect s (create_in_org cache codec g q name o s).1
  unfolding create_in_org
  create_in_org-Effect g q name none s = keeps refl refl
  create_in_org-Effect g q name (some o) s =
      with_projects s _ (ensure_project_for_org q o s.projects).1
        (create_in_project-Effect g q name _ _)

  create_key_route-Effect :
      (g : KeyConfig) (q : KeyCreation) (os : List Organization) (s : Ring)
      → Effect s (create_key_route cache codec g q os s).1
  unfolding create_key_route
  create_key_route-Effect g q os s = elim (Option-cases q.name) [
    | inl e ↦ rw e (keeps refl refl)
    | inr (name, e) ↦ rw e (create_in_org-Effect g q name _ s)
  ]

  revoke_selected-Effect :
      (c : KeyCall) (now project id : ℕ) (uf : Bool) (key : Option Bytes) (s : Ring)
      → Effect s (revoke_selected cache codec c now project id uf key s).1
  unfolding revoke_selected invalidate_api_key_cache
  revoke_selected-Effect c now project id uf none s = keeps refl refl
  revoke_selected-Effect c now project id true (some key) s = keeps refl refl
  revoke_selected-Effect c now project id false (some key) s = elim (Bool-cases c.del_up) [
    | inl up ↦ rw up (deactivates now project id refl (inr (key, refl)))
    | inr down ↦ rw down (deactivates now project id refl (inl refl))
  ]

  revoke_in-Effect :
      (c : KeyCall) (now id : ℕ) (uf : Bool) (p : Option OrgProject) (s : Ring)
      → Effect s (revoke_in cache codec c now id uf p s).1
  unfolding revoke_in
  revoke_in-Effect c now id uf none s = keeps refl refl
  revoke_in-Effect c now id uf (some p) s = revoke_selected-Effect c now p.id id uf _ s

  pub apply-Effect : (op : KeyOp) (s : Ring) → Effect s (apply op s)
  unfolding apply get_api_key_by_key_cached revoke_key_route
  apply-Effect (looks_up c key) s = or_from_db-Effect c key s _
  apply-Effect (creates g q os) s = create_key_route-Effect g q os s
  apply-Effect (revokes c now org id pf uf) s = revoke_in-Effect c now id uf _ s
  apply-Effect (expires key) s = forgets key refl refl
