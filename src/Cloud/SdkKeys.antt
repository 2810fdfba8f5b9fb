-- ===== src/Cloud/SdkKeys.antt =====
-- internal/storage/cloud_store.go (`GetAPIKeyByKey`), api_key_cache.go and `SDKAuth` of
-- internal/api/middleware/sdk_auth.go together.
use vaultkey.Prelude.{
  ◌≡◌, refl, sym, ◌∙◌, subst, Bool, false, ◌&&◌, Bool-cases, Option, none, some, inl, inr, List, [],
  ◌∷◌, Bytes, bytes_eq, bytes_eq_iff, if◌then◌else◌, arith,
}
use vaultkey.Access.{Entry, Request, sdk_auth}
use vaultkey.Access.Routes.{is_admitted, is_cloud, sdk_auth-auth}
use vaultkey.Stablecoin.Cache.{Cache}
use vaultkey.Cloud.Orgs.{OrgProject}
use vaultkey.Cloud.Keys.{
  KeyRow, KeyEntry, get_api_key_by_key, is_usable, find_project, join_project, scanned, KeyCall,
  KeyCodec, cache_key, lookup_of, KeyStore, from_row, or_from_db, get_api_key_by_key_cached,
}
use vaultkey.Cloud.KeyCache.{entry_at, entry_at-set_self, entry_at-set_ne, entry_at-del}
use vaultkey.Cloud.KeyEffects.{
  KeyOp, apply_all, Effect, keeps, adds, deactivates, fills, forgets, apply-Effect,
}

both_false : (a b : Bool) → b ≡ false → a && b ≡ false
both_false a b h = ground arith

-- What `SDKAuth` asks of a key's project.
abbrev pub IsPlainEntry : KeyEntry → Type 0
IsPlainEntry e = (e.project.cloud_managed ≡ false) × (e.project.org ≡ none)

join_project-IsPlainEntry :
    (k : KeyRow) (p : Option OrgProject) (rest : Option KeyEntry) (e : KeyEntry)
    → (rest ≡ some e → IsPlainEntry e)
    → join_project k p rest ≡ some e
    → IsPlainEntry e
unfolding join_project scanned
join_project-IsPlainEntry k none rest e h q = h q
join_project-IsPlainEntry k (some p) rest e h q =
    let same : record { api_key = k; project = scanned p } ≡ e = cc in
    subst IsPlainEntry same (refl, refl)

get_api_key_by_key-IsPlainEntry :
    (key : Bytes) (ps : List OrgProject) (ks : List KeyRow) (e : KeyEntry)
    → get_api_key_by_key key ps ks ≡ some e
    → IsPlainEntry e
unfolding get_api_key_by_key
get_api_key_by_key-IsPlainEntry key ps [] e h = cc
get_api_key_by_key-IsPlainEntry key ps (k ∷ ks) e h = elim (Bool-cases (is_usable key k)) [
  | inr miss ↦ get_api_key_by_key-IsPlainEntry key ps ks e (rw miss at h)
  | inl hit ↦
      join_project-IsPlainEntry k (find_project k.project ps) _ e
        (get_api_key_by_key-IsPlainEntry key ps ks e) (rw hit at h)
]

module _ (cache : Cache) (codec : KeyCodec) where
  open cache use {State, get, set, del}

  -- Every entry of the cache has such a project.
  abbrev pub IsPlain : State → Type 0
  IsPlain r = (key : Bytes) (e : KeyEntry) → entry_at cache codec key r ≡ some e → IsPlainEntry e

  set-IsPlain :
      (key : Bytes) (e : KeyEntry) (r : State)
      → IsPlainEntry e
      → IsPlain r
      → IsPlain (set (cache_key key) (codec.encode e) r)
  set-IsPlain key e r plain h j x q = elim (Bool-cases (bytes_eq key j)) [
    | inl same ↦
        let k : key ≡ j = (bytes_eq_iff key j).0 same in
        let stored : entry_at cache codec j (set (cache_key key) (codec.encode e) r) ≡ some e =
          rw k (entry_at-set_self cache codec j e r) in
        let known : some e ≡ some x = sym stored ∙ q in
        let equal : e ≡ x = cc in subst IsPlainEntry equal plain
    | inr other ↦ h j x (sym (entry_at-set_ne cache codec key j (codec.encode e) r other) ∙ q)
  ]

  del-IsPlain : (key : Bytes) (r : State) → IsPlain r → IsPlain (del (cache_key key) r)
  del-IsPlain key r h j x q = h j x (entry_at-del cache codec key j r x q)

  Effect-IsPlain :
      {s s' : KeyStore cache codec} → Effect cache codec s s' → IsPlain s.redis → IsPlain s'.redis
  Effect-IsPlain (keeps k r) h = rw r h
  Effect-IsPlain (adds new k fresh r) h = rw r h
  Effect-IsPlain (deactivates now project id k (inl r)) h = rw r h
  Effect-IsPlain {s} (deactivates now project id k (inr (key, r))) h =
      rw r (del-IsPlain key s.redis h)
  Effect-IsPlain {s} (fills key e ps k row r) h =
      rw r (set-IsPlain key e s.redis (get_api_key_by_key-IsPlainEntry key ps s.keys e row) h)
  Effect-IsPlain {s} (forgets key k r) h = rw r (del-IsPlain key s.redis h)

  run-IsPlain :
      (ops : List (KeyOp cache codec)) (s : KeyStore cache codec)
      → IsPlain s.redis
      → IsPlain (apply_all cache codec ops s).redis
  unfolding apply_all
  run-IsPlain [] s h = h
  run-IsPlain (op ∷ ops) s h = run-IsPlain ops _ (Effect-IsPlain (apply-Effect cache codec op s) h)

  from_row-is_cloud :
      (c : KeyCall) (key : Bytes) (s : KeyStore cache codec) (e : Option KeyEntry)
      → ((x : KeyEntry) → e ≡ some x → IsPlainEntry x)
      → is_cloud (lookup_of (from_row cache codec c key e s).0) ≡ false
  unfolding from_row lookup_of is_cloud
  from_row-is_cloud c key s none h = refl
  from_row-is_cloud c key s (some x) h = ground (arith, h x refl)

  or_from_db-is_cloud :
      (c : KeyCall) (key : Bytes) (s : KeyStore cache codec) (e : Option KeyEntry)
      → ((x : KeyEntry) → e ≡ some x → IsPlainEntry x)
      → is_cloud (lookup_of (or_from_db cache codec c key e s).0) ≡ false
  unfolding or_from_db lookup_of is_cloud
  or_from_db-is_cloud c key s (some x) h = ground (arith, h x refl)
  or_from_db-is_cloud c key s none h = elim (Bool-cases c.db_up) [
    | inl up ↦
        rw up (from_row-is_cloud c key s _ (get_api_key_by_key-IsPlainEntry key s.projects s.keys))
    | inr down ↦ rw down refl
  ]

  answer-is_cloud :
      (c : KeyCall) (key : Bytes) (s : KeyStore cache codec)
      → IsPlain s.redis
      → is_cloud (lookup_of (get_api_key_by_key_cached cache codec c key s).0) ≡ false
  unfolding get_api_key_by_key_cached
  answer-is_cloud c key s h = or_from_db-is_cloud c key s _ given
    where
      given :
          (x : KeyEntry)
          → (if c.get_up then entry_at cache codec key s.redis else none) ≡ some x
          → IsPlainEntry x
      given x q = elim (Bool-cases c.get_up) [
        | inl up ↦ h key x (rw up at q)
        | inr down ↦ let no : none ≡ some x = (rw down at q) in cc
      ]

  -- From a cache in which no entry is of a cloud-managed project with an organization, such as an
  -- empty one: whatever keys and projects the tables hold, and after any lookups, creations,
  -- revocations and expiries, `SDKAuth` lets no request through, whatever bcrypt, Redis and the
  -- database answer.
  pub sdk_auth-refused :
      (bcrypt : Bytes → Bytes → Bool) (environment : Bytes) (r : Request) (es : List Entry)
      (ops : List (KeyOp cache codec)) (c : KeyCall) (s : KeyStore cache codec)
      → IsPlain s.redis
      → let reply =
          (get_api_key_by_key_cached cache codec c r.api_key (apply_all cache codec ops s)).0 in
        is_admitted (sdk_auth bcrypt environment (record r { lookup = lookup_of reply }) es).0
        ≡ false
  sdk_auth-refused bcrypt environment r es ops c s h =
      let t = apply_all cache codec ops s in
      let no_cloud = answer-is_cloud c r.api_key t (run-IsPlain ops s h) in
      sdk_auth-auth bcrypt environment _ es ∙ both_false _ _ no_cloud
