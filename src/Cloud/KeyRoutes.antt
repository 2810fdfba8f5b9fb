-- ===== src/Cloud/KeyRoutes.antt =====
-- internal/api/handlers/cloud_handlers.go: `CreateAPIKey` and `RevokeAPIKey` behind `OrgAuthz`, each
-- without other requests in between.
use vaultkey.Prelude.{
  ℕ, Bool, true, ◌&&◌, Option, none, some, List, [], ◌∷◌, ◌++◌, Bytes, bytes_eq, codes, length,
  if◌then◌else◌,
}
use vaultkey.Prelude.Int.{ℤ, pos, leb_ℤ}
use vaultkey.Amount.{trim_space}
use vaultkey.Stablecoin.Cache.{Cache}
use vaultkey.Cloud.Orgs.{
  Organization, get_organization_by_id, OrgProject, get_organization_project, insert_project,
}
use vaultkey.Cloud.Keys.{
  KeyRow, create_api_key, list_api_keys, select_key, deactivate, KeyCall, KeyCodec, KeyStore,
  invalidate_api_key_cache,
}

-- `Environment` and `MaxAPIKeysPerProject` of the configuration.
pub record KeyConfig : Type 0 where
  pub environment : Bytes
  pub max_api_keys : ℤ

-- Which statements of one call fail; generated texts are none where the generator fails.
pub record KeyCreation : Type 0 where
  pub caller : Bytes
  pub org : ℕ
  -- the name in the body, none where it does not decode
  pub name : Option Bytes
  pub today : Bytes
  pub org_fails : Bool
  pub project_fails : Bool
  pub insert_project_fails : Bool
  pub refetch_fails : Bool
  pub list_fails : Bool
  pub insert_fails : Bool
  pub token : Option Bytes
  pub secret : Option Bytes
  pub hash : Option Bytes
  pub id : ℕ
  pub project_id : ℕ
  pub time : ℕ

-- `getKeyPrefix`
unfoldable pub get_key_prefix : Bytes → Bytes
get_key_prefix env = if bytes_eq env (codes "testnet") then codes "testnet_" else codes "vk_live_"

unfoldable pub name_or_date : Bytes → Bytes → Bytes
name_or_date today [] = codes "Key " ++ today
name_or_date today (c ∷ s) = c ∷ s

unfoldable pub key_row : KeyConfig → KeyCreation → ℕ → Bytes → Bytes → Bytes → KeyRow
unfolding name_or_date trim_space get_key_prefix
key_row g q project name token hash = record {
  id = q.id;
  project = project;
  name = name_or_date q.today (trim_space name);
  key = get_key_prefix g.environment ++ token;
  secret_hash = hash;
  created_by = some q.caller;
  active = true;
  created_at = q.time;
  deleted_at = none;
}

-- The limit of testnet; a failed query counts as no keys.
unfoldable pub at_limit : KeyConfig → KeyCreation → ℕ → List KeyRow → Bool
unfolding list_api_keys
at_limit g q project ks =
    bytes_eq g.environment (codes "testnet")
    && leb_ℤ g.max_api_keys (pos (if q.list_fails then 0 else length (list_api_keys project ks)))

-- `EnsureProjectForOrg`: none is an error or no project.
unfoldable pub after_insert :
    KeyCreation → ℕ → Option OrgProject × List OrgProject → Option OrgProject × List OrgProject
unfolding get_organization_project
after_insert q org (some p, ps) = (some p, ps)
after_insert q org (none, ps) =
    (if q.refetch_fails then none else get_organization_project org ps, ps)

unfoldable pub or_insert :
    KeyCreation
    → Organization
    → Option OrgProject
    → List OrgProject
    → Option OrgProject × List OrgProject
unfolding after_insert insert_project
or_insert q o (some p) ps = (some p, ps)
or_insert q o none ps =
    if q.insert_project_fails
    then (none, ps)
    else after_insert q o.id (insert_project q.project_id o.id o.name ps)

unfoldable pub ensure_project_for_org :
    KeyCreation → Organization → List OrgProject → Option OrgProject × List OrgProject
unfolding or_insert get_organization_project
ensure_project_for_org q o ps =
    if q.project_fails then (none, ps) else or_insert q o (get_organization_project o.id ps) ps

-- The generated texts, all or none.
unfoldable pub generated : KeyCreation → Option (Bytes × Bytes)
generated q = elim q.token [
  | none ↦ none
  | some t ↦ elim q.secret [
    | none ↦ none
    | some s ↦ elim q.hash [ none ↦ none | some h ↦ some (t, h) ]
  ]
]

module _ (cache : Cache) (codec : KeyCodec) where
  abbrev pub Keyring : Type 0
  Keyring = KeyStore cache codec

  unfoldable pub stored_key : Keyring → Option (List KeyRow) → ℕ × Keyring
  stored_key s none = (500, s)
  stored_key s (some ks) = (201, record s { keys = ks })

  unfoldable pub insert_key :
      KeyConfig → KeyCreation → Bytes → ℕ → Option (Bytes × Bytes) → Keyring → ℕ × Keyring
  unfolding key_row stored_key create_api_key
  insert_key g q name project none s = (500, s)
  insert_key g q name project (some (t, h)) s =
      stored_key s (create_api_key q.insert_fails (key_row g q project name t h) s.keys)

  unfoldable pub create_in_project :
      KeyConfig → KeyCreation → Bytes → Option OrgProject → Keyring → ℕ × Keyring
  unfolding at_limit insert_key generated
  create_in_project g q name none s = (500, s)
  create_in_project g q name (some p) s =
      if at_limit g q p.id s.keys then (403, s) else insert_key g q name p.id (generated q) s

  unfoldable pub create_in_org :
      KeyConfig → KeyCreation → Bytes → Option Organization → Keyring → ℕ × Keyring
  unfolding create_in_project ensure_project_for_org
  create_in_org g q name none s = (404, s)
  create_in_org g q name (some o) s =
      let (p, ps) = ensure_project_for_org q o s.projects in
      create_in_project g q name p (record s { projects = ps })

  -- `CreateAPIKey`: the status, and the tables.
  unfoldable pub create_key_route :
      KeyConfig → KeyCreation → List Organization → Keyring → ℕ × Keyring
  unfolding create_in_org get_organization_by_id
  create_key_route g q os s = elim q.name [
    | none ↦ (400, s)
    | some name ↦
        create_in_org g q name (if q.org_fails then none else get_organization_by_id q.org os) s
  ]

  unfoldable pub revoke_selected : KeyCall → ℕ → ℕ → ℕ → Bool → Option Bytes → Keyring → ℕ × Keyring
  unfolding deactivate invalidate_api_key_cache
  revoke_selected c now project id update_fails none s = (404, s)
  revoke_selected c now project id update_fails (some key) s = if update_fails then (404, s) else (
    200,
    invalidate_api_key_cache cache codec c key
        (record s { keys = deactivate now project id s.keys }),
  )

  unfoldable pub revoke_in : KeyCall → ℕ → ℕ → Bool → Option OrgProject → Keyring → ℕ × Keyring
  unfolding revoke_selected select_key
  revoke_in c now id update_fails none s = (404, s)
  revoke_in c now id update_fails (some p) s =
      revoke_selected c now p.id id update_fails
        (if c.db_up then select_key p.id id s.keys else none) s

  -- `RevokeAPIKey`; `project_fails` and `update_fails` are two of its statements.
  unfoldable pub revoke_key_route : KeyCall → ℕ → ℕ → ℕ → Bool → Bool → Keyring → ℕ × Keyring
  unfolding revoke_in get_organization_project
  revoke_key_route c now org id project_fails update_fails s =
      revoke_in c now id update_fails
        (if project_fails then none else get_organization_project org s.projects) s
