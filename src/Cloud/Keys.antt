-- ===== src/Cloud/Keys.antt =====
-- internal/storage/cloud_store.go: the table api_keys; internal/storage/api_key_cache.go: its cache. The
-- update of last_used_at, which no request waits for and no check reads, is left out.
use vaultkey.Prelude.{
  ℕ, Bool, false, ◌&&◌, ◌||◌, Option, none, some, List, [], ◌∷◌, ◌++◌, Bytes, bytes_eq, codes, ◌==◌,
  ◌≡◌, if◌then◌else◌,
}
use vaultkey.Access.{Lookup, failed, unknown, key_of}
use vaultkey.Stablecoin.Cache.{Cache}
use vaultkey.Cloud.Members.{is_null}
use vaultkey.Cloud.Orgs.{OrgProject}

pub record KeyRow : Type 0 where
  pub id : ℕ
  pub project : ℕ
  pub name : Bytes
  pub key : Bytes
  pub secret_hash : Bytes
  pub created_by : Option Bytes
  pub active : Bool
  pub created_at : ℕ
  pub deleted_at : Option ℕ

-- `cachedAPIKeyEntry`
pub record KeyEntry : Type 0 where
  pub api_key : KeyRow
  pub project : OrgProject

unfoldable pub has_key : Bytes → List KeyRow → Bool
has_key key [] = false
has_key key (k ∷ ks) = bytes_eq k.key key || has_key key ks

-- `CreateAPIKey`; none is an error, such as a key that is there.
unfoldable pub create_api_key : Bool → KeyRow → List KeyRow → Option (List KeyRow)
unfolding has_key
create_api_key fails new ks = if fails || has_key new.key ks then none else some (new ∷ ks)

unfoldable pub find_project : ℕ → List OrgProject → Option OrgProject
unfolding is_null
find_project id [] = none
find_project id (p ∷ ps) =
    let rest = find_project id ps in if p.id == id && is_null p.deleted_at then some p else rest

-- The SELECT names neither cloud_managed nor org_id: the fields of the struct keep their zero values.
unfoldable pub scanned : OrgProject → OrgProject
scanned p = record p { cloud_managed = false; org = none }

unfoldable pub is_usable : Bytes → KeyRow → Bool
unfolding is_null
is_usable key k = bytes_eq k.key key && k.active && is_null k.deleted_at

unfoldable pub join_project : KeyRow → Option OrgProject → Option KeyEntry → Option KeyEntry
unfolding scanned
join_project k none rest = rest
join_project k (some p) rest = some (record { api_key = k; project = scanned p })

-- `GetAPIKeyByKey`
unfoldable pub get_api_key_by_key : Bytes → List OrgProject → List KeyRow → Option KeyEntry
unfolding is_usable join_project find_project
get_api_key_by_key key ps [] = none
get_api_key_by_key key ps (k ∷ ks) =
    let rest = get_api_key_by_key key ps ks in
    if is_usable key k then join_project k (find_project k.project ps) rest else rest

-- `ListAPIKeys`, newest row first in the table, oldest first in the answer.
unfoldable pub list_api_keys : ℕ → List KeyRow → List KeyRow
unfolding is_null
list_api_keys project [] = []
list_api_keys project (k ∷ ks) =
    let rest = list_api_keys project ks in
    if k.project == project && is_null k.deleted_at then rest ++ (k ∷ []) else rest

unfoldable pub is_key_of : ℕ → ℕ → KeyRow → Bool
unfolding is_null
is_key_of project id k = k.id == id && k.project == project && is_null k.deleted_at

-- The SELECT of `RevokeAPIKey`.
unfoldable pub select_key : ℕ → ℕ → List KeyRow → Option Bytes
unfolding is_key_of
select_key project id [] = none
select_key project id (k ∷ ks) =
    let rest = select_key project id ks in if is_key_of project id k then some k.key else rest

-- Its UPDATE, which finds a row where the SELECT has key_found one.
unfoldable pub deactivate : ℕ → ℕ → ℕ → List KeyRow → List KeyRow
unfolding is_key_of
deactivate now project id [] = []
deactivate now project id (k ∷ ks) =
    let rest = deactivate now project id ks in
    if is_key_of project id k
    then record k { active = false; deleted_at = some now } ∷ rest
    else k ∷ rest

-- Which of the commands and statements of one call work.
pub record KeyCall : Type 0 where
  pub get_up : Bool
  pub set_up : Bool
  pub del_up : Bool
  pub db_up : Bool

-- encoding/json on entries
pub record KeyCodec : Type 0 where
  pub encode : KeyEntry → Bytes
  pub decode : Bytes → Option KeyEntry
  pub decode-encode : (e : KeyEntry) → decode (encode e) ≡ some e

pub data Found : Type 0 where
  query_failed not_found : Found
  key_found : KeyEntry → Found

-- `apiKeyCacheKey`
unfoldable pub cache_key : Bytes → Bytes
cache_key key = codes "vk:apikey:" ++ key

-- The answer as the middleware reads it.
unfoldable pub lookup_of : Found → Lookup
lookup_of query_failed = failed
lookup_of not_found = unknown
lookup_of (key_found e) = key_of (record {
  secret_hash = e.api_key.secret_hash;
  project = record {
    rate_limit_rps = e.project.rate_limit_rps;
    cloud_managed = e.project.cloud_managed;
    org = e.project.org;
  };
})

module _ (cache : Cache) (codec : KeyCodec) where
  open cache use {State, get, set, del}

  pub record KeyStore : Type 0 where
    pub keys : List KeyRow
    pub projects : List OrgProject
    pub redis : State

  unfoldable pub entry_from : Option Bytes → Option KeyEntry
  entry_from none = none
  entry_from (some raw) = codec.decode raw

  unfoldable pub from_row : KeyCall → Bytes → Option KeyEntry → KeyStore → Found × KeyStore
  unfolding cache_key
  from_row c key none s = (not_found, s)
  from_row c key (some e) s = (
    key_found e,
    if c.set_up then record s { redis = set (cache_key key) (codec.encode e) s.redis } else s,
  )

  unfoldable pub or_from_db : KeyCall → Bytes → Option KeyEntry → KeyStore → Found × KeyStore
  unfolding from_row get_api_key_by_key
  or_from_db c key (some e) s = (key_found e, s)
  or_from_db c key none s =
      if c.db_up
      then from_row c key (get_api_key_by_key key s.projects s.keys) s
      else (query_failed, s)

  -- `GetAPIKeyByKeyCached`
  unfoldable pub get_api_key_by_key_cached : KeyCall → Bytes → KeyStore → Found × KeyStore
  unfolding or_from_db entry_from cache_key
  get_api_key_by_key_cached c key s =
      or_from_db c key (if c.get_up then entry_from (get (cache_key key) s.redis) else none) s

  -- `InvalidateAPIKeyCache`
  unfoldable pub invalidate_api_key_cache : KeyCall → Bytes → KeyStore → KeyStore
  unfolding cache_key
  invalidate_api_key_cache c key s =
      if c.del_up then record s { redis = del (cache_key key) s.redis } else s
