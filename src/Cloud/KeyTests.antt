-- ===== src/Cloud/KeyTests.antt =====
-- A key of a cloud project in an empty cache: a request, and its revocation.
use vaultkey.Prelude.{◌≡◌, refl, true, false, [], ◌∷◌, codes, bytes_eq}
use vaultkey.Access.{Request, unknown, bad_headers, limited, auth, sdk_auth}
use vaultkey.Access.Routes.{is_admitted}
use vaultkey.Stablecoin.Cache.{in_memory}
use vaultkey.Cloud.Orgs.{get_organization_project}
use vaultkey.Cloud.Keys.{
  has_key, select_key, lookup_of, KeyStore, entry_from, get_api_key_by_key_cached,
  get_api_key_by_key, scanned, from_row,
}
use vaultkey.Cloud.KeyRoutes.{revoke_key_route}
use vaultkey.Cloud.KeyEffects.{looks_up, apply_all}
use vaultkey.Cloud.SdkKeys.{sdk_auth-refused}
use vaultkey.Cloud.Revocation.{revoke-auth}
use vaultkey.Cloud.Samples.{codec, read-print_entry, live_key, acme_project, no_entries, all_up}

abbrev ring : KeyStore in_memory codec
ring = record { keys = live_key ∷ []; projects = acme_project ∷ []; redis = no_entries }

abbrev request : Request
request = record {
  api_key = codes "vk_live_k";
  api_secret = codes "s";
  lookup = unknown;
  redis_down = false;
  now = 1000000;
}

sdk_auth-refused_example :
    let reply =
      (get_api_key_by_key_cached in_memory codec all_up
        (codes "vk_live_k")
        (apply_all in_memory codec (looks_up all_up (codes "vk_live_k") ∷ []) ring)).0 in
    is_admitted
      (sdk_auth bytes_eq (codes "mainnet") (record request { lookup = lookup_of reply }) []).0
    ≡ false
unfolding entry_from
sdk_auth-refused_example =
    sdk_auth-refused in_memory codec bytes_eq (codes "mainnet") request []
      (looks_up all_up (codes "vk_live_k") ∷ []) all_up ring (λ key e h. cc)

revoke-auth_example :
    let t =
      apply_all in_memory codec
        (looks_up all_up (codes "vk_live_k") ∷ [])
        (revoke_key_route in_memory codec all_up 7 1 4 false false ring).1 in
    let reply = (get_api_key_by_key_cached in_memory codec all_up (codes "vk_live_k") t).0 in
    is_admitted (auth bytes_eq (codes "mainnet") (record request { lookup = lookup_of reply }) []).0
    ≡ false
unfolding has_key get_organization_project select_key revoke_key_route
revoke-auth_example =
    revoke-auth in_memory codec bytes_eq (codes "mainnet") request [] all_up all_up 7 1 4 false
      false (looks_up all_up (codes "vk_live_k") ∷ []) ring acme_project (refl, tt) refl refl refl
      refl

-- Before its revocation the key opens the plain routes.
opens :
    is_admitted
      (auth bytes_eq
        (codes "mainnet")
        (record request {
          lookup =
              lookup_of
                (get_api_key_by_key_cached in_memory codec all_up (codes "vk_live_k") ring).0;
        })
        []).0
    ≡ true
unfolding is_admitted auth lookup_of get_api_key_by_key_cached entry_from bytes_eq bad_headers
    limited
opens = refl

-- A lookup that read the row before the revocation fills the cache after it: the key opens again.
abbrev late_fill : KeyStore in_memory codec
late_fill =
    (from_row in_memory codec all_up (codes "vk_live_k")
      (get_api_key_by_key (codes "vk_live_k") ring.projects ring.keys)
      (revoke_key_route in_memory codec all_up 7 1 4 false false ring).1).1

opens_again :
    is_admitted
      (auth bytes_eq
        (codes "mainnet")
        (record request {
          lookup =
              lookup_of
                (get_api_key_by_key_cached in_memory codec all_up (codes "vk_live_k") late_fill).0;
        })
        []).0
    ≡ true
unfolding is_admitted auth limited bad_headers lookup_of get_api_key_by_key_cached entry_from
    bytes_eq from_row get_api_key_by_key revoke_key_route get_organization_project select_key
opens_again =
    rw (read-print_entry (record { api_key = live_key; project = scanned acme_project })) refl
