-- ===== src/Access/Routes.antt =====
-- The SDK chain against the plain one.
use vaultkey.Prelude.{
  ℕ, ◌≡◌, refl, Bool, true, false, ◌&&◌, none, some, Option, List, Bytes, if◌then◌else◌, Bool-cases,
  inl, inr, arith,
}
use vaultkey.Access.{
  Entry, Project, Lookup, failed, unknown, key_of, Request, Verdict, refused, admitted, bad_headers,
  limited, with_key, auth, sdk_project, sdk_with_key, sdk_auth,
}

unfoldable pub is_admitted : Verdict → Bool
is_admitted (refused status) = false
is_admitted (admitted p org) = true

unfoldable pub has_org : Option ℕ → Bool
has_org none = false
has_org (some org) = true

unfoldable pub is_cloud : Lookup → Bool
unfolding has_org
is_cloud failed = false
is_cloud unknown = false
is_cloud (key_of k) = k.project.cloud_managed && has_org k.project.org

unfoldable pub is_key : Lookup → Bool
is_key failed = false
is_key unknown = false
is_key (key_of k) = true

module _ (bcrypt : Bytes → Bytes → Bool) where
  limited-same :
      (r : Request) (p : Project) (a b : Option ℕ) (es : List Entry)
      → is_admitted (limited r p a es).0 ≡ is_admitted (limited r p b es).0
  unfolding limited is_admitted
  limited-same r p a b es = ground arith

  sdk_with_key-with_key :
      (r : Request) (l : Lookup) (es : List Entry)
      → is_admitted (sdk_with_key bcrypt r l es).0
        ≡ is_admitted (with_key bcrypt r l es).0 && is_cloud l
  unfolding sdk_with_key with_key is_admitted is_cloud sdk_project
  sdk_with_key-with_key r failed es = refl
  sdk_with_key-with_key r unknown es = refl
  sdk_with_key-with_key r (key_of k) es = go k.project.org
    where
      go :
          (org : Option ℕ)
          → is_admitted
              (if bcrypt k.secret_hash r.api_secret
                then sdk_project bcrypt r k.project org es
                else (refused 401, es)).0
            ≡ is_admitted
                (if bcrypt k.secret_hash r.api_secret
                  then limited r k.project none es
                  else (refused 401, es)).0
              && (k.project.cloud_managed && has_org org)
      go none = ground arith
      go (some org) = ground (arith, limited-same r k.project (some org) none es)

  -- The SDK chain lets a request through exactly where the plain chain lets it through and the key's
  -- project is managed by the cloud and has an organization.
  pub sdk_auth-auth :
      (environment : Bytes) (r : Request) (es : List Entry)
      → is_admitted (sdk_auth bcrypt environment r es).0
        ≡ is_admitted (auth bcrypt environment r es).0 && is_cloud r.lookup
  unfolding sdk_auth auth
  sdk_auth-auth environment r es = elim (Bool-cases (bad_headers environment r)) [
    | inl h ↦ rw h (unfold is_admitted in refl)
    | inr h ↦ rw h (sdk_with_key-with_key r r.lookup es)
  ]

  with_key-no_key :
      (r : Request) (l : Lookup) (es : List Entry)
      → is_key l ≡ false
      → is_admitted (with_key bcrypt r l es).0 ≡ false
  unfolding with_key is_admitted is_key
  with_key-no_key r failed es h = refl
  with_key-no_key r unknown es h = refl
  with_key-no_key r (key_of k) es h = cc

  -- Without a key there is no way in.
  pub auth-no_key :
      (environment : Bytes) (r : Request) (es : List Entry)
      → is_key r.lookup ≡ false
      → is_admitted (auth bcrypt environment r es).0 ≡ false
  unfolding auth
  auth-no_key environment r es h = elim (Bool-cases (bad_headers environment r)) [
    | inl bad ↦ rw bad (unfold is_admitted in refl)
    | inr good ↦ rw good (with_key-no_key r r.lookup es h)
  ]
