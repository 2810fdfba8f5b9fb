-- ===== src/Access.antt =====
-- The rate limiter of internal/ratelimit/limiter.go, the middleware `Auth` and `OrgAuthz` of
-- internal/api/middleware/auth.go, and `SDKAuth` of sdk_auth.go. The key lookup and bcrypt are
-- parameters; a sorted set of Redis is the list of its entries.
pub mod Window
pub mod Routes
mod Tests
use vaultkey.Prelude.{
  ℕ, zero, suc, ◌+◌, ◌/◌, Bool, true, false, ◌&&◌, ◌||◌, Option, none, some, List, [], ◌∷◌, Bytes,
  bytes_eq, codes, ◌==◌, ltb, leb, if◌then◌else◌,
}
use vaultkey.Prelude.Int.{ℤ, pos, negsuc, ltb_ℤ}

-- An entry of the set: its score in microseconds and its member, a time in nanoseconds.
pub record Entry : Type 0 where
  pub score : ℕ
  pub member : ℕ

unfoldable pub is_inside : ℕ → Entry → Bool
is_inside now e = ltb (now / 1000) (e.score + 1000000)

-- ZREMRANGEBYSCORE key -inf now-1s, which removes the score at the bound too
unfoldable pub drop_old : ℕ → List Entry → List Entry
unfolding is_inside
drop_old now [] = []
drop_old now (e ∷ es) = let rest = drop_old now es in if is_inside now e then e ∷ rest else rest

unfoldable pub zcard : List Entry → ℕ
zcard [] = 0
zcard (e ∷ es) = suc (zcard es)

-- ZADD replaces the score of a member that is there.
unfoldable pub zadd : Entry → List Entry → List Entry
zadd n [] = n ∷ []
zadd n (e ∷ es) = let rest = e ∷ zadd n es in if e.member == n.member then n ∷ es else rest

-- `Allow` at the time `now` in nanoseconds; it fails open. EXPIRE only drops a set whose entries are
-- all out of the window.
unfoldable pub allow : Bool → ℕ → ℤ → List Entry → Bool × List Entry
unfolding drop_old zcard zadd
allow redis_down now limit es =
    let kept = drop_old now es in
    if redis_down
    then (true, es)
    else (ltb_ℤ (pos (zcard kept)) limit, zadd (record { score = now / 1000; member = now }) kept)

pub record Project : Type 0 where
  pub rate_limit_rps : ℤ
  pub cloud_managed : Bool
  -- none where org_id is NULL or empty
  pub org : Option ℕ

pub record ApiKey : Type 0 where
  pub secret_hash : Bytes
  pub project : Project

pub data Lookup : Type 0 where
  failed unknown : Lookup
  key_of : ApiKey → Lookup

-- A request with what it meets: the lookup's answer, Redis, the clock.
pub record Request : Type 0 where
  pub api_key : Bytes
  pub api_secret : Bytes
  pub lookup : Lookup
  pub redis_down : Bool
  pub now : ℕ

-- The status of an error response, or the project and organization for the next handler.
pub data Verdict : Type 0 where
  refused : ℕ → Verdict
  admitted : Project → Option ℕ → Verdict

unfoldable pub is_empty : Bytes → Bool
is_empty [] = true
is_empty (c ∷ cs) = false

unfoldable pub has_prefix : Bytes → Bytes → Bool
has_prefix [] s = true
has_prefix (c ∷ cs) [] = false
has_prefix (c ∷ cs) (d ∷ ds) = let rest = has_prefix cs ds in if c == d then rest else false

-- The header and environment checks that both chains start with.
unfoldable pub bad_headers : Bytes → Request → Bool
unfolding is_empty has_prefix
bad_headers environment r =
    is_empty r.api_key
    || is_empty r.api_secret
    || has_prefix (codes "testnet_") r.api_key && bytes_eq environment (codes "mainnet")
    || has_prefix (codes "vk_live_") r.api_key && bytes_eq environment (codes "testnet")

unfoldable pub limited : Request → Project → Option ℕ → List Entry → Verdict × List Entry
unfolding allow
limited r p org es =
    let (allowed, es') = allow r.redis_down r.now p.rate_limit_rps es in
    if allowed then (admitted p org, es') else (refused 429, es')

module _ (bcrypt : Bytes → Bytes → Bool) where
  with_key : Request → Lookup → List Entry → Verdict × List Entry
  with_key r failed es = (refused 500, es)
  with_key r unknown es = (refused 401, es)
  with_key r (key_of k) es =
      if bcrypt k.secret_hash r.api_secret then limited r k.project none es else (refused 401, es)

  -- `Auth`
  unfoldable pub auth : Bytes → Request → List Entry → Verdict × List Entry
  unfolding with_key
  auth environment r es =
      if bad_headers environment r then (refused 401, es) else with_key r r.lookup es

  sdk_project : Request → Project → Option ℕ → List Entry → Verdict × List Entry
  sdk_project r p none es = if p.cloud_managed then (refused 500, es) else (refused 403, es)
  sdk_project r p (some org) es =
      if p.cloud_managed then limited r p (some org) es else (refused 403, es)

  sdk_with_key : Request → Lookup → List Entry → Verdict × List Entry
  unfolding sdk_project
  sdk_with_key r failed es = (refused 500, es)
  sdk_with_key r unknown es = (refused 401, es)
  sdk_with_key r (key_of k) es =
      if bcrypt k.secret_hash r.api_secret
      then sdk_project r k.project k.project.org es
      else (refused 401, es)

  -- `SDKAuth`
  unfoldable pub sdk_auth : Bytes → Request → List Entry → Verdict × List Entry
  unfolding sdk_with_key
  sdk_auth environment r es =
      if bad_headers environment r then (refused 401, es) else sdk_with_key r r.lookup es

-- `roleLevel`; a role that is not in the map has level 0.
unfoldable pub role_level : Bytes → ℕ
role_level role =
    if bytes_eq role (codes "owner")
    then 4
    else if bytes_eq role (codes "admin")
    then 3
    else if bytes_eq role (codes "developer")
    then 2
    else if bytes_eq role (codes "viewer")
    then 1
    else 0

pub data Member : Type 0 where
  member_error no_member : Member
  member_of : Bytes → Member

unfoldable pub by_member : Bytes → Member → Option ℕ
unfolding role_level
by_member min_role member_error = some 500
by_member min_role no_member = some 403
by_member min_role (member_of role) =
    if ltb (role_level role) (role_level min_role) then some 403 else none

-- `OrgAuthz`: the status of the error response, none where the next handler runs.
pub org_authz : Bytes → Bytes → Bytes → Member → Option ℕ
unfolding by_member
org_authz min_role user org_id member =
    if is_empty user
    then some 401
    else if is_empty org_id
    then some 400
    else by_member min_role member
