-- ===== src/Nonce.antt =====
-- internal/nonce/manager.go: the counter of each relayer wallet, kept in Redis. The client's
-- commands GET, INCR and SET with its time to live are a parameter; `up` is false where the client returns an error.
pub mod Redis
pub mod Sequence
pub mod Callers
mod Tests
use vaultkey.Prelude.{
  ℕ, ◌+◌, ◌-◌, ◌%◌, ◌^◌, Bool, true, false, Option, none, some, List, [], ◌∷◌, ◌++◌, Bytes, codes,
  ltb, ◌==◌, if◌then◌else◌,
}
use vaultkey.Prelude.Int.{ℤ, pos, negsuc, pos_part, leb_ℤ}
use Redis.{Counters}

pub data Error : Type 0 where
  redis_error invalid_state parse_error rpc_error : Error

pub data Result {ℓ} (A : Type ℓ) : Type ℓ where
  ok : A → Result A
  err : Error → Result A

-- `fmt.Sprintf("vaultkey:nonce:%s:%s", chainID, address)`
unfoldable pub key : Bytes → Bytes → Bytes
key chain address = codes "vaultkey:nonce:" ++ (chain ++ (b':' ∷ address))

-- `strconv.ParseUint(val, 10, 64)` on the text of a stored integer.
unfoldable pub parse_uint : ℤ → Option ℕ
parse_uint (pos n) = if ltb n (2 ^ 64) then some n else none
parse_uint (negsuc n) = none

-- The counter stands one above the nonce that was handed out last.
unfoldable pub last_used : Option ℕ → Result ℕ
last_used none = err parse_error
last_used (some n) = ok (if n == 0 then 0 else n - 1)

-- `if val <= 0 { … }; return uint64(val - 1)`, on what INCR returns.
unfoldable pub from_incr : Option ℤ → Result ℕ
from_incr none = err redis_error
from_incr (some v) = if leb_ℤ v (pos 0) then err invalid_state else ok (pos_part v - 1)

-- `24*time.Hour`, in seconds
abbrev pub day : ℕ
day = 86400

module _ (redis : Counters) where
  open redis use {State, get, incr, set}

  unfoldable pub next : Bool → Bytes → Bytes → State → Result ℕ × State
  unfolding from_incr
  next false chain address s = (err redis_error, s)
  next true chain address s = let (v, s') = incr (key chain address) s in (from_incr v, s')

  -- `pendingNonce+1` is a uint64 sum; the key lives for a day.
  unfoldable pub sync_from_chain : Bool → Bytes → Bytes → ℕ → State → Result (Unit {0}) × State
  sync_from_chain false chain address pending s = (err redis_error, s)
  sync_from_chain true chain address pending s =
      (ok tt, set (key chain address) ((pending + 1) % 2 ^ 64) day s)

  unfoldable pub peek : Bool → Bytes → Bytes → State → Result ℕ
  unfolding parse_uint last_used
  peek false chain address s = err redis_error
  peek true chain address s = elim (get (key chain address) s) [
    | none ↦ ok 0
    | some v ↦ last_used (parse_uint v)
  ]

  unfoldable pub reset : Bool → Bytes → Bytes → ℕ → State → Result (Unit {0}) × State
  reset up chain address nonce s = sync_from_chain up chain address nonce s

  -- `resyncNonce` of the worker and of the relayer; `pending` is what the chain's node answers.
  unfoldable pub resync_nonce : Bool → Option ℕ → Bytes → Bytes → State → Result (Unit {0}) × State
  resync_nonce up none chain address s = (err rpc_error, s)
  resync_nonce up (some pending) chain address s = sync_from_chain up chain address pending s

  -- `ensureNonce` of both, on what `Peek` returned.
  unfoldable pub ensure_from :
      Result ℕ → Bool → Option ℕ → Bytes → Bytes → State → Result (Unit {0}) × State
  ensure_from (err e) up pending chain address s = (err e, s)
  ensure_from (ok current) up pending chain address s =
      if ltb 0 current then (ok tt, s) else resync_nonce up pending chain address s

  unfoldable pub ensure_nonce : Bool → Option ℕ → Bytes → Bytes → State → Result (Unit {0}) × State
  unfolding ensure_from
  ensure_nonce up pending chain address s =
      ensure_from (peek up chain address s) up pending chain address s
