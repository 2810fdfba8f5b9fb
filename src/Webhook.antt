-- ===== src/Webhook.antt =====
-- internal/webhook/webhook.go: `Deliverer`. The endpoint's answers, the context and HMAC-SHA256 are
-- parameters; what a delivery does outside is its log.
pub mod Retries
mod Tests
use vaultkey.Prelude.{
  ℕ, zero, suc, ◌+◌, ◌*◌, ◌^◌, Bool, true, false, ◌&&◌, Option, none, some, List, [], ◌∷◌, leb, ltb,
  Bytes, codes, ◌++◌, if◌then◌else◌,
}
use vaultkey.Prelude.Int.{ℤ, pos, negsuc, wrap64}

-- What the endpoint does to attempt `i`, and whether the context ends in the wait before it.
pub record Endpoint : Type 0 where
  -- the status of the answer, none where there is no answer
  pub answer : ℕ → Option ℕ
  pub cancelled : ℕ → Bool

pub data Event : Type 0 where
  -- nanoseconds
  waited : ℤ → Event
  -- the body and X-VaultKey-Signature
  posted : Bytes → Option Bytes → Event

pub data Outcome : Type 0 where
  delivered interrupted exhausted : Outcome

-- `sign`: the hex of the MAC
pub signature_header : (Bytes → Bytes → Bytes) → Bytes → Bytes → Option Bytes
signature_header hex_mac [] body = none
signature_header hex_mac (c ∷ secret) body = some (codes "sha256=" ++ hex_mac body (c ∷ secret))

unfoldable pub is_success : Option ℕ → Bool
is_success none = false
is_success (some status) = leb 200 status && ltb status 300

-- `math.Pow(2, attempt-1)` seconds, in nanoseconds
unfoldable pub backoff : ℕ → ℤ
backoff n = wrap64 (pos (2 ^ n * 1000000000))

unfoldable pub after_wait : ℕ → List Event → List Event
after_wait zero log = log
after_wait (suc n) log = waited (backoff n) ∷ log

unfoldable pub stopped : Endpoint → ℕ → Bool
stopped net zero = false
stopped net (suc n) = net.cancelled (suc n)

-- The loop from `attempt` on, with the number of rounds that are left.
unfoldable pub attempts : Endpoint → Event → ℕ → ℕ → Outcome × List Event
unfolding is_success after_wait stopped
attempts net post zero attempt = (exhausted, [])
attempts net post (suc rounds) attempt =
    let (o, log) = attempts net post rounds (suc attempt) in
    if stopped net attempt
    then (interrupted, [])
    else if is_success (net.answer attempt)
    then (delivered, after_wait attempt (post ∷ []))
    else (o, after_wait attempt (post ∷ log))

-- `for attempt := 0; attempt <= maxRetries`
unfoldable pub rounds_of : ℤ → ℕ
rounds_of (pos n) = suc n
rounds_of (negsuc n) = 0

-- `Deliver`
unfoldable pub deliver :
    Endpoint → (Bytes → Bytes → Bytes) → Bytes → Bytes → ℤ → Outcome × List Event
unfolding attempts rounds_of signature_header
deliver net hex_mac secret body max_retries =
    attempts net (posted body (signature_header hex_mac secret body)) (rounds_of max_retries) 0
