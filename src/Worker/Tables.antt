-- ===== src/Worker/Tables.antt =====
-- What a worker reads and writes: the tables, the queue, the messages that it sends. `Rejects` says
-- which statements the database refuses, and a `Signer` stands for what signs.
use vaultkey.Prelude.{ℕ, Bool, true, false, Option, none, some, List, [], ◌∷◌, Bytes}
use vaultkey.Prelude.Int.{ℤ, pos}
use vaultkey.Prelude.Assoc.{Table}
use vaultkey.Store.Wallets.{Wallet}
use vaultkey.Webhook.{Outcome, delivered, interrupted, exhausted, Endpoint}
use vaultkey.Queue.{Faults}
use vaultkey.Worker.Jobs.{
  Status, pending, processing, completed, failed, dead, WebhookStatus, webhook_delivered,
  webhook_failed, SigningJob,
}

pub data Query : Type 0 where
  fetch_job fetch_wallet fetch_project set_processing set_completed refetch_project : Query
  set_failed set_dead write_audit set_webhook fetch_cost upsert_usage : Query

abbrev pub Rejects : Type 0
Rejects = Query → Bool

pub record Project : Type 0 where
  pub webhook_url : Bytes
  pub webhook_secret : Bytes
  pub max_retries : ℤ
  pub cloud_managed : Bool
  pub org : Option ℕ

-- `webhook.Payload`
pub record Payload : Type 0 where
  pub job : ℕ
  pub project : ℕ
  pub wallet : ℕ
  pub operation : Bytes
  pub status : Status
  pub result : Option Bytes
  pub error : Bytes
  pub timestamp : ℕ

pub data Signed : Type 0 where
  signed : Bytes → Signed
  refused : Bytes → Signed
  -- the process stops
  panicked : Signed

pub data Done : Type 0 where
  done fetch_error not_in_db mark_error : Done

-- A row of usage: organization, operation, cost.
abbrev pub Usage : Type 0
Usage = ℕ × Bytes × ℤ

-- What a call meets outside: refused statements and commands, the clock, the endpoint, HMAC, JSON.
pub record Round : Type 0 where
  pub rejects : Rejects
  pub faults : Faults
  pub now : ℕ
  pub endpoint : Endpoint
  pub hex_mac : Bytes → Bytes → Bytes
  pub encode_payload : Payload → Bytes

pub record World (Queue Env : Type 0) : Type 0 where
  pub jobs : List SigningJob
  -- those that are not deleted
  pub projects : Table Project
  pub cost_of : Bytes → Option ℤ
  pub queue : Queue
  pub usage : List Usage
  pub audit : List (ℕ × Bytes)
  pub sent : List Payload
  pub env : Env

-- `maxRetries := 3` where the project is not found
unfoldable pub max_retries_or_3 : Option Project → ℤ
max_retries_or_3 none = pos 3
max_retries_or_3 (some p) = p.max_retries

unfoldable pub payload_status : Bytes → Status → Status
payload_status [] s = completed
payload_status (c ∷ e) dead = dead
payload_status (c ∷ e) pending = failed
payload_status (c ∷ e) processing = failed
payload_status (c ∷ e) completed = failed
payload_status (c ∷ e) failed = failed

unfoldable pub webhook_result : Outcome → WebhookStatus
webhook_result delivered = webhook_delivered
webhook_result interrupted = webhook_failed
webhook_result exhausted = webhook_failed

unfoldable pub answer_of : Bool → Option Project → Option Project
answer_of true p = none
answer_of false p = p

unfoldable pub wallet_of : Bool → Option Wallet → Option Wallet
wallet_of true w = none
wallet_of false w = w

-- The method `sign`, with the state that it may change (nonces, wallets, broadcasts).
pub record Signer : Type 1 where
  pub Env : Type 0
  pub wallets : Env → List Wallet
  pub sign : SigningJob → Wallet → Env → Signed × Env
