-- ===== src/Submit.antt =====
-- internal/api/handlers/handlers.go: `submitJob`, which stores a signing job and puts its envelope
-- into the queue, with the part that internal/stablecoin/service.go and internal/sweep/sweep.go
-- repeat.
pub mod Keys
pub mod Idempotence
pub mod Samples
mod Tests
use vaultkey.Prelude.{ℕ, Bool, true, false, Option, none, some, List, [], ◌∷◌, Bytes, if◌then◌else◌}
use vaultkey.Store.Wallets.{Wallet, get_wallet}
use vaultkey.Worker.Jobs.{
  Status, pending, processing, completed, failed, dead, SigningJob, NewJob, create_signing_job,
}
use vaultkey.Worker.Tables.{World, Signer, wallet_of}
use vaultkey.Queue.Redis.{Job, ListStore, Codec}
use vaultkey.Queue.{Faults, Result, ok, failed as refused, enqueue}

-- The response, by its meaning: 404, 400, 500, 202 with a new job's id, 200 with an old job.
pub data Reply : Type 0 where
  not_found bad_request create_failed enqueue_failed : Reply
  accepted : ℕ → Reply
  existing : ℕ → Status → Reply

-- The part of a request's body that is read; the key is empty where it is missing.
pub record Body : Type 0 where
  pub idempotency_key : Bytes
  pub gasless : Bool
  pub payload : Bytes

pub record Visit : Type 0 where
  pub wallet_fails : Bool
  -- whether the INSERT is refused, and the id that the database generates
  pub insert_fails : Bool
  pub id : ℕ
  pub faults : Faults

-- `job.Status == "completed" || job.Status == "processing"`
unfoldable pub is_taken : Status → Bool
is_taken completed = true
is_taken processing = true
is_taken pending = false
is_taken failed = false
is_taken dead = false

unfoldable pub envelope : ℕ → NewJob → Job
envelope id n = record { id = id; project = n.project; wallet = n.wallet; operation = n.operation }

unfoldable pub enqueue_reply : ℕ → Result (Unit {0}) → Reply
enqueue_reply id (ok u) = accepted id
enqueue_reply id (refused c) = enqueue_failed

-- `if req.IdempotencyKey != "" { … }`
unfoldable pub key_or_null : Bytes → Option Bytes
key_or_null [] = none
key_or_null (c ∷ k) = some (c ∷ k)

unfoldable pub has_payload : Bytes → Bool
has_payload [] = false
has_payload (c ∷ p) = true

unfoldable pub request : ℕ → ℕ → Bytes → Body → NewJob
request project wallet operation b = record {
  project = project;
  wallet = wallet;
  operation = operation;
  payload = b.payload;
  key = key_or_null b.idempotency_key;
  gasless = b.gasless;
}

module _ (redis : ListStore) (codec : Codec) (signer : Signer) where
  abbrev pub Here : Type 0
  Here = World redis.State signer.Env

  unfoldable pub enqueue_job : Visit → NewJob → SigningJob → Here → Reply × Here
  unfolding enqueue_reply
  enqueue_job v n job w =
      let (r, q) = enqueue redis codec v.faults (envelope job.id n) w.queue in
      if is_taken job.status
      then (existing job.id job.status, w)
      else (enqueue_reply job.id r, record w { queue = q })

  -- From `CreateSigningJob` on.
  unfoldable pub create_and_enqueue : Visit → NewJob → Here → Reply × Here
  create_and_enqueue v n w =
      let (job, rows) = create_signing_job v.id n w.jobs in
      if v.insert_fails then (create_failed, w) else enqueue_job v n job (record w { jobs = rows })

  with_body : Visit → ℕ → Bytes → Wallet → Option Body → Here → Reply × Here
  unfolding has_payload
  with_body v project operation wallet none w = (bad_request, w)
  with_body v project operation wallet (some b) w =
      if has_payload b.payload
      then create_and_enqueue v (request project wallet.id operation b) w
      else (bad_request, w)

  with_wallet : Visit → ℕ → Bytes → Option Wallet → Option Body → Here → Reply × Here
  unfolding with_body
  with_wallet v project operation none b w = (not_found, w)
  with_wallet v project operation (some wallet) b w = with_body v project operation wallet b w

  -- `submitJob`; the body is none where it cannot be read.
  pub submit_job : Visit → ℕ → ℕ → Bytes → Option Body → Here → Reply × Here
  unfolding with_wallet
  submit_job v project wallet_id operation b w =
      with_wallet v project operation
        (wallet_of v.wallet_fails (get_wallet wallet_id project (signer.wallets w.env))) b w
