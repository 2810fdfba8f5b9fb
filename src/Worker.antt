-- ===== src/Worker.antt =====
-- internal/worker/worker.go: what one worker does with a job that it has dequeued.
pub mod Jobs
pub mod Tables
pub mod Keeps
pub mod Finality
pub mod Payloads
pub mod Operations
pub mod Sweeps
pub mod Crashes
pub mod Rows
pub mod Effects
pub mod Burial
pub mod Samples
mod Tests
use vaultkey.Prelude.{
  ℕ, suc, ◌+◌, Bool, true, false, ◌||◌, Option, none, some, List, [], ◌∷◌, Bytes, codes, ◌==◌,
  if◌then◌else◌,
}
use vaultkey.Prelude.Int.{ℤ, pos, leb_ℤ}
use vaultkey.Prelude.Assoc.{Table, lookup}
use vaultkey.Store.Wallets.{Wallet, get_wallet}
use vaultkey.Webhook.{Outcome, delivered, interrupted, exhausted, Endpoint, deliver}
use vaultkey.Queue.Redis.{Job, ListStore, Codec}
use vaultkey.Queue.{Faults, acknowledge, move_to_dlq, requeue}
use Jobs.{
  Status, pending, processing, completed, failed, dead, WebhookStatus, webhook_delivered,
  webhook_failed, SigningJob, set_where, get_signing_job, mark_processing, mark_completed,
  mark_failed, mark_dead, mark_webhook,
}
use Tables.{
  fetch_job, fetch_wallet, fetch_project, set_processing, set_completed, refetch_project,
  set_failed, set_dead, write_audit, set_webhook, fetch_cost, upsert_usage, Rejects, Project,
  Payload, Signed, signed, refused, panicked, Done, done, fetch_error, not_in_db, mark_error, Round,
  World, Signer, max_retries_or_3, payload_status, webhook_result, answer_of, wallet_of,
}

module _ (redis : ListStore) (codec : Codec) (signer : Signer) where
  abbrev pub Here : Type 0
  Here = World redis.State signer.Env

  unfoldable pub set_row : Bool → ℕ → (SigningJob → SigningJob) → Here → Here
  set_row true i f w = w
  set_row false i f w = record w { jobs = set_where i f w.jobs }

  unfoldable pub bury : Round → Job → SigningJob → Bytes → Here → Here
  unfolding set_row
  bury r q job reason w =
      let w1 = set_row (r.rejects set_dead) job.id (mark_dead reason) w in
      let s1 = (move_to_dlq redis codec r.faults q reason r.now w1.queue).1 in
      record w1 { queue = (acknowledge redis codec r.faults q s1).1 }

  unfoldable pub retry : Round → Job → SigningJob → Bytes → Here → Here
  unfolding set_row
  retry r q job reason w =
      let w1 = set_row (r.rejects set_failed) job.id (mark_failed reason) w in
      record w1 { queue = (requeue redis codec r.faults q w1.queue).1 }

  -- `handleJobFailure`
  unfoldable pub handle_job_failure : Round → Job → SigningJob → Bytes → Here → Here
  handle_job_failure r q job reason w =
      let project = answer_of (r.rejects refetch_project) (lookup job.project w.projects) in
      if leb_ℤ (max_retries_or_3 project) (pos job.attempts)
      then bury r q job reason w
      else retry r q job reason w

  unfoldable pub post_webhook : Round → Project → SigningJob → Option Bytes → Bytes → Here → Here
  unfolding set_row webhook_result payload_status
  post_webhook r p job result err w =
      let payload : Payload = record {
        job = job.id;
        project = job.project;
        wallet = job.wallet;
        operation = job.operation;
        status = payload_status err job.status;
        result = result;
        error = err;
        timestamp = r.now;
      } in
      let (o, log) =
        deliver r.endpoint r.hex_mac p.webhook_secret (r.encode_payload payload) p.max_retries in
      set_row (r.rejects set_webhook) job.id (mark_webhook (webhook_result o))
        (record w { sent = payload ∷ w.sent })

  -- `deliverWebhook`; a NULL url and an empty one are treated alike.
  unfoldable pub deliver_webhook :
      Round → Bytes → Project → SigningJob → Option Bytes → Bytes → Here → Here
  deliver_webhook r [] p job result err w =
      set_row (r.rejects set_webhook) job.id (mark_webhook webhook_failed) w
  deliver_webhook r (c ∷ url) p job result err w = post_webhook r p job result err w

  record_cost : Rejects → ℕ → Bytes → Option ℤ → Here → Here
  record_cost rejects org operation none w = w
  record_cost rejects org operation (some cost) w =
      if rejects fetch_cost || rejects upsert_usage
      then w
      else record w { usage = (org, operation, cost) ∷ w.usage }

  -- The first step of `settleAndDeliver`: usage is recorded for a completed job of an organization.
  unfoldable pub record_usage : Rejects → Option ℕ → SigningJob → Bytes → Here → Here
  unfolding record_cost
  record_usage rejects none job err w = w
  record_usage rejects (some org) job [] w =
      record_cost rejects org job.operation (w.cost_of job.operation) w
  record_usage rejects (some org) job (c ∷ err) w = w

  -- `dispatchWebhook`
  unfoldable pub dispatch_webhook :
      Round → Project → SigningJob → Option Bytes → Bytes → Here → Here
  dispatch_webhook r p job result err w =
      if p.cloud_managed
      then deliver_webhook r p.webhook_url p job result err (record_usage r.rejects p.org job err w)
      else deliver_webhook r p.webhook_url p job result err w

  unfoldable pub discard : Round → Job → Here → Here
  discard r q w = record w { queue = (acknowledge redis codec r.faults q w.queue).1 }

  -- The end of `processJob`, by what signing gave; nothing follows a panic.
  unfoldable pub finish : Round → Job → SigningJob → Project → Signed → Here → Here
  unfolding set_row discard
  finish r q job p (refused err) w =
      dispatch_webhook r p job none err (handle_job_failure r q job err w)
  finish r q job p (signed result) w =
      let w1 = discard r q (set_row (r.rejects set_completed) job.id (mark_completed result) w) in
      let entry = (job.id, job.operation) ∷ w1.audit in
      dispatch_webhook r p job (some result) []
        (if r.rejects write_audit then w1 else record w1 { audit = entry })
  finish r q job p panicked w = w

  unfoldable pub sign_and_finish : Round → Job → SigningJob → Wallet → Project → Here → Here
  sign_and_finish r q job wallet p w =
      let (answer, env') = signer.sign job wallet w.env in
      finish r q job p answer (record w { env = env' })

  attempt : Round → Job → SigningJob → Wallet → Project → Here → Done × Here
  unfolding set_row
  attempt r q job wallet p w =
      if r.rejects set_processing
      then (mark_error, w)
      else (done, sign_and_finish r q job wallet p (set_row false job.id mark_processing w))

  with_project : Round → Job → SigningJob → Wallet → Option Project → Here → Done × Here
  unfolding attempt
  with_project r q job wallet none w =
      (done, handle_job_failure r q job (codes "project not found") w)
  with_project r q job wallet (some p) w = attempt r q job wallet p w

  with_wallet : Round → Job → SigningJob → Option Wallet → Here → Done × Here
  unfolding with_project
  with_wallet r q job none w =
      (done, handle_job_failure r q job (codes "wallet not found or db error") w)
  with_wallet r q job (some wallet) w =
      with_project r q job wallet
        (answer_of (r.rejects fetch_project) (lookup job.project w.projects)) w

  unfoldable pub open_job : Round → Job → SigningJob → Here → Done × Here
  unfolding with_wallet wallet_of
  open_job r q job w =
      with_wallet r q job
        (wallet_of (r.rejects fetch_wallet)
          (get_wallet job.wallet job.project (signer.wallets w.env)))
        w

  unfoldable pub by_status : Round → Job → SigningJob → Status → Here → Done × Here
  unfolding open_job discard
  by_status r q job completed w = (done, discard r q w)
  by_status r q job dead w = (done, discard r q w)
  by_status r q job pending w = open_job r q job w
  by_status r q job processing w = open_job r q job w
  by_status r q job failed w = open_job r q job w

  with_job : Round → Job → Option SigningJob → Here → Done × Here
  unfolding by_status discard
  with_job r q none w = (not_in_db, discard r q w)
  with_job r q (some job) w = by_status r q job job.status w

  -- `processJob`
  pub process_job : Round → Job → Here → Done × Here
  process_job r q w =
      if r.rejects fetch_job
      then (fetch_error, w)
      else with_job r q (get_signing_job q.id q.project w.jobs) w
