-- ===== src/Stablecoin/Submission.antt =====
-- internal/stablecoin/service.go: `Transfer`, from its checks to the queue.
use vaultkey.Prelude.{List, Bytes}
use vaultkey.Store.Wallets.{Relayer}
use vaultkey.Queue.Redis.{ListStore, Codec}
use vaultkey.Worker.Tables.{World, Signer}
use vaultkey.Worker.Jobs.{NewJob}
use vaultkey.Submit.{Reply, Visit, create_and_enqueue}
use vaultkey.Stablecoin.Cache.{Cache}
use vaultkey.Stablecoin.Registry.{EntryCodec}
use vaultkey.Stablecoin.Desk.{TransferRequest, Refused, Outcome, fine, stops}
use vaultkey.Stablecoin.Transfer.{Here, prepared}
use vaultkey.Stablecoin.Payloads.{Market}

-- An error, or what creating and enqueuing the job came to.
pub data Answer : Type 0 where
  turned_down : Refused → Answer
  submitted : Reply → Answer

unfoldable pub transfer_job : TransferRequest → Bytes × Bytes → NewJob
transfer_job q (operation, payload) = record {
  project = q.project;
  wallet = q.wallet;
  operation = operation;
  payload = payload;
  key = q.key;
  gasless = q.gasless;
}

module _ (redis : ListStore) (queue_codec : Codec) (signer : Signer) (cache : Cache)
    (codec : EntryCodec) (to_lower : Bytes → Bytes) (m : Market) where
  -- The registry's stores, and what is shared with the worker.
  abbrev pub Desk : Type 0
  Desk = Here cache codec to_lower m × World redis.State signer.Env

  unfoldable pub submit : Visit → TransferRequest → Outcome (Bytes × Bytes) → Desk → Answer × Desk
  unfolding transfer_job
  submit v q (stops why) d = (turned_down why, d)
  submit v q (fine made) (stores, w) =
      let (r, w') = create_and_enqueue redis queue_codec signer v (transfer_job q made) w in
      (submitted r, (stores, w'))

  -- `Transfer`
  unfoldable pub transfer : Visit → TransferRequest → List Relayer → Desk → Answer × Desk
  unfolding submit
  transfer v q relayers (stores, w) =
      let (made, stores') =
        prepared cache codec to_lower m q (signer.wallets w.env) relayers stores in
      submit v q made (stores', w)
