-- ===== src/Submit/Tests.antt =====
-- Two requests with one key, on a project with one wallet.
use vaultkey.Prelude.{◌≡◌, refl, false, some, List, [], ◌∷◌, Bytes, codes, All, bytes_eq}
use vaultkey.Store.Wallets.{get_wallet}
use vaultkey.Queue.Redis.{in_memory}
use vaultkey.Queue.{enqueue}
use vaultkey.Worker.Jobs.{create_signing_job, conflicting, find_key, is_key}
use vaultkey.Worker.Tables.{wallet_of}
use vaultkey.Worker.Samples.{tagged, envelope, quiet}
use vaultkey.Submit.Samples.{no_signer, empty_world, visit}
use vaultkey.Submit.Idempotence.{Names, Event, submits, works, replies, replies-name}
use vaultkey.Submit.{
  accepted, Body, key_or_null, has_payload, request, submit_job, create_and_enqueue, enqueue_job,
  is_taken,
}

abbrev body : Body
body = record { idempotency_key = codes "once"; gasless = false; payload = codes "{}" }

abbrev evm_tx : Bytes
evm_tx = codes "sign_tx_evm"

abbrev afterwards : List (Event in_memory tagged no_signer)
afterwards = works quiet envelope ∷ submits visit 2 3 evm_tx body ∷ []

replies-name_example : All (Names 1) (
    replies in_memory tagged no_signer 2
      (codes "once")
      afterwards
      (submit_job in_memory tagged no_signer visit 2 3 evm_tx (some body) empty_world).1)
unfolding submit_job create_and_enqueue create_signing_job conflicting find_key is_key bytes_eq
    enqueue_job is_taken enqueue get_wallet key_or_null has_payload request wallet_of
replies-name_example =
    replies-name in_memory tagged no_signer visit 2 3 1 evm_tx body afterwards empty_world tt
      accepted_first
  where
    accepted_first :
        (submit_job in_memory tagged no_signer visit 2 3 evm_tx (some body) empty_world).0
        ≡ accepted 1
    accepted_first = refl
