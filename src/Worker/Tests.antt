-- ===== src/Worker/Tests.antt =====
-- A worker over lists in memory: with a signer that refuses, one that panics, and the real one.
use vaultkey.Prelude.{◌≡◌, refl, false, true, none, some, [], ◌∷◌, codes, bytes_eq}
use vaultkey.Prelude.Int.{pos}
use vaultkey.Queue.Redis.{Lists, in_memory}
use vaultkey.Worker.Jobs.{SigningJob, pending, find_job, get_signing_job, is_final, dead}
use vaultkey.Worker.Tables.{World, Signer, Project, panicked, refused}
use vaultkey.Store.Wallets.{get_wallet}
use vaultkey.Nonce.Redis.{in_memory as counters}
use vaultkey.Relayer.Samples.{user_wallet, weather, signing, ready, transfer, payment}
use vaultkey.Worker.Payloads.{Texts}
use vaultkey.Worker.Operations.{sign}
use vaultkey.Worker.Sweeps.{Sweeping, sign-Sweeping}
use vaultkey.Worker.Burial.{rounds, rounds-dead}
use vaultkey.Worker.Samples.{tagged, signed_job, envelope, refuses, quiet}
use vaultkey.Worker.{process_job}
use vaultkey.Worker.Finality.{process_job-final}

abbrev after_signing : World Lists (Unit {0})
after_signing = record {
  jobs = signed_job ∷ [];
  projects = [];
  cost_of = λ op. some (pos 1);
  queue = record { jobs = []; processing = (1 ∷ 2 ∷ 3 ∷ codes "sign_msg_evm") ∷ []; dlq = [] };
  usage = [];
  audit = [];
  sent = [];
  env = tt;
}

process_job-final_example :
    find_job 1 (process_job in_memory tagged refuses quiet envelope after_signing).1.jobs
    ≡ some signed_job
unfolding find_job is_final
process_job-final_example =
    process_job-final in_memory tagged refuses quiet envelope after_signing 1 signed_job refl refl

abbrev waiting_job : SigningJob
waiting_job = record signed_job { status = pending; attempts = 0; result = none }

abbrev panics : Signer
panics = record {
  Env = Unit {0};
  wallets = λ e. user_wallet ∷ [];
  sign = λ job wallet e. (panicked, e);
}

abbrev project_2 : Project
project_2 = record {
  webhook_url = [];
  webhook_secret = [];
  max_retries = pos 3;
  cloud_managed = false;
  org = none;
}

abbrev before_panic : World Lists (Unit {0})
before_panic = record after_signing { jobs = waiting_job ∷ []; projects = (2, project_2) ∷ [] }

-- Payloads that every text stands for.
abbrev texts : Texts
texts = record {
  evm_tx = λ t. none;
  message = λ t. some t;
  evm_relay = λ t. some transfer;
  solana_relay = λ t. some payment;
  sweep_evm = λ t. some (record { to = t; value = codes "0x2"; chain_id = codes "137" });
  sweep_solana = λ t. none;
  result_json = λ r. r.tx_hash;
  scan_int = λ t. some (pos 137);
  scan_hex = λ t. t;
  error_text = λ f. codes "error";
}

abbrev sweep_job : SigningJob
sweep_job = record waiting_job {
  operation = codes "sweep_evm";
  payload = codes "0xdd";
  gasless = true;
}

sign-Sweeping_example :
    Sweeping counters signing texts weather 2 user_wallet
      (record { to = codes "0xdd"; value = codes "0x2"; chain_id = codes "137" })
      (pos 137)
      ready
      (sign counters signing texts weather sweep_job user_wallet ready)
unfolding bytes_eq
sign-Sweeping_example =
    sign-Sweeping counters signing texts weather sweep_job user_wallet
      (record { to = codes "0xdd"; value = codes "0x2"; chain_id = codes "137" }) (pos 137) ready
      refl refl refl

abbrev denies : Signer
denies = record panics { sign = λ job wallet e. (refused (codes "no key"), e) }

rounds-dead_example :
    (row : SigningJob) × (find_job 1
        (rounds in_memory tagged denies quiet envelope 4 before_panic).jobs
      ≡ some row)
    × (row.status ≡ dead)
unfolding get_signing_job find_job is_final get_wallet
rounds-dead_example =
    rounds-dead in_memory tagged denies quiet envelope project_2 3 3 0 waiting_job before_panic
      (λ x. refl) refl (λ e. (user_wallet, refl)) (λ j u e. (codes "no key", refl)) refl refl refl
      refl refl
