-- ===== src/Sweep/Tests.antt =====
-- A project that provisions a master wallet twice, and a sweep to it.
use vaultkey.Queue.{enqueue}
use vaultkey.Worker.Jobs.{create_signing_job, conflicting}
use vaultkey.Relayer.Evm.{sufficient}
use vaultkey.Prelude.{◌≡◌, refl, true, false, none, some, [], ◌∷◌, codes, bytes_eq}
use vaultkey.Store.Wallets.{evm, Wallet, get_wallet, set_wallet, mark_master, get_relayer}
use vaultkey.Queue.Redis.{in_memory}
use vaultkey.Relayer.Samples.{user_wallet, nodes, evm_relayer}
use vaultkey.Worker.Tables.{Signer, refused}
use vaultkey.Worker.Samples.{tagged}
use vaultkey.Submit.Samples.{empty_world, visit}
use vaultkey.Sweep.Configs.{
  Vault, Statements, config_row, get_sweep_config, create_master_wallet, put_config,
}
use vaultkey.Sweep.Masters.{Generated, master_row, provision_master_wallet}
use vaultkey.Sweep.Provisioning.{provision-again}
use vaultkey.Sweep.Trigger.{SweepRequest, Outside, submitted, trigger_sweep, ◌>>=◌}
use vaultkey.Submit.{accepted, create_and_enqueue, enqueue_job, is_taken}
use vaultkey.Sweep.{passed, validate_chain}
use vaultkey.Sweep.Checks.{Ending, trigger_sweep-Ending}

abbrev statements : Statements
statements = record {
  config_fails = false;
  wallet_fails = false;
  insert_fails = false;
  select_fails = false;
  unmark_fails = false;
  mark_fails = false;
  upsert_fails = false;
  wallet_id = 20;
  config_id = 30;
}

abbrev key_pair : Generated
key_pair = record { address = codes "0xee"; key = codes "k20" }

abbrev vault : Vault
vault = record { wallets = user_wallet ∷ []; configs = [] }

abbrev provisioned : Vault
provisioned = record {
  wallets = record (master_row statements 2 evm key_pair) { is_master = true } ∷ user_wallet ∷ [];
  configs = config_row statements 2 20 evm (codes "137") (codes "0x1") ∷ [];
}

provision-again_example :
    (w' : Wallet) × (provision_master_wallet statements 2 evm (codes "137") [] none provisioned
      ≡ (passed (config_row statements 2 20 evm (codes "137") (codes "0x1"), w'), provisioned))
    × (w'.id ≡ 20)
    × (w'.address ≡ codes "0xee")
    × (w'.key ≡ codes "k20")
unfolding provision_master_wallet validate_chain bytes_eq get_sweep_config create_master_wallet
    put_config set_wallet mark_master
provision-again_example =
    provision-again statements statements 2 evm (codes "137") (codes "0x1") [] (some key_pair) none
      vault provisioned (config_row statements 2 20 evm (codes "137") (codes "0x1"))
      (master_row statements 2 evm key_pair) refl refl refl

abbrev keeper : Signer
keeper = record {
  Env = Unit {0};
  wallets = λ e. provisioned.wallets;
  sign = λ job wallet e. (refused (codes "no key"), e);
}

abbrev outside : Outside
outside = record {
  wallet_fails = false;
  config_fails = false;
  relayer_fails = false;
  master_fails = false;
  nodes = nodes;
  garbage = λ s. 0;
  quoted = λ s. s;
}

abbrev sweep_request : SweepRequest
sweep_request = record {
  project = 2;
  wallet = 3;
  chain_type = codes "evm";
  chain_id = codes "137";
  key = none;
}

trigger_sweep-Ending_example :
    Ending in_memory tagged keeper outside visit sweep_request provisioned.configs
      (evm_relayer ∷ [])
      empty_world
      (trigger_sweep in_memory tagged keeper outside visit sweep_request provisioned.configs
        (evm_relayer ∷ [])
        empty_world)
trigger_sweep-Ending_example =
    trigger_sweep-Ending in_memory tagged keeper outside visit sweep_request provisioned.configs
      (evm_relayer ∷ []) empty_world

sweep_reaches_queue :
    (trigger_sweep in_memory tagged keeper outside visit sweep_request provisioned.configs
      (evm_relayer ∷ [])
      empty_world).0
    ≡ submitted (accepted 1)
unfolding trigger_sweep ◌>>=◌ bytes_eq get_wallet master_row get_sweep_config config_row get_relayer
    sufficient create_and_enqueue enqueue_job is_taken create_signing_job conflicting enqueue
sweep_reaches_queue = refl
