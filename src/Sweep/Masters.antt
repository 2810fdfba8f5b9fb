-- ===== src/Sweep/Masters.antt =====
-- internal/sweep/sweep.go: `ProvisionMasterWallet`. The key pair comes from the wallet service.
use vaultkey.Prelude.{ℕ, false, Option, none, some, ◌∷◌, Bytes, codes, if◌then◌else◌}
use vaultkey.Store.Wallets.{ChainType, Wallet, get_wallet}
use vaultkey.Sweep.Configs.{SweepConfig, get_sweep_config, Vault, Statements, create_master_wallet}
use vaultkey.Sweep.{
  config_query, master_missing, key_generation, wallet_insert, config_insert, Try, passed, failed,
  validate_chain,
}

-- An address and its encrypted key.
pub record Generated : Type 0 where
  pub address : Bytes
  pub key : Bytes

unfoldable pub master_row : Statements → ℕ → ChainType → Generated → Wallet
master_row q project ct g = record {
  id = q.wallet_id;
  project = project;
  user_id = codes "_master";
  chain_type = ct;
  address = g.address;
  key = g.key;
  is_master = false;
  swept = false;
}

unfoldable pub or_config_error :
    Wallet → Option SweepConfig × Vault → Try (SweepConfig × Wallet) × Vault
or_config_error w (none, v) = (failed config_insert, v)
or_config_error w (some c, v) = (passed (c, w), v)

-- A new wallet, and the configuration that names it.
unfoldable pub fresh_master :
    Statements
    → ℕ
    → ChainType
    → Bytes
    → Bytes
    → Option Generated
    → Vault
    → Try (SweepConfig × Wallet) × Vault
unfolding master_row or_config_error
fresh_master q project ct ch threshold none v = (failed key_generation, v)
fresh_master q project ct ch threshold (some g) v =
    let w = master_row q project ct g in
    if q.insert_fails
    then (failed wallet_insert, v)
    else or_config_error w
        (create_master_wallet q project w.id ct ch threshold (record v { wallets = w ∷ v.wallets }))

unfoldable pub with_master : SweepConfig → Option Wallet → Try (SweepConfig × Wallet)
with_master c none = failed master_missing
with_master c (some w) = passed (c, w)

unfoldable pub by_config :
    Statements
    → ℕ
    → ChainType
    → Bytes
    → Bytes
    → Option Generated
    → Option SweepConfig
    → Vault
    → Try (SweepConfig × Wallet) × Vault
unfolding with_master fresh_master
by_config q project ct ch threshold g (some c) v = (
  with_master c (if q.wallet_fails then none else get_wallet c.master_wallet project v.wallets),
  v,
)
by_config q project ct ch threshold g none v = fresh_master q project ct ch threshold g v

unfoldable pub provision_valid :
    Statements
    → ℕ
    → ChainType
    → Bytes
    → Bytes
    → Option Generated
    → Try (Unit {0})
    → Vault
    → Try (SweepConfig × Wallet) × Vault
unfolding by_config
provision_valid q project ct ch threshold g (failed why) v = (failed why, v)
provision_valid q project ct ch threshold g (passed u) v =
    if q.config_fails
    then (failed config_query, v)
    else by_config q project ct ch threshold g (get_sweep_config project ct ch v.configs) v

-- `ProvisionMasterWallet`
unfoldable pub provision_master_wallet :
    Statements
    → ℕ
    → ChainType
    → Bytes
    → Bytes
    → Option Generated
    → Vault
    → Try (SweepConfig × Wallet) × Vault
unfolding provision_valid
provision_master_wallet q project ct ch threshold g v =
    provision_valid q project ct ch threshold g (validate_chain ct ch) v
