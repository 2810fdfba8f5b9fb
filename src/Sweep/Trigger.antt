-- ===== src/Sweep/Trigger.antt =====
-- internal/sweep/sweep.go: `TriggerSweep`. `%q` of fmt is a parameter.
use vaultkey.Prelude.{
  ℕ, Bool, true, false, not, Option, none, some, List, [], ◌∷◌, ◌++◌, Bytes, codes, bytes_eq, leb,
  if◌then◌else◌,
}
use vaultkey.Amount.{set_string}
use vaultkey.Amount.Decimal.{to_decimal}
use vaultkey.Store.Wallets.{ChainType, evm, solana, Wallet, get_wallet, Relayer, get_relayer}
use vaultkey.Queue.Redis.{ListStore, Codec}
use vaultkey.Relayer.Outside.{Nodes, big_hex}
use vaultkey.Relayer.Evm.{sufficient}
use vaultkey.Relayer.Solana.{min_lamports}
use vaultkey.Worker.Tables.{World, Signer}
use vaultkey.Worker.Jobs.{NewJob}
use vaultkey.Submit.{Reply, Visit, create_and_enqueue}
use vaultkey.Sweep.Configs.{SweepConfig, get_sweep_config}
use vaultkey.Sweep.{
  Reason, wallet_query, wallet_missing, is_master_wallet, config_query, not_configured, is_disabled,
  relayer_query, no_relayer, relayer_balance, relayer_low, master_missing, balance_query,
  below_dust, Try, passed, failed, chain_type_of, validate_chain,
}

infixl 5 ◌>>=◌
unfoldable pub ◌>>=◌ : {A B : Type 0} → Try A → (A → Try B) → Try B
◌>>=◌ (passed a) f = f a
◌>>=◌ (failed why) f = failed why

unfoldable pub need : {A : Type 0} → Reason → Option A → Try A
need why none = failed why
need why (some a) = passed a

unfoldable pub demand : Reason → Bool → Try (Unit {0})
demand why true = passed tt
demand why false = failed why

-- A query, which may fail, and its row.
unfoldable pub fetched : {A : Type 0} → Reason → Reason → Bool → Option A → Try A
unfolding need
fetched query missing true row = failed query
fetched query missing false row = need missing row

-- `SweepRequest`
pub record SweepRequest : Type 0 where
  pub project : ℕ
  pub wallet : ℕ
  pub chain_type : Bytes
  pub chain_id : Bytes
  pub key : Option Bytes

-- Which queries fail, the nodes, what `SetString` leaves of a text that is no number, `%q`.
pub record Outside : Type 0 where
  pub wallet_fails : Bool
  pub config_fails : Bool
  pub relayer_fails : Bool
  pub master_fails : Bool
  pub nodes : Nodes
  pub garbage : Bytes → ℕ
  pub quoted : Bytes → Bytes

-- `SetString(s, 10)`
unfoldable pub decimal_value : (Bytes → ℕ) → Bytes → ℕ
decimal_value garbage s = elim (set_string s) [ none ↦ garbage s | some n ↦ n ]

unfoldable pub is_healthy_evm : (Bytes → ℕ) → Option Bytes → Try (Unit {0})
unfolding demand
is_healthy_evm garbage none = failed relayer_balance
is_healthy_evm garbage (some balance) = demand relayer_low (sufficient garbage balance)

unfoldable pub is_healthy_solana : Option ℕ → Try (Unit {0})
unfolding demand
is_healthy_solana none = failed relayer_balance
is_healthy_solana (some lamports) = demand relayer_low (leb min_lamports lamports)

unfoldable pub decimal_text : Option ℕ → Option Bytes
decimal_text none = none
decimal_text (some n) = some (to_decimal n)

-- `threshold == "0" || threshold == ""`
unfoldable pub no_threshold : Bytes → Bool
no_threshold [] = true
no_threshold (c ∷ s) = bytes_eq (c ∷ s) (codes "0")

-- `buildSweepPayload`
unfoldable pub sweep_json : (Bytes → Bytes) → Bytes → Bytes → ChainType → Bytes → Bytes
sweep_json quoted to balance evm ch =
    codes "{\"to\":"
    ++ (quoted to
        ++ (codes ",\"value\":"
            ++ (quoted balance
                ++ (codes ",\"data\":\"0x\",\"chain_id\":"
                    ++ (quoted ch ++ codes ",\"sweep\":true}")))))
sweep_json quoted to balance solana ch =
    codes "{\"to\":"
    ++ (quoted to ++ (codes ",\"amount\":" ++ (balance ++ codes ",\"sweep\":true}")))

-- `"sweep_" + req.ChainType`
unfoldable pub sweep_operation : ChainType → Bytes
sweep_operation evm = codes "sweep_evm"
sweep_operation solana = codes "sweep_solana"

unfoldable pub sweep_job : (Bytes → Bytes) → SweepRequest → ChainType → Wallet → Bytes → NewJob
unfolding sweep_json sweep_operation
sweep_job quoted q ct master balance = record {
  project = q.project;
  wallet = q.wallet;
  operation = sweep_operation ct;
  payload = sweep_json quoted master.address balance ct q.chain_id;
  key = q.key;
  gasless = true;
}

module _ (x : Outside) where
  -- `assertRelayerHealthy`
  unfoldable pub assert_healthy : ChainType → Bytes → Relayer → Try (Unit {0})
  unfolding is_healthy_evm is_healthy_solana
  assert_healthy evm ch r = is_healthy_evm x.garbage (x.nodes.evm_balance ch r.address)
  assert_healthy solana ch r = is_healthy_solana (x.nodes.solana_balance r.address)

  -- `fetchBalance`
  unfoldable pub fetch_balance : ChainType → Bytes → Bytes → Option Bytes
  unfolding decimal_text
  fetch_balance evm ch address = x.nodes.evm_balance ch address
  fetch_balance solana ch address = decimal_text (x.nodes.solana_balance address)

  -- The number that a text of a balance or a threshold stands for.
  unfoldable pub base_units : ChainType → Bytes → ℕ
  unfolding decimal_value
  base_units evm s = big_hex x.garbage s
  base_units solana s = decimal_value x.garbage s

  -- `assertAboveDustThreshold`
  unfoldable pub above_dust : ChainType → Bytes → Bytes → Bool
  unfolding no_threshold base_units
  above_dust ct threshold balance =
      if no_threshold threshold then true else leb (base_units ct threshold) (base_units ct balance)

  -- The checks of `TriggerSweep`, up to the payload: the chain type, the master wallet, the balance.
  unfoldable pub checked :
      SweepRequest
      → List Wallet
      → List SweepConfig
      → List Relayer
      → Try (ChainType × Wallet × Bytes)
  unfolding chain_type_of validate_chain fetched demand need assert_healthy fetch_balance above_dust
  checked q ws cs rs = do
    ct ← chain_type_of q.chain_type
    _ ← validate_chain ct q.chain_id
    wallet ← fetched wallet_query wallet_missing x.wallet_fails (get_wallet q.wallet q.project ws)
    _ ← demand is_master_wallet (not wallet.is_master)
    c ←
        fetched config_query not_configured x.config_fails
          (get_sweep_config q.project ct q.chain_id cs)
    _ ← demand is_disabled c.enabled
    r ← fetched relayer_query no_relayer x.relayer_fails (get_relayer q.project ct q.chain_id rs)
    _ ← assert_healthy ct q.chain_id r
    master ←
        fetched master_missing master_missing x.master_fails
          (get_wallet c.master_wallet q.project ws)
    balance ← need balance_query (fetch_balance ct q.chain_id wallet.address)
    _ ← demand below_dust (above_dust ct c.threshold balance)
    passed (ct, master, balance)

-- An error, or what creating and enqueuing the job came to.
pub data SweepAnswer : Type 0 where
  declined : Reason → SweepAnswer
  submitted : Reply → SweepAnswer

module _ (redis : ListStore) (codec : Codec) (signer : Signer) (x : Outside) where
  abbrev pub Here : Type 0
  Here = World redis.State signer.Env

  unfoldable pub submit_sweep :
      Visit → SweepRequest → Try (ChainType × Wallet × Bytes) → Here → SweepAnswer × Here
  unfolding sweep_job
  submit_sweep v q (failed why) w = (declined why, w)
  submit_sweep v q (passed (ct, master, balance)) w =
      let (r, w') =
        create_and_enqueue redis codec signer v (sweep_job x.quoted q ct master balance) w in
      (submitted r, w')

  -- `TriggerSweep`
  unfoldable pub trigger_sweep :
      Visit → SweepRequest → List SweepConfig → List Relayer → Here → SweepAnswer × Here
  unfolding checked submit_sweep
  trigger_sweep v q cs rs w = submit_sweep v q (checked x q (signer.wallets w.env) cs rs) w
