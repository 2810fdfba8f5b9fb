-- ===== src/Sweep/Configs.antt =====
-- internal/storage/sweep.go: the table project_sweep_config, `CreateMasterWallet`, `GetSweepConfig`,
-- `UpdateSweepConfig`, and `CreateWallet` of internal/storage/store.go.
use vaultkey.Prelude.{
  ℕ, Bool, true, false, ◌&&◌, ◌||◌, Option, none, some, List, [], ◌∷◌, Bytes, codes, ◌==◌,
  if◌then◌else◌,
}
use vaultkey.Store.Wallets.{ChainType, same_chain, Wallet, set_wallet, mark_master}
use vaultkey.Stablecoin.Tokens.{is_chain, null_if_blank, same_option}

-- `chain` none is NULL.
pub record SweepConfig : Type 0 where
  pub id : ℕ
  pub project : ℕ
  pub chain_type : ChainType
  pub chain : Option Bytes
  pub master_wallet : ℕ
  pub threshold : Bytes
  pub enabled : Bool

unfoldable pub is_config : ℕ → ChainType → Bytes → SweepConfig → Bool
unfolding is_chain
is_config project ct ch c =
    c.project == project && same_chain c.chain_type ct && is_chain ch c.chain

-- `GetSweepConfig`
unfoldable pub get_sweep_config : ℕ → ChainType → Bytes → List SweepConfig → Option SweepConfig
unfolding is_config
get_sweep_config project ct ch [] = none
get_sweep_config project ct ch (c ∷ cs) =
    let rest = get_sweep_config project ct ch cs in
    if is_config project ct ch c then some c else rest

-- ON CONFLICT (project_id, chain_type, chain_id) DO UPDATE; a NULL is in conflict with nothing.
unfoldable pub clashes : SweepConfig → SweepConfig → Bool
unfolding same_option
clashes new c =
    c.project == new.project
    && same_chain c.chain_type new.chain_type
    && same_option c.chain new.chain

unfoldable pub renewed : SweepConfig → SweepConfig → SweepConfig
renewed new c = record c {
  master_wallet = new.master_wallet;
  threshold = new.threshold;
  enabled = true;
}

-- The row that is stored, and the table.
unfoldable pub put_config : SweepConfig → List SweepConfig → SweepConfig × List SweepConfig
unfolding clashes renewed
put_config new [] = (new, new ∷ [])
put_config new (c ∷ cs) =
    let (stored, rest) = put_config new cs in
    if clashes new c then (renewed new c, renewed new c ∷ cs) else (stored, c ∷ rest)

-- UPDATE … SET dust_threshold, enabled WHERE id AND project_id; false where no row is found.
unfoldable pub update_sweep_config :
    ℕ → ℕ → Bytes → Bool → List SweepConfig → Bool × List SweepConfig
update_sweep_config project i threshold on [] = (false, [])
update_sweep_config project i threshold on (c ∷ cs) =
    let (hit, rest) = update_sweep_config project i threshold on cs in
    if c.id == i && c.project == project
    then (true, record c { threshold = threshold; enabled = on } ∷ cs)
    else (hit, c ∷ rest)

pub record Vault : Type 0 where
  pub wallets : List Wallet
  pub configs : List SweepConfig

-- Which statements fail; the ids are the database's.
pub record Statements : Type 0 where
  pub config_fails : Bool
  pub wallet_fails : Bool
  pub insert_fails : Bool
  pub select_fails : Bool
  pub unmark_fails : Bool
  pub mark_fails : Bool
  pub upsert_fails : Bool
  pub wallet_id : ℕ
  pub config_id : ℕ

unfoldable pub threshold_or_0 : Bytes → Bytes
threshold_or_0 [] = codes "0"
threshold_or_0 (c ∷ s) = c ∷ s

-- The flag of an earlier master wallet is cleared; errors of both statements are dropped.
unfoldable pub unmark_old : Statements → ℕ → Option SweepConfig → List Wallet → List Wallet
unmark_old q new none ws = ws
unmark_old q new (some c) ws =
    if q.select_fails || q.unmark_fails || c.master_wallet == new
    then ws
    else set_wallet c.master_wallet (mark_master false) ws

unfoldable pub config_row : Statements → ℕ → ℕ → ChainType → Bytes → Bytes → SweepConfig
unfolding null_if_blank threshold_or_0
config_row q project wallet ct ch threshold = record {
  id = q.config_id;
  project = project;
  chain_type = ct;
  chain = null_if_blank ch;
  master_wallet = wallet;
  threshold = threshold_or_0 threshold;
  enabled = true;
}

unfoldable pub put_master : Statements → SweepConfig → Vault → Option SweepConfig × Vault
put_master q new v =
    if q.mark_fails
    then (none, v)
    else let marked = record v {
      wallets = set_wallet new.master_wallet (mark_master true) v.wallets;
    } in
      let (stored, cs) = put_config new v.configs in
      if q.upsert_fails then (none, marked) else (some stored, record marked { configs = cs })

-- `CreateMasterWallet`; none is an error.
unfoldable pub create_master_wallet :
    Statements → ℕ → ℕ → ChainType → Bytes → Bytes → Vault → Option SweepConfig × Vault
unfolding unmark_old put_master config_row
create_master_wallet q project wallet ct ch threshold v =
    let ws = unmark_old q wallet (get_sweep_config project ct ch v.configs) v.wallets in
    put_master q (config_row q project wallet ct ch threshold) (record v { wallets = ws })
