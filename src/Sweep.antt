-- ===== src/Sweep.antt =====
-- internal/sweep/sweep.go: master wallets, and the checks before a sweep job.
pub mod Configs
pub mod Masters
pub mod Provisioning
pub mod Trigger
pub mod Checks
mod Tests
use vaultkey.Prelude.{
  ℕ, Bool, true, false, not, ◌&&◌, ◌||◌, Option, none, some, List, [], ◌∷◌, ◌++◌, Bytes, codes,
  bytes_eq, leb, ◌==◌, if◌then◌else◌,
}
use vaultkey.Store.Wallets.{ChainType, evm, solana}

pub data Reason : Type 0 where
  no_chain_id blocked_chain unknown_chain : Reason
  config_query not_configured is_disabled : Reason
  wallet_query wallet_missing is_master_wallet master_missing : Reason
  relayer_query no_relayer relayer_balance relayer_low : Reason
  balance_query below_dust : Reason
  key_generation wallet_insert config_insert : Reason

pub data Try (A : Type 0) : Type 0 where
  passed : A → Try A
  failed : Reason → Try A

unfoldable pub chain_type_of : Bytes → Try ChainType
chain_type_of s =
    if bytes_eq s (codes "evm")
    then passed evm
    else if bytes_eq s (codes "solana")
    then passed solana
    else failed unknown_chain

-- `validateChain` on a chain type that is known: `blockedEVMChains` has the one entry "1".
unfoldable pub validate_chain : ChainType → Bytes → Try (Unit {0})
validate_chain solana ch = passed tt
validate_chain evm [] = failed no_chain_id
validate_chain evm (c ∷ s) =
    if bytes_eq (c ∷ s) (codes "1") then failed blocked_chain else passed tt
