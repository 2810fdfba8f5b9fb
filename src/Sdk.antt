-- ===== src/Sdk.antt =====
-- internal/api/handlers/sdk_handler.go: operations that are paid for with credits.
pub mod Billing
pub mod Cap
pub mod Wallets
pub mod Charges
mod Tests
use vaultkey.Prelude.{
  ℕ, String, Bool, true, false, not, ◌&&◌, ◌||◌, Option, none, some, List, [], ◌∷◌, Bytes, bytes_eq,
  codes, map, if◌then◌else◌,
}
use vaultkey.Prelude.Int.{ℤ, pos, leb_ℤ}
use vaultkey.Access.{is_empty}
use vaultkey.Store.Wallets.{ChainType, evm, solana, Wallet}
use vaultkey.Credits.Tables.{
  Accounts, Faults, Error, insufficient_credits, operation_not_found, Result, ok, err,
}
use vaultkey.Credits.{OperationCost, DebitParams, DebitResult, debit}
use vaultkey.Credits.Limits.{Overrides, WalletRow, Inputs, WalletLimits, resolve_wallet_limits}

-- One call of `Debit`: the statements that fail, and the id and time of its ledger row.
pub record DebitCall : Type 0 where
  pub faults : Faults
  pub ledger_id : ℕ
  pub time : ℕ

pub data SdkReply (R : Type 0) : Type 0 where
  -- a status from the checks or the debit
  declined : ℕ → SdkReply R
  -- the reply of the handler that follows
  forwarded : R → SdkReply R

-- The metadata names the project, the wallet and the path, not the operation.
unfoldable pub debit_params : ℕ → String → DebitParams
debit_params org operation = record { org = org; operation = operation; ref_id = ""; tag = none }

unfoldable pub debit_status : Error → ℕ
debit_status insufficient_credits = 402
debit_status _ = 500

module _ {R W : Type 0} where
  unfoldable pub forward : R × W → Accounts → SdkReply R × Accounts × W
  forward (r, w) s = (forwarded r, s, w)

  unfoldable pub after_debit :
      Result DebitResult × Accounts → (W → R × W) → W → SdkReply R × Accounts × W
  unfolding debit_status forward
  after_debit (err e, s) inner w = (declined (debit_status e), s, w)
  after_debit (ok r, s) inner w = forward (inner w) s

  -- `debit`, and the handler behind it.
  unfoldable pub billed :
      DebitCall
      → List OperationCost
      → Option ℕ
      → String
      → (W → R × W)
      → Accounts
      → W
      → SdkReply R × Accounts × W
  unfolding after_debit debit_params
  billed c costs none operation inner s w = (declined 500, s, w)
  billed c costs (some org) operation inner s w =
      after_debit (debit c.faults costs (debit_params org operation) c.ledger_id c.time s) inner w

-- `TriggerSweep` and `StablecoinTransfer`: the operation that is charged, by the chain type.
unfoldable pub sweep_charge : Bytes → String
sweep_charge ct = if bytes_eq ct (codes "solana") then "sweep_solana" else "sweep_evm"

unfoldable pub transfer_charge : Bytes → String
transfer_charge ct =
    if bytes_eq ct (codes "solana") then "stablecoin_transfer_solana" else "stablecoin_transfer_evm"

-- The other operations. `peeked` is the chain type of the body, none where it does not decode, and
-- `chain_type` that of the path.
pub data Operation : Type 0 where
  get_wallet_op list_user_wallets get_job get_balance_op broadcast_op stablecoin_balance : Operation
  sign_evm_transaction sign_evm_message sign_solana_transaction sign_solana_message : Operation
  trigger_sweep_op : (peeked : Option Bytes) → Operation
  stablecoin_transfer : (chain_type : Bytes) → Operation

pub data Charge : Type 0 where
  free : Charge
  costs_of : String → Charge
  -- the body does not decode
  unreadable : Charge

unfoldable pub by_peek : Option Bytes → Charge
by_peek none = unreadable
by_peek (some ct) = costs_of (sweep_charge ct)

unfoldable pub charge_of : Operation → Charge
unfolding by_peek
charge_of sign_evm_transaction = costs_of "sign_tx_evm"
charge_of sign_evm_message = costs_of "sign_msg_evm"
charge_of sign_solana_transaction = costs_of "sign_tx_solana"
charge_of sign_solana_message = costs_of "sign_msg_solana"
charge_of (trigger_sweep_op peeked) = by_peek peeked
charge_of (stablecoin_transfer ct) = costs_of (transfer_charge ct)
charge_of _ = free

module _ {R W : Type 0} where
  unfoldable pub serve_charge :
      DebitCall
      → List OperationCost
      → Option ℕ
      → Charge
      → (W → R × W)
      → Accounts
      → W
      → SdkReply R × Accounts × W
  unfolding billed
  serve_charge c costs org free inner s w = forward (inner w) s
  serve_charge c costs org unreadable inner s w = (declined 400, s, w)
  serve_charge c costs org (costs_of operation) inner s w = billed c costs org operation inner s w

  -- The handlers other than `CreateWallet`; `inner` is the handler that each of them calls.
  unfoldable pub serve :
      DebitCall
      → List OperationCost
      → Option ℕ
      → Operation
      → (W → R × W)
      → Accounts
      → W
      → SdkReply R × Accounts × W
  unfolding serve_charge charge_of
  serve c costs org operation inner s w = serve_charge c costs org (charge_of operation) inner s w
