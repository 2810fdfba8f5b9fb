-- ===== src/Stablecoin/Transfer.antt =====
-- internal/stablecoin/service.go: `Transfer` and its checks, in the order of the code.
use vaultkey.Prelude.{
  ℕ, Bool, true, false, not, ◌||◌, List, [], Bytes, codes, ltb, leb, if◌then◌else◌,
}
use vaultkey.Amount.{parse_amount}
use vaultkey.Store.Wallets.{
  ChainType, evm, solana, same_chain, Wallet, get_wallet, Relayer, get_relayer,
}
use vaultkey.Relayer.Outside.{trim_0x}
use vaultkey.Relayer.Evm.{sufficient}
use vaultkey.Relayer.Solana.{min_lamports}
use vaultkey.Stablecoin.Cache.{Cache}
use vaultkey.Stablecoin.Registry.{
  Entry, EntryCodec, Reply, entry, Call, parse_token, Stores, resolve,
}
use vaultkey.Stablecoin.Abi.{encode_transfer}
use vaultkey.Stablecoin.Desk.{
  TransferRequest, bad_token, bad_chain_type, needs_gasless, bad_recipient, wallet_query,
  wallet_missing, wrong_chain, master_wallet, registry, relayer_query, no_relayer, relayer_balance,
  relayer_low, balance_query, zero_balance, short_balance, bad_calldata, bad_chain_id, Outcome,
  fine, stops, pure, stop, need, demand, ◌>>=◌, ◌>>◌,
}
use vaultkey.Stablecoin.Payloads.{
  chain_of, is_recipient, is_evm, Market, meta_of, token_payload, erc20_payload, balance_call,
  read_balance, amount_of,
}

module _ (cache : Cache) (codec : EntryCodec) (to_lower : Bytes → Bytes) (m : Market) where
  abbrev pub Here : Type 0
  Here = Stores cache codec to_lower

  unfoldable pub as_step : Reply × Here → Outcome Entry × Here
  as_step (entry e, w) = (fine e, w)
  as_step (other, w) = (stops (registry other), w)

  -- Solana entries have no chain id.
  unfoldable pub lookup_entry : Call → Bytes → ChainType → Bytes → Here → Outcome Entry × Here
  unfolding as_step
  lookup_entry c token evm chain w = as_step (resolve cache codec to_lower c token evm chain w)
  lookup_entry c token solana chain w = as_step (resolve cache codec to_lower c token solana [] w)

  unfoldable pub amount_step : Bytes → ℕ → Here → Outcome ℕ × Here
  unfolding amount_of
  amount_step text decimals w = (amount_of (parse_amount text decimals), w)

  unfoldable pub find_wallet : ℕ → ℕ → List Wallet → Here → Outcome Wallet × Here
  unfolding need
  find_wallet wallet project ws =
      if m.wallet_fails
      then stop wallet_query
      else need wallet_missing (get_wallet wallet project ws)

  -- The balance check of `assertRelayerHealthy`
  unfoldable pub is_healthy : ChainType → Bytes → Bytes → Here → Outcome (Unit {0}) × Here
  unfolding need demand
  is_healthy evm chain address = do
    balance ← need relayer_balance (m.nodes.evm_balance chain address)
    demand relayer_low (sufficient m.garbage balance)
  is_healthy solana chain address = do
    lamports ← need relayer_balance (m.nodes.solana_balance address)
    demand relayer_low (leb min_lamports lamports)

  -- `assertRelayerConfigured` and `assertRelayerHealthy`
  unfoldable pub relayer_step :
      ℕ → ChainType → Bytes → List Relayer → Here → Outcome (Unit {0}) × Here
  unfolding need is_healthy
  relayer_step project ct chain rs = do
    (if m.relayer_fails
        then stop relayer_query
        else need no_relayer (get_relayer project ct chain rs))
    r ←
        (if m.recheck_fails
          then stop no_relayer
          else need no_relayer (get_relayer project ct chain rs))
    is_healthy ct chain r.address

  unfoldable pub relayer_if :
      Bool → ℕ → ChainType → Bytes → List Relayer → Here → Outcome (Unit {0}) × Here
  unfolding relayer_step
  relayer_if true project ct chain rs = relayer_step project ct chain rs
  relayer_if false project ct chain rs = pure tt

  -- `fetchTokenBalance`
  unfoldable pub balance_step : Wallet → Bytes → ChainType → Bytes → Here → Outcome ℕ × Here
  unfolding lookup_entry need balance_call read_balance
  balance_step wallet token evm chain = do
    e ← lookup_entry (m.calls 1) token evm chain
    raw ← need balance_query (m.evm_call chain e.contract (balance_call to_lower wallet.address))
    pure (read_balance m.garbage (trim_0x raw))
  balance_step wallet token solana chain = do
    e ← lookup_entry (m.calls 1) token solana chain
    need balance_query (m.token_balance wallet.address e.contract)

  -- `buildEVMPayload` and `buildSolanaPayload`
  unfoldable pub payload_step :
      Bytes → ChainType → TransferRequest → Here → Outcome (Bytes × Bytes) × Here
  unfolding lookup_entry amount_step need erc20_payload meta_of token_payload
  payload_step token evm q = do
    e ← lookup_entry (m.calls 2) token evm q.chain_id
    amount ← amount_step q.amount e.decimals
    data_text ← need bad_calldata (encode_transfer to_lower m.selector q.to amount)
    chain ← need bad_chain_id (m.scan_int q.chain_id)
    pure (
      codes "sign_tx_evm",
      m.evm_json (erc20_payload e data_text chain) (meta_of token e.symbol q q.chain_id),
    )
  payload_step token solana q = do
    e ← lookup_entry (m.calls 2) token solana q.chain_id
    amount ← amount_step q.amount e.decimals
    pure (codes "sign_tx_solana", m.token_json (token_payload token e q amount))

  -- Checks 1 to 6: the token, the chain type and the wallet.
  unfoldable pub checked_wallet :
      TransferRequest → List Wallet → Here → Outcome (Bytes × ChainType × Wallet) × Here
  unfolding need demand find_wallet
  checked_wallet q ws = do
    token ← need bad_token (parse_token to_lower q.token)
    ct ← need bad_chain_type (chain_of q.chain_type)
    _ ← demand needs_gasless (is_evm ct || q.gasless)
    _ ← demand bad_recipient (is_recipient ct q.to)
    wallet ← find_wallet q.wallet q.project ws
    _ ← demand wrong_chain (same_chain wallet.chain_type ct)
    _ ← demand master_wallet (not wallet.is_master)
    pure (token, ct, wallet)

  -- Checks 7 to 12: the amount, the relayer and the balance.
  unfoldable pub checked_amount :
      TransferRequest → List Relayer → Bytes → ChainType → Wallet → Here → Outcome ℕ × Here
  unfolding lookup_entry amount_step relayer_if balance_step demand
  checked_amount q rs token ct wallet = do
    e ← lookup_entry (m.calls 0) token ct q.chain_id
    amount ← amount_step q.amount e.decimals
    _ ← relayer_if (q.gasless || not (is_evm ct)) q.project ct q.chain_id rs
    balance ← balance_step wallet token ct q.chain_id
    _ ← demand zero_balance (ltb 0 balance)
    _ ← demand short_balance (leb amount balance)
    pure amount

  -- Everything before the job is created.
  unfoldable pub prepared :
      TransferRequest → List Wallet → List Relayer → Here → Outcome (Bytes × Bytes) × Here
  unfolding checked_wallet checked_amount payload_step
  prepared q ws rs = do
    (token, ct, wallet) ← checked_wallet q ws
    _ ← checked_amount q rs token ct wallet
    payload_step token ct q
