-- ===== src/Stablecoin/Payloads.antt =====
-- internal/stablecoin/service.go: forms of addresses, the payloads of transfers, and what the
-- service calls.
use vaultkey.Prelude.{
  ℕ, Bool, true, false, ◌&&◌, ◌||◌, Option, none, some, [], ◌∷◌, ◌++◌, Bytes, codes, bytes_eq, leb,
  length, replicate, ◌==◌, ◌%◌, ◌^◌, if◌then◌else◌,
}
use vaultkey.Prelude.Int.{ℤ}
use vaultkey.Amount.{Result, ok, err}
use vaultkey.Store.Wallets.{ChainType, evm, solana}
use vaultkey.Relayer.Outside.{Nodes, trim_0x, no_digits}
use vaultkey.Relayer.Evm.{EvmPayload}
use vaultkey.Stablecoin.Registry.{Entry, Call}
use vaultkey.Stablecoin.Desk.{TransferRequest, bad_amount, Outcome, fine, stops}

unfoldable pub chain_of : Bytes → Option ChainType
chain_of s =
    if bytes_eq s (codes "evm")
    then some evm
    else if bytes_eq s (codes "solana")
    then some solana
    else none

unfoldable pub is_hex : ℕ → Bool
is_hex c = leb b'0' c && leb c b'9' || leb b'a' c && leb c b'f' || leb b'A' c && leb c b'F'

-- [1-9A-HJ-NP-Za-km-z]
unfoldable pub is_base58 : ℕ → Bool
is_base58 c =
    leb b'1' c && leb c b'9'
    || leb b'A' c && leb c b'H'
    || leb b'J' c && leb c b'N'
    || leb b'P' c && leb c b'Z'
    || leb b'a' c && leb c b'k'
    || leb b'm' c && leb c b'z'

unfoldable pub each : (ℕ → Bool) → Bytes → Bool
each test [] = true
each test (c ∷ s) = test c && each test s

-- `(?i)^(0x)?[0-9a-f]{40}$`
unfoldable pub is_evm_address : Bytes → Bool
unfolding is_hex each
is_evm_address (c ∷ d ∷ s) =
    each is_hex (c ∷ d ∷ s) && length s == 38
    || c == b'0' && (d == b'x' || d == b'X') && each is_hex s && length s == 40
is_evm_address _ = false

-- `^[1-9A-HJ-NP-Za-km-z]{32,44}$`
unfoldable pub is_solana_address : Bytes → Bool
unfolding is_base58 each
is_solana_address s = each is_base58 s && leb 32 (length s) && leb (length s) 44

-- `validateRecipientAddress`
unfoldable pub is_recipient : ChainType → Bytes → Bool
unfolding is_evm_address is_solana_address
is_recipient evm to = is_evm_address to
is_recipient solana to = is_solana_address to

unfoldable pub is_evm : ChainType → Bool
is_evm evm = true
is_evm solana = false

-- `stablecoinMeta`
pub record Meta : Type 0 where
  pub token : Bytes
  pub symbol : Bytes
  pub to : Bytes
  pub amount : Bytes
  pub chain_id : Bytes

-- `solanaTokenPayload`
pub record TokenPayload : Type 0 where
  pub to : Bytes
  pub amount : ℕ
  pub token_mint : Bytes
  pub gasless : Bool
  pub meta : Meta

-- Nodes, the registry's calls, the statements that may fail, and libraries.
pub record Market : Type 0 where
  pub nodes : Nodes
  -- chain, contract, calldata
  pub evm_call : Bytes → Bytes → Bytes → Option Bytes
  -- owner, mint
  pub token_balance : Bytes → Bytes → Option ℕ
  -- of the three lookups of one transfer
  pub calls : ℕ → Call
  pub wallet_fails : Bool
  pub relayer_fails : Bool
  pub recheck_fails : Bool
  pub garbage : Bytes → ℕ
  pub selector : Bytes
  pub scan_int : Bytes → Option ℤ
  pub evm_json : EvmPayload → Meta → Bytes
  pub token_json : TokenPayload → Bytes

unfoldable pub meta_of : Bytes → Bytes → TransferRequest → Bytes → Meta
meta_of token symbol q chain = record {
  token = token;
  symbol = symbol;
  to = q.to;
  amount = q.amount;
  chain_id = chain;
}

-- The amount as `big.Int.Uint64` gives it.
unfoldable pub token_payload : Bytes → Entry → TransferRequest → ℕ → TokenPayload
unfolding meta_of
token_payload token e q amount = record {
  to = q.to;
  amount = amount % 2 ^ 64;
  token_mint = e.contract;
  gasless = true;
  meta = meta_of token e.symbol q [];
}

unfoldable pub erc20_payload : Entry → Bytes → ℤ → EvmPayload
erc20_payload e data_text chain = record {
  to = e.contract;
  value = codes "0x0";
  payload = data_text;
  chain_id = chain;
  gas_limit = 100000;
  gas_price = [];
}

-- `"0x70a08231"`, 24 zeros, and the wallet's address
unfoldable pub balance_call : (Bytes → Bytes) → Bytes → Bytes
balance_call to_lower address =
    codes "0x70a08231" ++ (replicate 24 b'0' ++ trim_0x (to_lower address))

unfoldable pub read_balance : (Bytes → ℕ) → Bytes → ℕ
read_balance garbage [] = 0
read_balance garbage (c ∷ s) = no_digits garbage (c ∷ s)

unfoldable pub amount_of : Result → Outcome ℕ
amount_of (ok n) = fine n
amount_of (err why) = stops (bad_amount why)
