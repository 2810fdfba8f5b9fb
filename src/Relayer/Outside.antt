-- ===== src/Relayer/Outside.antt =====
-- What the relayer calls: the chain's nodes, the signing libraries, and the state that a call changes.
use vaultkey.Prelude.{
  ℕ, suc, ◌+◌, ◌-◌, ◌*◌, ◌/◌, ◌%◌, ltb, Bool, ◌&&◌, Option, none, some, List, [], ◌∷◌, Bytes, leb,
  ◌==◌, if◌then◌else◌,
}
use vaultkey.Prelude.Int.{ℤ, pos, negsuc}
use vaultkey.Amount.Decimal.{to_decimal}
use vaultkey.Store.Wallets.{Wallet, Relayer}

-- `wallet.EVMTransaction`; amounts are hex texts as they came.
pub record EvmTransaction : Type 0 where
  pub to : Bytes
  pub value : Bytes
  pub payload : Bytes
  pub gas_limit : ℕ
  pub gas_price : Bytes
  pub nonce : ℕ
  pub chain_id : ℤ

-- A transaction that a node took: its chain, the wallet that signed it.
pub record Sent : Type 0 where
  pub chain : Bytes
  pub signer : ℕ
  pub tx : EvmTransaction

-- What a broadcast comes to: the node takes the transaction and answers, it takes it and the call
-- fails all the same (no answer within the client's 15 seconds, or one that cannot be read), or it
-- does not take it.
pub data Broadcast : Type 0 where
  took : Bytes → Broadcast
  took_unheard not_taken : Broadcast

-- What the nodes of a chain answer in one call; none is an error.
pub record Nodes : Type 0 where
  pub evm_balance : Bytes → Bytes → Option Bytes
  pub evm_gas_price : Bytes → Option Bytes
  pub evm_pending_nonce : Bytes → Bytes → Option ℕ
  pub evm_broadcast : Bytes → Bytes → Broadcast
  pub solana_balance : Bytes → Option ℕ
  pub solana_blockhash : Option Bytes
  pub solana_broadcast : Bytes → Broadcast

-- Signatures by a wallet's key, and the bytes of a Solana message, by libraries.
pub record Signing : Type 0 where
  pub sign_evm : Bytes → EvmTransaction → Option Bytes
  pub sign_message : Bytes → Bytes → Option Bytes
  pub sign_solana : Bytes → Bytes → Option Bytes
  pub sign_solana_message : Bytes → Bytes → Option Bytes
  -- whether a base58 text is a public key, or a block hash: the `Must…` calls panic where it is not
  pub is_key : Bytes → Bool
  pub is_hash : Bytes → Bool
  -- payer, owner, recipient, amount, block hash
  pub transfer_message : Bytes → Bytes → Bytes → ℕ → Bytes → Option Bytes
  -- payer, owner, source account, destination account, amount, block hash
  pub token_message : Bytes → Bytes → Bytes → Bytes → ℕ → Bytes → Option Bytes
  -- what `SetString` leaves of a text that is not all hex digits
  pub garbage : Bytes → ℕ

-- What a call reads and changes.
pub record Env (Nonces : Type 0) : Type 0 where
  pub nonces : Nonces
  pub wallets : List Wallet
  pub relayers : List Relayer
  pub sent : List Sent
  pub solana_sent : List Bytes

-- What may fail in one call: statements, and Redis at each of its three uses.
pub record Weather : Type 0 where
  pub nodes : Nodes
  pub relayer_fails : Bool
  pub key_fails : Bool
  pub user_key_fails : Bool
  pub mark_fails : Bool
  pub ensure_up : Bool
  pub next_up : Bool
  pub resync_up : Bool

pub data Refusal : Type 0 where
  relayer_query no_relayer balance_query balance_low nonce_init nonce_next : Refusal
  blockhash no_recipient no_amount no_accounts message_build : Refusal
  key_wallet user_wallet signature user_signature broadcast : Refusal

pub data Answer : Type 0 where
  relayed : Bytes → Answer
  refused : Refusal → Answer
  crashed : Answer

-- `fmt.Sprintf("%d", n)`
abbrev pub int_text : ℤ → Bytes
int_text (pos n) = to_decimal n
int_text (negsuc n) = b'-' ∷ to_decimal (suc n)

unfoldable pub hex_char : ℕ → ℕ
hex_char n = if ltb n 10 then b'0' + n else b'a' + (n - 10)

-- `hex.EncodeToString`, and `%x` of bytes
unfoldable pub hex_text : Bytes → Bytes
unfolding hex_char
hex_text [] = []
hex_text (c ∷ s) = hex_char (c / 16) ∷ hex_char (c % 16) ∷ hex_text s

hex_digit : ℕ → Option ℕ
hex_digit c =
    if leb b'0' c && leb c b'9'
    then some (c - b'0')
    else if leb b'a' c && leb c b'f'
    then some (c - b'a' + 10)
    else if leb b'A' c && leb c b'F'
    then some (c - b'A' + 10)
    else none

unfoldable pub hex_from : ℕ → Bytes → Option ℕ
unfolding hex_digit
hex_from acc [] = some acc
hex_from acc (c ∷ s) = elim (hex_digit c) [ none ↦ none | some d ↦ hex_from (acc * 16 + d) s ]

-- `strings.TrimPrefix(s, "0x")`
unfoldable pub trim_0x : Bytes → Bytes
trim_0x [] = []
trim_0x (c ∷ []) = c ∷ []
trim_0x (c ∷ d ∷ s) = if c == b'0' && d == b'x' then s else c ∷ d ∷ s

-- `big.Int.SetString(s, 16)`
unfoldable pub no_digits : (Bytes → ℕ) → Bytes → ℕ
no_digits garbage [] = garbage []
no_digits garbage (c ∷ s) = elim (hex_from 0 (c ∷ s)) [ none ↦ garbage (c ∷ s) | some n ↦ n ]

-- The same without the prefix
unfoldable pub big_hex : (Bytes → ℕ) → Bytes → ℕ
unfolding no_digits hex_from trim_0x
big_hex garbage s = no_digits garbage (trim_0x s)
