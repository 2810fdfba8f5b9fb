-- ===== src/Worker/Payloads.antt =====
-- internal/worker/worker.go: the payloads and the result of a signing job. JSON, scanning by fmt, and
-- the texts of errors are parameters.
use vaultkey.Prelude.{ℕ, Option, none, some, [], ◌++◌, Bytes, codes}
use vaultkey.Prelude.Int.{ℤ}
use vaultkey.Relayer.Outside.{EvmTransaction, Refusal, Answer, relayed, refused, crashed, hex_text}
use vaultkey.Relayer.Evm.{EvmPayload}
use vaultkey.Relayer.Solana.{SolanaPayload}

-- `signingResult`
pub record SigningResult : Type 0 where
  pub signature : Bytes
  pub signed_tx : Bytes
  pub tx_hash : Bytes

abbrev pub of_hash : Bytes → SigningResult
of_hash h = record { signature = []; signed_tx = []; tx_hash = h }

abbrev pub of_signature : Bytes → SigningResult
of_signature s = record { signature = s; signed_tx = []; tx_hash = [] }

abbrev pub of_tx : Bytes → SigningResult
of_tx t = record { signature = []; signed_tx = t; tx_hash = [] }

pub data Failure : Type 0 where
  bad_payload not_gasless unknown_operation no_nonce not_signed bad_chain_id : Failure
  relaying : Refusal → Failure

pub record SweepEvm : Type 0 where
  pub to : Bytes
  pub value : Bytes
  pub chain_id : Bytes

pub record SweepSolana : Type 0 where
  pub to : Bytes
  pub amount : ℕ

-- `json.Unmarshal` into each payload, `json.Marshal` of the result, `Sscanf` with %d and with %x,
-- and `err.Error()`.
pub record Texts : Type 0 where
  pub evm_tx : Bytes → Option EvmTransaction
  pub message : Bytes → Option Bytes
  pub evm_relay : Bytes → Option EvmPayload
  pub solana_relay : Bytes → Option SolanaPayload
  pub sweep_evm : Bytes → Option SweepEvm
  pub sweep_solana : Bytes → Option SweepSolana
  pub result_json : SigningResult → Bytes
  pub scan_int : Bytes → Option ℤ
  pub scan_hex : Bytes → Bytes
  pub error_text : Failure → Bytes

pub data Made : Type 0 where
  made : SigningResult → Made
  failure : Failure → Made
  stopped : Made

unfoldable pub of_answer : (Bytes → SigningResult) → Answer → Made
of_answer f (relayed id) = made (f id)
of_answer f (refused why) = failure (relaying why)
of_answer f crashed = stopped

-- `"0x" + %x`
unfoldable pub hex_0x : Bytes → Bytes
unfolding hex_text
hex_0x s = codes "0x" ++ hex_text s

unfoldable pub signature_of : (Bytes → Bytes) → Option Bytes → Made
signature_of text none = failure not_signed
signature_of text (some s) = made (of_signature (text s))

unfoldable pub or_value : Option Bytes → Bytes → Bytes
or_value none captured = captured
or_value (some balance) captured = balance

unfoldable pub or_amount : Option ℕ → ℕ → ℕ
or_amount none captured = captured
or_amount (some balance) captured = balance

-- The payload of a sweep: all of the balance, without calldata, gas by default.
unfoldable pub sweep_payload : Bytes → Bytes → ℤ → EvmPayload
sweep_payload to balance chain = record {
  to = to;
  value = balance;
  payload = codes "0x";
  chain_id = chain;
  gas_limit = 0;
  gas_price = [];
}

unfoldable pub sweep_transfer : Bytes → ℕ → SolanaPayload
sweep_transfer to amount = record {
  to = to;
  amount = amount;
  token_mint = [];
  source = [];
  dest = [];
}
