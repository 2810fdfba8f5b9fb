-- ===== src/Relayer/Samples.antt =====
-- A project with one relayer per kind of chain, nodes that answer, and signatures that are copies.
use vaultkey.Prelude.{none, some, Bool, true, false, [], ◌∷◌, Bytes, codes}
use vaultkey.Prelude.Int.{pos}
use vaultkey.Store.Wallets.{Wallet, evm, solana, Relayer}
use vaultkey.Nonce.Redis.{Keys}
use vaultkey.Relayer.Outside.{took, Nodes, Signing, Env, Weather}
use vaultkey.Relayer.Evm.{EvmPayload}
use vaultkey.Relayer.Solana.{SolanaPayload}

abbrev pub user_wallet : Wallet
user_wallet = record {
  id = 3;
  project = 2;
  user_id = codes "u";
  chain_type = evm;
  address = codes "0xaa";
  key = codes "k3";
  is_master = false;
  swept = false;
}

abbrev pub paying_wallet : Wallet
paying_wallet = record user_wallet { id = 9; address = codes "0xbb"; key = codes "k9" }

abbrev pub evm_relayer : Relayer
evm_relayer = record {
  project = 2;
  wallet = 9;
  address = codes "0xbb";
  chain_type = evm;
  chain = some (codes "137");
  active = true;
}

abbrev pub solana_relayer : Relayer
solana_relayer = record {
  project = 2;
  wallet = 9;
  address = codes "bb";
  chain_type = solana;
  chain = none;
  active = true;
}

abbrev pub nodes : Nodes
nodes = record {
  evm_balance = λ chain address. some (codes "0xb1a2bc2ec50000");
  evm_gas_price = λ chain. none;
  evm_pending_nonce = λ chain address. some 5;
  evm_broadcast = λ chain raw. took (codes "0xhash");
  solana_balance = λ address. some 60000000;
  solana_blockhash = some (codes "h");
  solana_broadcast = λ raw. took (codes "sig");
}

abbrev pub weather : Weather
weather = record {
  nodes = nodes;
  relayer_fails = false;
  key_fails = false;
  user_key_fails = false;
  mark_fails = false;
  ensure_up = true;
  next_up = true;
  resync_up = true;
}

-- The address "bad" is no key.
abbrev pub is_short : Bytes → Bool
is_short (a ∷ b ∷ c ∷ []) = false
is_short _ = true

abbrev pub signing : Signing
signing = record {
  sign_evm = λ key tx. some key;
  sign_message = λ key m. some key;
  sign_solana = λ key m. some key;
  sign_solana_message = λ key m. some key;
  is_key = is_short;
  is_hash = λ h. true;
  transfer_message = λ payer owner to amount hash. some (amount ∷ to);
  token_message = λ payer owner source dest amount hash. some (amount ∷ dest);
  garbage = λ s. 0;
}

abbrev pub no_keys : Keys
no_keys k = none

abbrev pub ready : Env Keys
ready = record {
  nonces = no_keys;
  wallets = user_wallet ∷ paying_wallet ∷ [];
  relayers = evm_relayer ∷ solana_relayer ∷ [];
  sent = [];
  solana_sent = [];
}

abbrev pub transfer : EvmPayload
transfer = record {
  to = codes "0xcc";
  value = codes "0x1";
  payload = codes "0x";
  chain_id = pos 137;
  gas_limit = 0;
  gas_price = [];
}

abbrev pub payment : SolanaPayload
payment = record { to = codes "to"; amount = 7; token_mint = []; source = []; dest = [] }
