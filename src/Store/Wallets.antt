-- ===== src/Store/Wallets.antt =====
-- internal/storage/store.go: wallets and relayer wallets.
use vaultkey.Prelude.{
  ℕ, Bool, true, false, ◌&&◌, Option, none, some, List, [], ◌∷◌, Bytes, bytes_eq, ◌==◌,
  if◌then◌else◌,
}

-- CHECK (chain_type IN ('evm', 'solana'))
pub data ChainType : Type 0 where
  evm solana : ChainType

abbrev pub same_chain : ChainType → ChainType → Bool
same_chain evm evm = true
same_chain evm solana = false
same_chain solana evm = false
same_chain solana solana = true

-- `key` stands for the encrypted key and its encrypted data key.
pub record Wallet : Type 0 where
  pub id : ℕ
  pub project : ℕ
  pub user_id : Bytes
  pub chain_type : ChainType
  pub address : Bytes
  pub key : Bytes
  pub is_master : Bool
  pub swept : Bool

-- `GetWalletByID`: WHERE id = $1 AND project_id = $2
unfoldable pub get_wallet : ℕ → ℕ → List Wallet → Option Wallet
get_wallet i project [] = none
get_wallet i project (w ∷ ws) =
    let rest = get_wallet i project ws in if w.id == i && w.project == project then some w else rest

-- UPDATE wallets SET … WHERE id = $1
unfoldable pub set_wallet : ℕ → (Wallet → Wallet) → List Wallet → List Wallet
set_wallet i f [] = []
set_wallet i f (w ∷ ws) = let rest = set_wallet i f ws in if w.id == i then f w ∷ rest else w ∷ rest

unfoldable pub mark_swept : Wallet → Wallet
mark_swept w = record w { swept = true }

unfoldable pub mark_master : Bool → Wallet → Wallet
mark_master b w = record w { is_master = b }

-- A row of relayer_wallets joined with its wallet's address; `chain` none is NULL.
pub record Relayer : Type 0 where
  pub project : ℕ
  pub wallet : ℕ
  pub address : Bytes
  pub chain_type : ChainType
  pub chain : Option Bytes
  pub active : Bool

unfoldable pub is_relayer : ℕ → ChainType → Relayer → Bool
is_relayer project ct r = r.project == project && same_chain r.chain_type ct && r.active

is_for_chain : Bytes → Option Bytes → Bool
is_for_chain chain none = false
is_for_chain chain (some c) = bytes_eq c chain

is_any_chain : Option Bytes → Bool
is_any_chain none = true
is_any_chain (some c) = false

first_relayer : (Relayer → Bool) → List Relayer → Option Relayer
first_relayer test [] = none
first_relayer test (r ∷ rs) = let rest = first_relayer test rs in if test r then some r else rest

unfoldable pub or_else : Option Relayer → Option Relayer → Option Relayer
or_else none other = other
or_else (some r) other = some r

-- `GetRelayerWallet`: ORDER BY chain_id NULLS LAST LIMIT 1, so a relayer of the chain itself comes
-- before one for all chains.
unfoldable pub get_relayer : ℕ → ChainType → Bytes → List Relayer → Option Relayer
unfolding first_relayer is_for_chain is_any_chain is_relayer or_else
get_relayer project ct chain rs =
    or_else (first_relayer (λ r. is_relayer project ct r && is_for_chain chain r.chain) rs)
      (first_relayer (λ r. is_relayer project ct r && is_any_chain r.chain) rs)
