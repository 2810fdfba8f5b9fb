-- ===== src/Sdk/Wallets.antt =====
-- internal/api/handlers/sdk_handler.go: `CreateWallet`, and the `CreateWallet` of handlers.go that it
-- calls.
use vaultkey.Prelude.{
  ℕ, Bool, true, false, not, ◌&&◌, Option, none, some, List, [], ◌∷◌, Bytes, bytes_eq, codes, map,
  if◌then◌else◌,
}
use vaultkey.Prelude.Int.{pos, leb_ℤ}
use vaultkey.Access.{is_empty}
use vaultkey.Store.Wallets.{ChainType, evm, solana, Wallet}
use vaultkey.Credits.Tables.{Accounts}
use vaultkey.Credits.{OperationCost}
use vaultkey.Credits.Limits.{Overrides, WalletRow, Inputs, WalletLimits, resolve_wallet_limits}
use vaultkey.Sdk.{DebitCall, SdkReply, declined, billed}

-- A body of `CreateWallet`, without the label.
pub record WalletBody : Type 0 where
  pub user_id : Bytes
  pub chain_type : Bytes

-- What the handler meets: a body that decodes, a key that is made, an INSERT that works.
pub record WalletCall : Type 0 where
  pub project : ℕ
  pub body : Option WalletBody
  pub address_and_key : Option (Bytes × Bytes)
  pub insert_fails : Bool
  pub id : ℕ

unfoldable pub known_chain : Bytes → Option ChainType
known_chain s =
    if bytes_eq s (codes "evm")
    then some evm
    else if bytes_eq s (codes "solana")
    then some solana
    else none

unfoldable pub wallet_row : WalletCall → Bytes → ChainType → Bytes × Bytes → Wallet
wallet_row c user ct (address, key) = record {
  id = c.id;
  project = c.project;
  user_id = user;
  chain_type = ct;
  address = address;
  key = key;
  is_master = false;
  swept = false;
}

unfoldable pub store_wallet :
    WalletCall → Bytes → ChainType → Option (Bytes × Bytes) → List Wallet → ℕ × List Wallet
unfolding wallet_row
store_wallet c user ct none ws = (500, ws)
store_wallet c user ct (some made) ws =
    if c.insert_fails then (500, ws) else (201, wallet_row c user ct made ∷ ws)

unfoldable pub on_chain : WalletCall → Bytes → Option ChainType → List Wallet → ℕ × List Wallet
unfolding store_wallet
on_chain c user none ws = (400, ws)
on_chain c user (some ct) ws = store_wallet c user ct c.address_and_key ws

unfoldable pub with_wallet_body : WalletCall → Option WalletBody → List Wallet → ℕ × List Wallet
unfolding on_chain is_empty known_chain
with_wallet_body c none ws = (400, ws)
with_wallet_body c (some b) ws =
    if is_empty b.user_id then (400, ws) else on_chain c b.user_id (known_chain b.chain_type) ws

-- `CreateWallet` of handlers.go: the status, and the wallets.
unfoldable pub create_wallet : WalletCall → List Wallet → ℕ × List Wallet
unfolding with_wallet_body
create_wallet c ws = with_wallet_body c c.body ws

-- The status of the limit that stops the creation of a wallet.
unfoldable pub limit_status : Bool → WalletLimits → Option ℕ
limit_status purchased l =
    if not purchased && leb_ℤ (pos 50) (pos l.existing_count)
    then some 403
    else if purchased && leb_ℤ l.hard_cap (pos l.existing_count)
    then some 403
    else if leb_ℤ l.hourly_limit (pos l.hourly_used)
    then some 429
    else none

unfoldable pub unless_limited :
    Option ℕ
    → Accounts
    → List Wallet
    → SdkReply ℕ × Accounts × List Wallet
    → SdkReply ℕ × Accounts × List Wallet
unless_limited none s ws rest = rest
unless_limited (some code) s ws rest = (declined code, s, ws)

-- What `CreateWallet` of the SDK meets. `purchased` is has_ever_purchased of the organization's row,
-- none where the query fails or finds no row, and `overrides` its row of org_limits.
pub record SdkCall : Type 0 where
  pub debit : DebitCall
  pub org : ℕ
  pub purchased : Option Bool
  pub limits_fail : Bool
  pub overrides : Option Overrides
  pub wallet : WalletCall

unfoldable pub as_row : Wallet → WalletRow
as_row w = record { project = w.project; user_id = w.user_id }

abbrev pub inputs_of : SdkCall → List OperationCost → Accounts → List Wallet → Inputs
inputs_of c costs s ws = record {
  org_exists = true;
  limits = c.overrides;
  wallets = map as_row ws;
  ledger = s.ledger;
  costs = costs;
}

-- `ResolveWalletLimits` for the organization that was found.
unfoldable pub limits_of :
    SdkCall → List OperationCost → Accounts → List Wallet → Option WalletLimits
unfolding as_row
limits_of c costs s ws =
    if c.limits_fail
    then none
    else resolve_wallet_limits (inputs_of c costs s ws) c.org c.wallet.project c.debit.time

unfoldable pub with_limits :
    SdkCall
    → List OperationCost
    → Bool
    → Option WalletLimits
    → Accounts
    → List Wallet
    → SdkReply ℕ × Accounts × List Wallet
unfolding unless_limited billed
with_limits c costs purchased none s ws = (declined 500, s, ws)
with_limits c costs purchased (some l) s ws =
    unless_limited (limit_status purchased l) s ws
      (billed c.debit costs (some c.org) "create_wallet" (create_wallet c.wallet) s ws)

unfoldable pub with_org :
    SdkCall
    → List OperationCost
    → Option Bool
    → Accounts
    → List Wallet
    → SdkReply ℕ × Accounts × List Wallet
unfolding with_limits
with_org c costs none s ws = (declined 500, s, ws)
with_org c costs (some purchased) s ws = with_limits c costs purchased (limits_of c costs s ws) s ws

-- `CreateWallet` of the SDK.
unfoldable pub sdk_create_wallet :
    SdkCall → List OperationCost → Accounts → List Wallet → SdkReply ℕ × Accounts × List Wallet
unfolding with_org
sdk_create_wallet c costs s ws = with_org c costs c.purchased s ws

-- Requests that are served one after another.
unfoldable pub create_all :
    List SdkCall → List OperationCost → Accounts → List Wallet → Accounts × List Wallet
create_all [] costs s ws = (s, ws)
create_all (c ∷ cs) costs s ws =
    let (r, s', ws') = sdk_create_wallet c costs s ws in create_all cs costs s' ws'
