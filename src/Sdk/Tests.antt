-- ===== src/Sdk/Tests.antt =====
-- An organization of the free tier, and the theorems at its requests.
use vaultkey.Prelude.{
  ℕ, ◌+◌, ◌≡◌, ◌≤◌, refl, bytes_eq, true, false, some, none, List, [], ◌∷◌, codes, arith,
}
use vaultkey.Prelude.Int.{ℤ, pos, ◌+ℤ◌, ◌-ℤ◌, wrap64}
use vaultkey.Store.Wallets.{Wallet}
use vaultkey.Credits.Tables.{Accounts, Faults, ok}
use vaultkey.Credits.Settled.{IsPrice}
use vaultkey.Credits.Limits.{by_footprint, count_recent, count_wallets, resolve_wallet_limits}
use vaultkey.Credits.{OperationCost, debit, balance_or_zero, is_zero, get_cost}
use vaultkey.Credits.Locking.{balance}
use vaultkey.Sdk.Billing.{Ending, sdk_create_wallet-Ending}
use vaultkey.Sdk.Cap.{size, create_all-size}
use vaultkey.Sdk.Wallets.{
  WalletCall, SdkCall, limit_status, limits_of, create_wallet, sdk_create_wallet, create_all,
}
use vaultkey.Sdk.{
  serve, sign_evm_message, SdkReply, declined, forwarded, sweep_charge, transfer_charge,
}

abbrev none_fail : Faults
none_fail _ = false

abbrev wallet_cost : OperationCost
wallet_cost = record { operation = "create_wallet"; cost = pos 10; active = true }

abbrev granted : Accounts
granted = record { balances = (7, pos 25) ∷ []; ledger = [] }

abbrev alice : WalletCall
alice = record {
  project = 1;
  body = some (record { user_id = codes "alice"; chain_type = codes "evm" });
  address_and_key = some (codes "0xa1", codes "k1");
  insert_fails = false;
  id = 1;
}

abbrev asks : WalletCall → SdkCall
asks w = record {
  debit = record { faults = none_fail; ledger_id = 1; time = 5 };
  org = 7;
  purchased = some false;
  limits_fail = false;
  overrides = none;
  wallet = w;
}

abbrev unnamed : WalletCall
unnamed = record alice { body = none }

abbrev prices : List OperationCost
prices = wallet_cost ∷ []

-- The status, the balance, and the number of wallets.
abbrev seen : SdkReply ℕ × Accounts × List Wallet → SdkReply ℕ × ℤ × ℕ
seen (r, s, ws) = (r, balance 7 s, size 1 ws)

abbrev underscored : WalletCall
underscored = record alice {
  body = some (record { user_id = codes "_bob"; chain_type = codes "evm" });
}

-- A request whose body does not decode is answered 400, and it has paid. A wallet whose user id begins
-- with an underscore does not count.
one_request :
    (seen (sdk_create_wallet (asks alice) prices granted []) ≡ (forwarded 201, pos 15, 1))
    × (seen (sdk_create_wallet (asks unnamed) prices granted []) ≡ (forwarded 400, pos 15, 0))
    × (seen (sdk_create_wallet (asks underscored) prices granted []) ≡ (forwarded 201, pos 15, 0))
unfolding sdk_create_wallet limits_of resolve_wallet_limits balance_or_zero count_wallets bytes_eq
    debit ◌-ℤ◌ wrap64 limit_status by_footprint ◌+ℤ◌ count_recent create_wallet
one_request = (refl, refl, refl)

charges :
    (sweep_charge (codes "solana") ≡ "sweep_solana")
    × (sweep_charge (codes "") ≡ "sweep_evm")
    × (transfer_charge (codes "solana") ≡ "stablecoin_transfer_solana")
unfolding sweep_charge transfer_charge bytes_eq
charges = (refl, refl, refl)

-- An operation that has no price is a fault of the configuration.
unpriced :
    serve {R = ℕ}
      (asks alice).debit
      prices
      (some 7)
      sign_evm_message
      (λ (w : ℕ). (202, w + 1))
      granted
      3
    ≡ (declined 500, granted, 3)
unfolding serve debit
unpriced = refl

wallet_cost-IsPrice : (oc : OperationCost) → ok wallet_cost ≡ ok oc → IsPrice oc
unfolding is_zero
wallet_cost-IsPrice oc e = ground arith

sdk_create_wallet-Ending_example :
    Ending (asks alice) prices granted [] (sdk_create_wallet (asks alice) prices granted [])
unfolding get_cost balance_or_zero
sdk_create_wallet-Ending_example =
    sdk_create_wallet-Ending (asks alice) prices granted [] wallet_cost-IsPrice (omega arith)

create_all-size_example :
    size 1 (create_all (asks alice ∷ asks unnamed ∷ asks alice ∷ []) prices granted []).1 ≤ 50
unfolding count_wallets
create_all-size_example =
    create_all-size (asks alice ∷ asks unnamed ∷ asks alice ∷ []) prices granted [] 1 refl
      (omega arith)
