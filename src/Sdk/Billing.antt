-- ===== src/Sdk/Billing.antt =====
-- internal/api/handlers/sdk_handler.go: what a wallet of the SDK costs, and when it is paid for.
use vaultkey.Prelude.{
  ℕ, ◌<◌, ◌≡◌, ◌⊎◌, refl, Bool, true, false, Bool-cases, Option, none, some, inl, inr, Option-cases,
  List, ◌∷◌, Bytes, arith,
}
use vaultkey.Prelude.Int.{pos, ◌≤ℤ◌, leb_ℤ, IsInt64}
use vaultkey.Access.{is_empty}
use vaultkey.Store.Wallets.{ChainType, Wallet}
use vaultkey.Credits.Tables.{Accounts, Result, ok, err}
use vaultkey.Credits.{OperationCost, DebitParams, DebitResult, get_cost}
use vaultkey.Credits.Locking.{balance}
use vaultkey.Credits.Settled.{IsBilled, IsPrice, IsSettled, debit-IsSettled}
use vaultkey.Credits.Limits.{WalletLimits}
use vaultkey.Sdk.Wallets.{
  SdkCall, limits_of, with_limits, with_org, WalletCall, known_chain, wallet_row, store_wallet,
  on_chain, with_wallet_body, create_wallet, limit_status, unless_limited, sdk_create_wallet,
}
use vaultkey.Sdk.{SdkReply, declined, forwarded, debit_params, forward, after_debit, billed}

-- A wallet is made exactly with the status 201.
abbrev pub IsMade : WalletCall → List Wallet → ℕ × List Wallet → Type 0
IsMade q ws (code, ws') =
    ((code ≡ 201) × ((w : Wallet) × (ws' ≡ w ∷ ws) × (w.project ≡ q.project) × (w.id ≡ q.id)))
    ⊎ (((code ≡ 400) ⊎ (code ≡ 500)) × (ws' ≡ ws))

store_wallet-IsMade :
    (q : WalletCall) (user : Bytes) (ct : ChainType) (made : Option (Bytes × Bytes))
    (ws : List Wallet)
    → IsMade q ws (store_wallet q user ct made ws)
unfolding store_wallet wallet_row
store_wallet-IsMade q user ct none ws = inr (inr refl, refl)
store_wallet-IsMade q user ct (some (a, k)) ws = elim (Bool-cases q.insert_fails) [
  | inl e ↦ rw e (inr (inr refl, refl))
  | inr e ↦ rw e (inl (refl, (wallet_row q user ct (a, k), refl, refl, refl)))
]

pub create_wallet-IsMade : (q : WalletCall) (ws : List Wallet) → IsMade q ws (create_wallet q ws)
unfolding create_wallet with_wallet_body on_chain
create_wallet-IsMade q ws = elim (Option-cases q.body) [
  | inl e ↦ rw e (inr (inl refl, refl))
  | inr (b, e) ↦ elim (Bool-cases (is_empty b.user_id)) [
    | inl blank ↦ rw (e, blank) (inr (inl refl, refl))
    | inr user ↦ elim (Option-cases (known_chain b.chain_type)) [
      | inl bad ↦ rw (e, user, bad) (inr (inl refl, refl))
      | inr (ct, chain) ↦
          rw (e, user, chain) (store_wallet-IsMade q b.user_id ct q.address_and_key ws)
    ]
  ]
]

-- The limits that a wallet has passed.
abbrev pub IsWithin : Bool → WalletLimits → Type 0
IsWithin purchased l =
    ((purchased ≡ false → l.existing_count < 50)
      × (purchased ≡ true → leb_ℤ l.hard_cap (pos l.existing_count) ≡ false)
      × (leb_ℤ l.hourly_limit (pos l.hourly_used) ≡ false))

pub limit_status-IsWithin :
    (purchased : Bool) (l : WalletLimits) → limit_status purchased l ≡ none → IsWithin purchased l
unfolding limit_status
limit_status-IsWithin true l h = (λ e. cc, λ e. ground arith, ground arith)
limit_status-IsWithin false l h = (λ e. ground arith, λ e. cc, ground arith)

-- The debit of a wallet.
abbrev pub params : SdkCall → DebitParams
params c = debit_params c.org "create_wallet"

-- How a request to create a wallet ends: it is declined, and nothing changes; or it is within the
-- limits and paid for, and then the wallet is made, or the request fails and the price is gone.
abbrev pub Ending :
    SdkCall
    → List OperationCost
    → Accounts
    → List Wallet
    → SdkReply ℕ × Accounts × List Wallet
    → Type 0
Ending c costs s ws (declined code, s', ws') = (s' ≡ s) × (ws' ≡ ws)
Ending c costs s ws (forwarded code, s', ws') =
    ((b : Bool) × (l : WalletLimits) × (c.purchased ≡ some b)
      × (limits_of c costs s ws ≡ some l)
      × IsWithin b l)
    × ((oc : OperationCost) × (pos 0 ≤ℤ oc.cost)
        × IsBilled (params c) c.debit.ledger_id c.debit.time oc.cost s s')
    × IsMade c.wallet ws (code, ws')

module _ (c : SdkCall) (costs : List OperationCost) (s : Accounts) (ws : List Wallet) where
  after_debit-Ending :
      (b : Bool) (l : WalletLimits)
      → c.purchased ≡ some b
      → limits_of c costs s ws ≡ some l
      → IsWithin b l
      → (x : Result DebitResult × Accounts)
      → IsSettled (params c) c.debit.ledger_id c.debit.time s x
      → Ending c costs s ws (after_debit x (create_wallet c.wallet) ws)
  unfolding after_debit forward
  after_debit-Ending b l hb hl within (err e, s') same = (same, refl)
  after_debit-Ending b l hb hl within (ok r, s') paid =
      ((b, l, hb, hl, within), paid, create_wallet-IsMade c.wallet ws)

  module _
      (prices : (oc : OperationCost)
        → get_cost c.debit.faults costs "create_wallet" ≡ ok oc
        → IsPrice oc)
      (fits : IsInt64 (balance c.org s)) where
    with_limits-Ending :
        (b : Bool) (l : WalletLimits)
        → c.purchased ≡ some b
        → limits_of c costs s ws ≡ some l
        → Ending c costs s ws (with_limits c costs b (some l) s ws)
    unfolding with_limits unless_limited billed
    with_limits-Ending b l hb hl = elim (Option-cases (limit_status b l)) [
      | inl free ↦ rw free (
          after_debit-Ending b l hb hl (limit_status-IsWithin b l free) _ (
            debit-IsSettled c.debit.faults (params c) c.debit.ledger_id c.debit.time s costs prices
              fits))
      | inr (code, e) ↦ rw e (refl, refl)
    ]

    by_limits :
        (b : Bool)
        → c.purchased ≡ some b
        → (found : Option WalletLimits) → limits_of c costs s ws ≡ found
        → Ending c costs s ws (with_limits c costs b found s ws)
    unfolding with_limits
    by_limits b hb none e = (refl, refl)
    by_limits b hb (some l) e = with_limits-Ending b l hb e

    by_org :
        (found : Option Bool)
        → c.purchased ≡ found
        → Ending c costs s ws (with_org c costs found s ws)
    unfolding with_org
    by_org none e = (refl, refl)
    by_org (some b) e = by_limits b e (limits_of c costs s ws) refl

    -- Where creating a wallet has a price above zero and the balance fits an int64: a request is
    -- declined and changes neither accounts nor wallets, or it is within the organization's limits and
    -- is charged once, with one ledger row; then it makes one wallet, or it fails without a wallet and
    -- its price stays charged.
    pub sdk_create_wallet-Ending : Ending c costs s ws (sdk_create_wallet c costs s ws)
    unfolding sdk_create_wallet
    sdk_create_wallet-Ending = by_org c.purchased refl
