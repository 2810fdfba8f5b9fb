-- ===== src/Sdk/Cap.antt =====
-- internal/api/handlers/sdk_handler.go: how many wallets a project of the free tier has.
use vaultkey.Prelude.{
  ℕ, ◌≤◌, ◌<◌, ◌+◌, ◌≡◌, ◌⊎◌, refl, Bool, Bool-cases, ◌&&◌, true, false, Option, none, some, inl,
  inr, Option-cases, List, [], ◌∷◌, map, ◌==◌, if◌then◌else◌, arith,
}
use vaultkey.Store.Wallets.{Wallet}
use vaultkey.Credits.Tables.{Accounts, Result, ok, err}
use vaultkey.Credits.{OperationCost, DebitResult}
use vaultkey.Credits.Limits.{WalletLimits, count_wallets, resolve_wallet_limits-count}
use vaultkey.Sdk.Billing.{IsMade, create_wallet-IsMade, IsWithin, limit_status-IsWithin}
use vaultkey.Sdk.Wallets.{
  SdkCall, inputs_of, as_row, limits_of, with_limits, with_org, sdk_create_wallet, create_all,
  unless_limited, limit_status, WalletCall, create_wallet,
}
use vaultkey.Sdk.{SdkReply, after_debit, forward, billed}

-- The wallets of a project that its limits count.
abbrev pub size : ℕ → List Wallet → ℕ
size project ws = count_wallets project (map as_row ws)

IsMade-size :
    (q : WalletCall) (project : ℕ) (ws : List Wallet) (x : ℕ × List Wallet)
    → IsMade q ws x
    → size project x.1 ≤ size project ws + (if q.project == project then 1 else 0)
unfolding count_wallets as_row
IsMade-size q project ws (code, ws') (inl (status, (w, made, at, i))) = rw made (ground arith)
IsMade-size q project ws (code, ws') (inr (status, same)) = rw same (omega arith)

-- The row of an organization that has bought credits is not what the query answers.
abbrev pub is_free : Option Bool → Bool
is_free (some true) = false
is_free _ = true

abbrev pub are_free : List SdkCall → Bool
are_free [] = true
are_free (c ∷ cs) = is_free c.purchased && are_free cs

-- The wallets stay as they are, or a request within the limits has run `CreateWallet`.
abbrev Grown :
    SdkCall
    → List OperationCost
    → Accounts
    → List Wallet
    → SdkReply ℕ × Accounts × List Wallet
    → Type 0
Grown c costs s ws (r, s', ws') =
    (ws' ≡ ws)
    ⊎ (((b : Bool) × (l : WalletLimits) × (c.purchased ≡ some b)
          × (limits_of c costs s ws ≡ some l)
          × IsWithin b l)
        × (ws' ≡ (create_wallet c.wallet ws).1))

module _ (c : SdkCall) (costs : List OperationCost) (s : Accounts) (ws : List Wallet) where
  after_debit-Grown :
      (b : Bool) (l : WalletLimits)
      → c.purchased ≡ some b
      → limits_of c costs s ws ≡ some l
      → IsWithin b l
      → (x : Result DebitResult × Accounts)
      → Grown c costs s ws (after_debit x (create_wallet c.wallet) ws)
  unfolding after_debit forward
  after_debit-Grown b l hb hl within (err e, s') = inl refl
  after_debit-Grown b l hb hl within (ok r, s') = inr ((b, l, hb, hl, within), refl)

  by_limits :
      (b : Bool)
      → c.purchased ≡ some b
      → (found : Option WalletLimits) → limits_of c costs s ws ≡ found
      → Grown c costs s ws (with_limits c costs b found s ws)
  unfolding with_limits unless_limited billed
  by_limits b hb none e = inl refl
  by_limits b hb (some l) e = elim (Option-cases (limit_status b l)) [
    | inl free ↦ rw free (after_debit-Grown b l hb e (limit_status-IsWithin b l free) _)
    | inr (code, stop) ↦ rw stop (inl refl)
  ]

  by_org :
      (found : Option Bool) → c.purchased ≡ found → Grown c costs s ws (with_org c costs found s ws)
  unfolding with_org
  by_org none e = inl refl
  by_org (some b) e = by_limits b e (limits_of c costs s ws) refl

  -- Limits that are found hold the wallets that there are.
  limits_of-size :
      (l : WalletLimits)
      → limits_of c costs s ws ≡ some l
      → l.existing_count ≡ size c.wallet.project ws
  unfolding limits_of
  limits_of-size l h = elim (Bool-cases c.limits_fail) [
    | inl e ↦ ground arith
    | inr e ↦
        resolve_wallet_limits-count (inputs_of c costs s ws) c.org c.wallet.project c.debit.time l
          (rw e at h)
  ]

  -- Without a purchase, the limits leave room for one wallet.
  room :
      (b : Bool) (l : WalletLimits)
      → c.purchased ≡ some b
      → is_free c.purchased ≡ true
      → limits_of c costs s ws ≡ some l
      → IsWithin b l
      → size c.wallet.project ws < 50
  room true l hb free hl within = ground arith
  room false l hb free hl (few, cap, hourly) =
      let count = limits_of-size l hl in let f = few refl in omega arith

  Grown-size :
      (project : ℕ)
      → is_free c.purchased ≡ true
      → size project ws ≤ 50
      → (x : SdkReply ℕ × Accounts × List Wallet) → Grown c costs s ws x
      → size project x.2 ≤ 50
  Grown-size project free h (r, s', ws') (inl same) = rw same h
  Grown-size project free h (r, s', ws') (inr ((b, l, hb, hl, within), made)) =
      let fits = room b l hb free hl within in
      let grown = IsMade-size c.wallet project ws _ (create_wallet-IsMade c.wallet ws) in
      rw made (grind arith)

  sdk_create_wallet-size :
      (project : ℕ)
      → is_free c.purchased ≡ true
      → size project ws ≤ 50
      → size project (sdk_create_wallet c costs s ws).2 ≤ 50
  unfolding sdk_create_wallet
  sdk_create_wallet-size project free h =
      Grown-size project free h (sdk_create_wallet c costs s ws) (by_org c.purchased refl)

-- While an organization has not bought credits, requests to the CreateWallet of the SDK, served one after
-- another, with any prices, balances and failures, bring no project above the 50 wallets of the free
-- tier. Wallets whose user id begins with an underscore are not counted.
pub create_all-size :
    (cs : List SdkCall) (costs : List OperationCost) (s : Accounts) (ws : List Wallet) (project : ℕ)
    → are_free cs ≡ true
    → size project ws ≤ 50
    → size project (create_all cs costs s ws).1 ≤ 50
unfolding create_all
create_all-size [] costs s ws project free h = h
create_all-size (c ∷ cs) costs s ws project free h =
    create_all-size cs costs _ _ project (ground arith)
      (sdk_create_wallet-size c costs s ws project (ground arith) h)
