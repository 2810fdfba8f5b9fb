-- ===== src/Credits/Settled.antt =====
-- internal/credits/credits.go: how a whole `Debit` ends, with its price looked up.
use vaultkey.Prelude.{ℕ, ◌≡◌, refl, false, List}
use vaultkey.Prelude.Int.{ℤ, pos, ◌≤ℤ◌, ◌-ℤ◌, IsInt64}
use vaultkey.Credits.Tables.{Accounts, Faults, Result, ok, err}
use vaultkey.Credits.{
  OperationCost, DebitParams, DebitResult, get_cost, is_zero, priced, debit, debit_row,
}
use vaultkey.Credits.Locking.{balance, Posted}
use vaultkey.Credits.Posting.{Debited, charge-Debited}

-- One operation is paid for: the balance covers it and falls, and one ledger row records it.
abbrev pub IsBilled : DebitParams → ℕ → ℕ → ℤ → Accounts → Accounts → Type 0
IsBilled p id now cost s s' =
    (cost ≤ℤ balance p.org s)
    × Posted p.org (balance p.org s -ℤ cost) (debit_row p cost (balance p.org s -ℤ cost) id now) s
        s'

-- A price above zero.
abbrev pub IsPrice : OperationCost → Type 0
IsPrice oc = (pos 0 ≤ℤ oc.cost) × (is_zero oc.cost ≡ false)

-- An error changes nothing, and success pays a price.
abbrev pub IsSettled : DebitParams → ℕ → ℕ → Accounts → Result DebitResult × Accounts → Type 0
IsSettled p id now s (err e, s') = s' ≡ s
IsSettled p id now s (ok r, s') =
    (oc : OperationCost) × (pos 0 ≤ℤ oc.cost) × IsBilled p id now oc.cost s s'

module _ (faults : Faults) (p : DebitParams) (id now : ℕ) (s : Accounts) where
  of_Debited :
      (oc : OperationCost) (x : Result DebitResult × Accounts)
      → pos 0 ≤ℤ oc.cost
      → Debited p oc.cost id now s x
      → IsSettled p id now s x
  of_Debited oc (err e, s') h d = d
  of_Debited oc (ok r, s') h (enough, result, posted) = (oc, h, (enough, posted))

  priced-IsSettled :
      (found : Result OperationCost)
      → ((oc : OperationCost) → found ≡ ok oc → IsPrice oc)
      → IsInt64 (balance p.org s)
      → IsSettled p id now s (priced faults p id now found s)
  unfolding priced
  priced-IsSettled (err e) prices fits = refl
  priced-IsSettled (ok oc) prices fits =
      let (h, nz) = prices oc refl in
      of_Debited oc _ h (charge-Debited faults p oc.cost id now s h nz fits)

  pub debit-IsSettled :
      (costs : List OperationCost)
      → ((oc : OperationCost) → get_cost faults costs p.operation ≡ ok oc → IsPrice oc)
      → IsInt64 (balance p.org s)
      → IsSettled p id now s (debit faults costs p id now s)
  unfolding debit
  debit-IsSettled costs prices fits =
      priced-IsSettled (get_cost faults costs p.operation) prices fits
