-- ===== src/Sdk/Charges.antt =====
-- internal/api/handlers/sdk_handler.go: what the operations other than `CreateWallet` cost.
use vaultkey.Prelude.{ℕ, String, ◌≡◌, refl, some, List}
use vaultkey.Prelude.Int.{pos, ◌≤ℤ◌, IsInt64}
use vaultkey.Credits.Tables.{Accounts, Result, ok, err}
use vaultkey.Credits.{OperationCost, DebitResult, get_cost}
use vaultkey.Credits.Locking.{balance}
use vaultkey.Credits.Settled.{IsBilled, IsPrice, IsSettled, debit-IsSettled}
use vaultkey.Sdk.{
  DebitCall, SdkReply, declined, forwarded, debit_params, forward, after_debit, billed, Operation,
  Charge, free, costs_of, unreadable, charge_of, serve_charge, serve,
}

module _ {R W : Type 0} (inner : W → R × W) (c : DebitCall) (org : ℕ) where
  -- A request is declined and changes nothing, or it is paid for and the handler runs once.
  abbrev pub IsPaid : String → Accounts → W → SdkReply R × Accounts × W → Type 0
  IsPaid operation s w (declined code, s', w') = (s' ≡ s) × (w' ≡ w)
  IsPaid operation s w (forwarded r, s', w') =
      ((oc : OperationCost) × (pos 0 ≤ℤ oc.cost)
        × IsBilled (debit_params org operation) c.ledger_id c.time oc.cost s s')
      × ((r, w') ≡ inner w)

  abbrev pub IsCharged : Charge → Accounts → W → SdkReply R × Accounts × W → Type 0
  IsCharged free s w x = x ≡ (forwarded (inner w).0, s, (inner w).1)
  IsCharged unreadable s w x = x ≡ (declined 400, s, w)
  IsCharged (costs_of operation) s w x = IsPaid operation s w x

  after_debit-IsPaid :
      (operation : String) (s : Accounts) (w : W) (x : Result DebitResult × Accounts)
      → IsSettled (debit_params org operation) c.ledger_id c.time s x
      → IsPaid operation s w (after_debit x inner w)
  unfolding after_debit forward
  after_debit-IsPaid operation s w (err e, s') same = (same, refl)
  after_debit-IsPaid operation s w (ok r, s') paid = (paid, refl)

  module _ (costs : List OperationCost) (s : Accounts) (w : W)
      (fits : IsInt64 (balance org s)) where
    serve_charge-IsCharged :
        (x : Charge)
        → ((operation : String) (oc : OperationCost)
            → x ≡ costs_of operation
            → get_cost c.faults costs operation ≡ ok oc
            → IsPrice oc)
        → IsCharged x s w (serve_charge c costs (some org) x inner s w)
    unfolding serve_charge billed forward
    serve_charge-IsCharged free prices = refl
    serve_charge-IsCharged unreadable prices = refl
    serve_charge-IsCharged (costs_of operation) prices = after_debit-IsPaid operation s w _ (
        debit-IsSettled c.faults (debit_params org operation) c.ledger_id c.time s costs
          (λ oc e. prices operation oc refl e) fits)

    -- Where the price of the operation is above zero and the balance fits an int64: an operation that
    -- is free runs its handler and charges nothing; a sweep whose body does not decode is answered 400;
    -- any other is declined and changes nothing, or it is charged once, with one ledger row, and its
    -- handler runs once, whatever the handler answers.
    pub serve-IsCharged :
        (operation : Operation)
        → ((name : String) (oc : OperationCost)
            → charge_of operation ≡ costs_of name
            → get_cost c.faults costs name ≡ ok oc
            → IsPrice oc)
        → IsCharged (charge_of operation) s w (serve c costs (some org) operation inner s w)
    unfolding serve
    serve-IsCharged operation prices = serve_charge-IsCharged (charge_of operation) prices
